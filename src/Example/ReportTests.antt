-- ===== src/Example/ReportTests.antt =====
-- The theorems on lists and reports of records.
use finance_project.Prelude.{ℤ, pos, none, some, [], ◌∷◌, All, ◌≡◌, refl, negsuc}
use finance_project.Action.{ok, ◌>>=◌}
use finance_project.Text.{atoi}
use finance_project.Session.{query}
use finance_project.Pages.{find_page}
use finance_project.Records.{get_records, get_record_by_id, RecordFilters}
use finance_project.Dashboard.{
  SummaryRow, TrendRow, CategoryRow, by_currency, by_month, by_category, get_summary, get_trends,
  get_category_breakdown,
}
use finance_project.Dashboard.Rows.{IsReport}
use finance_project.Dashboard.Reports.{
  summary_of, trend_of, category_of, live_records, dashboard-IsReport,
}
use finance_project.Http.{Context, Response, Payload, serve, success_response}
use finance_project.Handlers.{handle_get_records, handle_get_record_by_id}
use finance_project.Handlers.Viewing.{records_in, viewer_sees_own}
use finance_project.Example.Int.{◌+ℤ◌, ◌-ℤ◌}
use finance_project.Example.Machine.{machine}
use finance_project.Example.Web.{rent, running, request, no_json}

abbrev rents_of_viewer : RecordFilters
rents_of_viewer = record {
  record_type = none;
  category = some "Rent";
  start_date = none;
  end_date = none;
  user_id = some "uuu";
}

abbrev viewing : Context
viewing = request "GET" ""

abbrev listed : Response ℤ
listed =
    success_response 200 "financial records retrieved successfully"
      (Payload.record_page (rent ∷ []) 1 (pos 1) (pos 10))

abbrev shown : Response ℤ
shown = success_response 200 "financial record retrieved successfully" (Payload.one_record rent)

viewer_lists : handle_get_records machine no_json viewing running ≡ (ok listed, running)
unfolding handle_get_records serve get_records find_page query ◌>>=◌ atoi
viewer_lists = refl

viewer_gets : handle_get_record_by_id machine no_json viewing running ≡ (ok shown, running)
unfolding handle_get_record_by_id serve get_record_by_id query ◌>>=◌
viewer_gets = refl

viewer_sees_own_example :
    All (λ x. machine.uuid_input "uuu" ≡ some x.user_id) (records_in listed)
    × All (λ x. machine.uuid_input "uuu" ≡ some x.user_id) (records_in shown)
viewer_sees_own_example =
    viewer_sees_own machine no_json viewing running refl refl viewer_lists viewer_gets

abbrev rent_summary : SummaryRow ℤ
rent_summary = record {
  currency = "INR";
  total_income = pos 0;
  total_expenses = pos 20;
  net_balance = negsuc 19;
  total_records = 1;
}

abbrev rent_trend : TrendRow ℤ
rent_trend = record {
  currency = "INR";
  month = machine.to_char_month 7;
  income = pos 0;
  expense = pos 20;
  net = negsuc 19;
}

abbrev rent_category : CategoryRow ℤ
rent_category = record {
  currency = "INR";
  category = "Rent";
  total_income = pos 0;
  total_expense = pos 20;
  total = pos 20;
  number = 1;
}

summary_runs : get_summary machine running ≡ (ok (rent_summary ∷ []), running)
unfolding get_summary query ◌>>=◌ ◌+ℤ◌ ◌-ℤ◌
summary_runs = refl

trends_runs : get_trends machine running ≡ (ok (rent_trend ∷ []), running)
unfolding get_trends query ◌>>=◌ ◌+ℤ◌ ◌-ℤ◌
trends_runs = refl

breakdown_runs : get_category_breakdown machine running ≡ (ok (rent_category ∷ []), running)
unfolding get_category_breakdown query ◌>>=◌ ◌+ℤ◌ ◌-ℤ◌
breakdown_runs = refl

dashboard-IsReport_example :
    IsReport
      (by_currency machine)
      (summary_of machine)
      (live_records machine running.db)
      (rent_summary ∷ [])
    × IsReport
        (by_month machine)
        (trend_of machine)
        (live_records machine running.db)
        (rent_trend ∷ [])
    × IsReport
        (by_category machine)
        (category_of machine)
        (live_records machine running.db)
        (rent_category ∷ [])
dashboard-IsReport_example =
    dashboard-IsReport machine running summary_runs trends_runs breakdown_runs
