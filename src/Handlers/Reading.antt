-- ===== src/Handlers/Reading.antt =====
-- The handlers that only read: they leave the state of the program as it is.
use finance_project.Prelude.{ℕ, ℤ, String, Bool, Option, none, some, ◌≡◌, refl, ◌∙◌}
use finance_project.Models.{Table, Row, Account}
use finance_project.Action.{Action, Result, ok, err, panic}
use finance_project.Platform.{Platform}
use finance_project.Platform.Reply.{Reply}
use finance_project.Session.{World}
use finance_project.Session.Reads.{Reads, Reads-bind, Reads-query, Reads-missing}
use finance_project.Pages.{find_page}
use finance_project.Ledger.{get_transactions}
use finance_project.Accounts.{get_account_by_id, get_accounts_by_user, or_not_found}
use finance_project.Records.{get_records, get_record_by_id}
use finance_project.Dashboard.{get_summary, get_trends, get_category_breakdown}
use finance_project.Http.{Context, Response, serve, answer}
use finance_project.Http.Requests.{Json}
use finance_project.Handlers.{
  handle_get_transactions, handle_get_accounts, handle_get_account_entries, handle_get_records,
  handle_get_record_by_id, handle_get_summary, handle_get_trends, handle_get_category_breakdown,
  entries_answer, handle_get_users, handle_get_audit_log,
}
use finance_project.Users.{get_all_users}
use finance_project.Audit.{query_events}

module _ (P : Platform) where
  serve-Reads :
      {A : Type 0} (m : Action (World P) A) (k : A → Response P.Decimal)
      → Reads P m
      → Reads P (serve P m k)
  unfolding serve
  serve-Reads {A} m k reads w = go (m w) (reads w)
    where
      go : (x : Result A × World P) → x.1 ≡ w → (answer P k x).1 ≡ w
      go (ok a, u) e = e
      go (err c, u) e = e
      go (panic, u) e = e

  find_page-Reads :
      (t : Table) (condition : Reply (Row P.Decimal t → Bool)) (column count find : String)
      (page size : ℕ)
      → Reads P (find_page P t condition column count find page size)
  unfolding find_page
  find_page-Reads t condition column count find page size =
      Reads-bind P _ _ (Reads-query P _ _) λ _. Reads-bind P _ _ (Reads-query P _ _) λ _ w. refl

  get_transactions-Reads : (id : String) (page size : ℤ) → Reads P (get_transactions P id page size)
  unfolding get_transactions
  get_transactions-Reads id page size = find_page-Reads _ _ _ _ _ _ _

  or_not_found-Reads :
      (id : String) (o : Option (Account P.Decimal)) → Reads P (or_not_found P id o)
  or_not_found-Reads id none w = refl
  or_not_found-Reads id (some a) w = refl

  get_account_by_id-Reads : (id : String) → Reads P (get_account_by_id P id)
  unfolding get_account_by_id
  get_account_by_id-Reads id = Reads-bind P _ _ (Reads-query P _ _) (or_not_found-Reads id)

  module _ (J : Json P.Decimal) where
    pub handle_get_transactions-Reads : (c : Context) → Reads P (handle_get_transactions P J c)
    unfolding handle_get_transactions
    handle_get_transactions-Reads c = serve-Reads _ _ (get_transactions-Reads _ _ _)

    pub handle_get_accounts-Reads : (c : Context) → Reads P (handle_get_accounts P J c)
    unfolding handle_get_accounts get_accounts_by_user
    handle_get_accounts-Reads c = serve-Reads _ _ (Reads-bind P _ _ (Reads-query P _ _) λ _ w. refl)

    pub handle_get_account_entries-Reads :
        (c : Context) → Reads P (handle_get_account_entries P J c)
    unfolding handle_get_account_entries
    handle_get_account_entries-Reads c w =
        go (get_account_by_id P c.param_id w) (get_account_by_id-Reads c.param_id w)
      where
        go : (x : Result (Account P.Decimal) × World P) → x.1 ≡ w → (entries_answer P J c x).1 ≡ w
        go (ok a, u) e = serve-Reads _ _ (get_transactions-Reads _ _ _) u ∙ e
        go (err f, u) e = e
        go (panic, u) e = e

    pub handle_get_records-Reads : (c : Context) → Reads P (handle_get_records P J c)
    unfolding handle_get_records get_records
    handle_get_records-Reads c = serve-Reads _ _ (find_page-Reads _ _ _ _ _ _ _)

    pub handle_get_record_by_id-Reads : (c : Context) → Reads P (handle_get_record_by_id P J c)
    unfolding handle_get_record_by_id get_record_by_id
    handle_get_record_by_id-Reads c =
        serve-Reads _ _ (Reads-bind P _ _ (Reads-query P _ _) λ o. Reads-missing P _ o)

    pub handle_get_summary-Reads : (c : Context) → Reads P (handle_get_summary P J c)
    unfolding handle_get_summary get_summary
    handle_get_summary-Reads c = serve-Reads _ _ (Reads-bind P _ _ (Reads-query P _ _) λ _ w. refl)

    pub handle_get_trends-Reads : (c : Context) → Reads P (handle_get_trends P J c)
    unfolding handle_get_trends get_trends
    handle_get_trends-Reads c = serve-Reads _ _ (Reads-bind P _ _ (Reads-query P _ _) λ _ w. refl)

    pub handle_get_category_breakdown-Reads :
        (c : Context) → Reads P (handle_get_category_breakdown P J c)
    unfolding handle_get_category_breakdown get_category_breakdown
    handle_get_category_breakdown-Reads c =
        serve-Reads _ _ (Reads-bind P _ _ (Reads-query P _ _) λ _ w. refl)

    pub handle_get_users-Reads : (c : Context) → Reads P (handle_get_users P J c)
    unfolding handle_get_users get_all_users
    handle_get_users-Reads c = serve-Reads _ _ (Reads-bind P _ _ (Reads-query P _ _) λ _ w. refl)

    pub handle_get_audit_log-Reads : (c : Context) → Reads P (handle_get_audit_log P J c)
    unfolding handle_get_audit_log query_events
    handle_get_audit_log-Reads c = serve-Reads _ _ (find_page-Reads _ _ _ _ _ _ _)
