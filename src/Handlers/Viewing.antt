-- ===== src/Handlers/Viewing.antt =====
-- What a viewer is shown of the records.
use finance_project.Prelude.{
  true, false, Option, some, List, [], ◌∷◌, All, All-imp, str_eq, eq_iff, ◌≡◌, inl, inr, refl, sym,
  ap, ◌∙◌, subst, arith, Bool-cases,
}
use finance_project.Errors.{GoError, app}
use finance_project.Models.{Uuid, FinancialRecord, role_viewer}
use finance_project.Action.{Action, Result, ok, err, panic}
use finance_project.Platform.{Platform}
use finance_project.Session.{World}
use finance_project.Records.{present, record_matches, RecordFilters}
use finance_project.Records.Listing.{get_records-IsPage, IsOwnerAsked}
use finance_project.Http.{
  Context, get_string, Payload, Response, json, raw, handle_service_error, serve, answer,
}
use finance_project.Http.Requests.{Json}
use finance_project.Handlers.{
  handle_get_records, handle_get_record_by_id, record_filters, own_record,
}

-- The records that a response carries.
abbrev carried : {D : Type 0} → Payload D → List (FinancialRecord D)
carried (Payload.one_record r) = r ∷ []
carried (Payload.record_page rs total page size) = rs
carried _ = []

abbrev pub records_in : {D : Type 0} → Response D → List (FinancialRecord D)
records_in (json status r) = carried r.payload
records_in (raw status text) = []

module _ (P : Platform) where
  error_carries_none : (e : GoError) → records_in {D = P.Decimal} (handle_service_error e) ≡ []
  error_carries_none (app e) = refl
  error_carries_none (GoError.other text) = refl

  -- A call of a service answers with its value or carries no records.
  serve-elim :
      {A : Type 0} (m : Action (World P) A) (k : A → Response P.Decimal) (w : World P) {u : World P}
      {r : Response P.Decimal} (Q : Response P.Decimal → Type 0)
      → serve P m k w ≡ (ok r, u)
      → ((e : GoError) → Q (handle_service_error e))
      → ((a : A) (v : World P) → m w ≡ (ok a, v) → Q (k a))
      → Q r
  unfolding serve
  serve-elim {A} m k w {u} {r} Q h failed returned = go (m w) refl h
    where
      go : (x : Result A × World P) → m w ≡ x → answer P k x ≡ (ok r, u) → Q r
      go (ok a, v) e g = subst Q (cc) (returned a v e)
      go (err c, v) e g = subst Q (cc) (failed c)
      go (panic, v) e g = cc (ap (λ (p : Result (Response P.Decimal) × World P). p.0) g)

  matched_owner :
      (f : RecordFilters) (id : Uuid) (x : FinancialRecord P.Decimal)
      → record_matches P f (some id) x ≡ true
      → x.user_id ≡ id
  matched_owner f id x hit = ground (arith, hit)

  module _ (J : Json P.Decimal) (c : Context) where
    abbrev Owned : Response P.Decimal → Type 0
    Owned r = All (λ x. P.uuid_input (get_string c.user_id) ≡ some x.user_id) (records_in r)

    matches_owner :
        (f : RecordFilters) (owner : Option Uuid) (x : FinancialRecord P.Decimal)
        → IsOwnerAsked P f owner
        → present f.user_id ≡ some (get_string c.user_id)
        → record_matches P f owner x ≡ true
        → P.uuid_input (get_string c.user_id) ≡ some x.user_id
    matches_owner f owner x (inl (absent, _)) asked hit = cc
    matches_owner f owner x (inr (s, id, given, e, is)) asked hit =
        let same = matched_owner f id x (rw is at hit) in cc

    own_record-Owned :
        (x : FinancialRecord P.Decimal)
        → get_string c.user_role ≡ role_viewer
        → Owned (own_record P J c x)
    own_record-Owned x viewer =
        elim (Bool-cases (str_eq (P.uuid_string x.user_id) (get_string c.user_id))) [
          | inl same ↦
              rw ((eq_iff _ _).1 viewer, same)
                (
                  ap P.uuid_input (sym ((eq_iff _ _).0 same)) ∙ P.uuid_input-uuid_string x.user_id,
                  tt,
                )
          | inr differs ↦ rw ((eq_iff _ _).1 viewer, differs) tt
        ]

    asks_own :
        get_string c.user_role ≡ role_viewer
        → str_eq (get_string c.user_id) "" ≡ false
        → present (record_filters P J c).user_id ≡ some (get_string c.user_id)
    asks_own viewer named = rw ((eq_iff _ _).1 viewer, named) refl

    -- A viewer whose token names a user is shown only that user's records, in the list whatever the
    -- query asks for, and under any record's id.
    pub viewer_sees_own :
        (w : World P) {u v : World P} {list one : Response P.Decimal}
        → get_string c.user_role ≡ role_viewer
        → str_eq (get_string c.user_id) "" ≡ false
        → handle_get_records P J c w ≡ (ok list, u)
        → handle_get_record_by_id P J c w ≡ (ok one, v)
        → All (λ x. P.uuid_input (get_string c.user_id) ≡ some x.user_id) (records_in list)
          × All (λ x. P.uuid_input (get_string c.user_id) ≡ some x.user_id) (records_in one)
    unfolding handle_get_records handle_get_record_by_id
    viewer_sees_own w viewer named listed shown = (
      serve-elim _ _ w Owned listed (λ e. subst (All _) (sym (error_carries_none e)) tt)
          (λ (rs, total) v h.
            let (owner, asked, page, _) = get_records-IsPage P (record_filters P J c) _ _ w h in
            All-imp rs
              (λ x m.
                matches_owner (record_filters P J c) owner x asked (asks_own viewer named) m.2)
              page.found),
      serve-elim _ _ w Owned shown (λ e. subst (All _) (sym (error_carries_none e)) tt)
          (λ x v h. own_record-Owned x viewer),
    )
