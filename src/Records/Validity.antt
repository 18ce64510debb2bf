-- ===== src/Records/Validity.antt =====
-- Stored records stay valid under every operation of the service.
use finance_project.Prelude.{
  String, ◌≡◌, ◌≢◌, refl, sym, ap, ◌∙◌, subst, Bool, true, false, not, ◌&&◌, List, [], ◌∷◌, ◌++◌,
  All, Bool-cases, inl, inr, str_eq, arith,
}
use finance_project.Models.{AuditEvent, FinancialRecord, Table, records, events, outbox}
use finance_project.Text.{to_upper}
use finance_project.Action.{ok, >>=-elim, pure-ok, refuse_if-ok}
use finance_project.Platform.{Platform}
use finance_project.Platform.Runtime.{Changes}
use finance_project.Session.{World}
use finance_project.Session.Laws.{SameRows, create-elim}
use finance_project.Audit.Atomic.{Recorded, Recorded-congr, log_event-Logged, build_audit_event-ok}
use finance_project.Records.{
  is_valid_record_type, is_valid_currency, record_currency, check_record, audit_record, create_body,
}

not-false : (b : Bool) → not b ≡ false → b ≡ true
not-false b h = ground arith

-- A currency that is let through is stored as a known one.
stored_currency :
    (c : String)
    → (not (str_eq c "") && not (is_valid_currency (to_upper c))) ≡ false
    → is_valid_currency (record_currency c) ≡ true
unfolding to_upper
stored_currency c h = elim (Bool-cases (str_eq c "")) [
  | inl empty ↦ rw empty refl
  | inr given ↦ rw given (not-false _ (rw given at h))
]

module _ (P : Platform) where
  -- A record of a known type and currency with a positive amount.
  pub record IsValidRecord (r : FinancialRecord P.Decimal) : Type 0 where
    pub known_type : is_valid_record_type r.record_type ≡ true
    pub positive : P.less_or_equal r.amount P.dec_zero ≡ false
    pub known_currency : is_valid_currency r.currency ≡ true

  abbrev pub AllValid : P.Db → Type 0
  AllValid d = All IsValidRecord (P.rows records d)

  pub check_record-ok :
      (r : FinancialRecord P.Decimal) (w : World P) {u : World P}
      {checked : FinancialRecord P.Decimal}
      → check_record P r w ≡ (ok checked, u)
      → IsValidRecord checked
        × (checked ≡ record r { currency = record_currency r.currency })
        × (w ≡ u)
  unfolding check_record
  check_record-ok r w {u} {checked} h = >>=-elim _ _ w h λ _ w₁ typed r₁.
      >>=-elim _ _ w₁ r₁ λ _ w₂ positive r₂. >>=-elim _ _ w₂ r₂ λ _ w₃ known r₃.
        >>=-elim _ _ w₃ r₃ λ _ w₄ categorised r₄. >>=-elim _ _ w₄ r₄ λ _ w₅ dated returned.
          let (typed, to_w₁) = refuse_if-ok _ _ w typed in
          let (positive, to_w₂) = refuse_if-ok _ _ w₁ positive in
          let (known, to_w₃) = refuse_if-ok _ _ w₂ known in
          let to_w₄ = (refuse_if-ok _ _ w₃ categorised).1 in
          let to_w₅ = (refuse_if-ok _ _ w₄ dated).1 in
          let (is_checked, to_u) = pure-ok returned in
          (
            subst IsValidRecord is_checked (record {
              known_type = not-false _ typed;
              positive = positive;
              known_currency = stored_currency r.currency known;
            }),
            sym is_checked,
            to_w₁ ∙ to_w₂ ∙ to_w₃ ∙ to_w₄ ∙ to_w₅ ∙ to_u,
          )

  pub audit_record-others :
      (audited : Bool) (r : FinancialRecord P.Decimal) (action : String) (diff : Changes P.Decimal)
      (w : World P) {u : World P} {x : Unit {0}}
      → audit_record P audited r action diff w ≡ (ok x, u)
      → (t : Table) → t ≢ events
      → t ≢ outbox
      → P.rows t u.db ≡ P.rows t w.db
  unfolding audit_record
  audit_record-others false r action diff w h t n m = let to_u = (pure-ok h).1 in rw (← to_u) refl
  audit_record-others true r action diff w h t n m = >>=-elim _ _ w h λ event w₁ built logged.
      let (_, _, _, _, _, same) = build_audit_event-ok P _ _ _ _ _ _ _ w built in
      (log_event-Logged P event w₁ logged).others t n m ∙ ap (P.rows t) same

  pub AllValid-append :
      (rs : List (FinancialRecord P.Decimal)) (r : FinancialRecord P.Decimal)
      → All IsValidRecord rs
      → IsValidRecord r
      → All IsValidRecord (rs ++ r ∷ [])
  AllValid-append [] r h v = (v, tt)
  AllValid-append (x ∷ rs) r (p, h) v = (p, AllValid-append rs r h v)

  -- The trail that an operation on a record leaves: none without an audit service, and else an event
  -- of the record and its owner.
  abbrev pub RecordTrail : Bool → FinancialRecord P.Decimal → String → P.Db → P.Db → Type 0
  RecordTrail false r action d e =
      (P.rows events e ≡ P.rows events d) × (P.rows outbox e ≡ P.rows outbox d)
  RecordTrail true r action d e =
      (event : AuditEvent) × (event.entity_type ≡ "record")
      × (event.entity_id ≡ P.uuid_string r.id)
      × (event.action ≡ action)
      × (event.actor_id ≡ P.uuid_string r.user_id)
      × Recorded P event d e

  audit_record-RecordTrail :
      (audited : Bool) (r : FinancialRecord P.Decimal) (action : String) (diff : Changes P.Decimal)
      (w : World P) {u : World P} {x : Unit {0}}
      → audit_record P audited r action diff w ≡ (ok x, u)
      → RecordTrail audited r action w.db u.db
  unfolding audit_record
  audit_record-RecordTrail false r action diff w h =
      let to_u = (pure-ok h).1 in (rw (← to_u) refl, rw (← to_u) refl)
  audit_record-RecordTrail true r action diff w {u} h = >>=-elim _ _ w h λ event w₁ built logged.
      let (of_record, of_id, as_action, by_owner, _, same) =
        build_audit_event-ok P _ _ _ _ _ _ _ w built in
      (
        event,
        of_record,
        of_id,
        as_action,
        by_owner,
        subst (λ d. Recorded P event d u.db) same (log_event-Logged P event w₁ logged).recorded,
      )

  RecordTrail-congr :
      (audited : Bool) (r : FinancialRecord P.Decimal) (action : String) {d e : P.Db} (d' e' : P.Db)
      → ((t : Table) → t ≢ records → P.rows t d ≡ P.rows t d')
      → SameRows P e e'
      → RecordTrail audited r action d e
      → RecordTrail audited r action d' e'
  RecordTrail-congr false r action d' e' before after (p, q) =
      (after events ∙ p ∙ before events (λ n. cc), after outbox ∙ q ∙ before outbox (λ n. cc))
  RecordTrail-congr true r action d' e' before after (event, k₁, k₂, k₃, k₄, logged) = (
    event,
    k₁,
    k₂,
    k₃,
    k₄,
    Recorded-congr P d' e' (before events (λ n. cc)) (before outbox (λ n. cc)) (after events)
        (after outbox) logged,
  )

  -- Between `d` and `e` a record has been added, and otherwise only the audit trail has grown.
  pub record IsAdded (audited : Bool) (request stored : FinancialRecord P.Decimal) (d e : P.Db)
      : Type 0 where
    pub as_requested :
        stored ≡ record request { id = stored.id; currency = record_currency request.currency }
    pub valid : IsValidRecord stored
    pub record_rows :
        P.rows records e ≡ P.rows records d ++ record stored { amount = P.round stored.amount } ∷ []
    pub trail : RecordTrail audited stored "create" d e
    pub others : (t : Table) → t ≢ records → t ≢ events → t ≢ outbox → P.rows t e ≡ P.rows t d

  pub create_body-IsAdded :
      (audited : Bool) (request r : FinancialRecord P.Decimal) (w : World P) {u : World P}
      {stored : FinancialRecord P.Decimal}
      → IsValidRecord r
      → r ≡ record request { currency = record_currency request.currency }
      → create_body P audited r w ≡ (ok stored, u)
      → IsAdded audited request stored w.db u.db
  unfolding create_body
  create_body-IsAdded audited request r w {u} {stored} valid is_r h =
      >>=-elim _ _ w h λ row w₁ made r₁. >>=-elim _ _ w₁ r₁ λ _ w₂ logged returned.
        create-elim P records _ r.id _ w made λ id is_row _ _ added kept.
          let (is_stored, to_u) = pure-ok returned in
          let others = audit_record-others audited row _ _ w₁ logged in
          record {
            as_requested = rw (← is_stored, ← is_row, is_r) refl;
            valid =
                rw (← is_stored, ← is_row)
                  (record {
                    known_type = valid.known_type;
                    positive = valid.positive;
                    known_currency = valid.known_currency;
                  });
            record_rows = rw (← to_u, others records (λ q. cc) (λ q. cc), ← is_stored) added;
            trail =
                subst (λ s. RecordTrail audited s "create" w.db u.db) is_stored
                  (RecordTrail-congr audited row "create" w.db u.db kept
                    (λ t. ap (λ v. P.rows t v.db) (sym to_u))
                    (audit_record-RecordTrail audited row _ _ w₁ logged));
            others = λ t n n₁ n₂. ap (λ v. P.rows t v.db) (sym to_u) ∙ others t n₁ n₂ ∙ kept t n;
          }
