-- ===== src/Records/Invariant.antt =====
-- Every operation of the service keeps the stored records valid, however it ends.
use finance_project.Prelude.{
  ap, String, ◌≡◌, sym, ◌∙◌, subst, Bool, List, [], ◌∷◌, All, Bool-cases, inl, inr,
}
use finance_project.Models.{FinancialRecord, records}
use finance_project.Action.{Result, ok, >>=-elim, pure-ok}
use finance_project.Platform.{Platform}
use finance_project.Platform.Database.{in_columns, update_where}
use finance_project.Platform.Updates.{Updates}
use finance_project.Session.{read_clock, World}
use finance_project.Session.Laws.{SameRows, exec-ok}
use finance_project.Session.Keeps.{
  Keeps, Keeps-bind, Keeps-query, Keeps-missing, Keeps-refuse, Keeps-transaction,
}
use finance_project.Records.{
  check_record, create_body, create_record, get_record_by_id, check_updates, update_body,
  update_record, delete_body, delete_record, mark_deleted,
}
use finance_project.Records.Validity.{
  IsValidRecord, AllValid, AllValid-append, check_record-ok, create_body-IsAdded,
  audit_record-others,
}
use finance_project.Records.Updating.{
  NamesNoField, GivesExact, IsChecked, check_updates-IsChecked, assign-IsValidRecord,
}

module _ (P : Platform) where
  AllValid-stable : (d e : P.Db) → SameRows P d e → AllValid P d → AllValid P e
  AllValid-stable d e same valid = subst (All (IsValidRecord P)) (sym (same records)) valid

  update_where-AllValid :
      (p : FinancialRecord P.Decimal → Bool)
      (f : FinancialRecord P.Decimal → FinancialRecord P.Decimal)
      → ((r : FinancialRecord P.Decimal)
          → P.round r.amount ≡ r.amount
          → IsValidRecord P r
          → IsValidRecord P (f r))
      → (rs : List (FinancialRecord P.Decimal))
      → All (λ r. in_columns P.Decimal P.round records r ≡ r) rs
      → All (IsValidRecord P) rs
      → All (IsValidRecord P) (update_where p f rs)
  update_where-AllValid p f keep [] _ valid = tt
  update_where-AllValid p f keep (r ∷ rs) (fits, exact) (v, valid) = (
    elim (Bool-cases (p r)) [
      | inl hit ↦ rw hit (keep r (ap (λ s. s.amount) fits) v)
      | inr miss ↦ rw miss v
    ],
    update_where-AllValid p f keep rs exact valid,
  )

  get_record_by_id-Keeps : (I : P.Db → Type 0) (id : String) → Keeps P I (get_record_by_id P id)
  unfolding get_record_by_id
  get_record_by_id-Keeps I id =
      Keeps-bind P I _ _ (Keeps-query P I _ _) λ o w u e i. Keeps-missing P I _ o u i

  update_body-AllValid :
      (audited : Bool) (r : FinancialRecord P.Decimal) (m : Updates P.Decimal) (w : World P)
      {u : World P} {x : Unit {0}}
      → IsChecked P m
      → update_body P audited r m w ≡ (ok x, u)
      → AllValid P w.db
      → AllValid P u.db
  unfolding update_body
  update_body-AllValid audited r m w {u} checked h valid = >>=-elim _ _ w h λ _ w₁ updated logged.
      let (accepted, _) = exec-ok P _ _ w updated in
      let rows = P.update_map_rows records _ m w.db w₁.db accepted in
      let kept = audit_record-others P audited _ _ _ w₁ logged records (λ q. cc) (λ q. cc) in
      subst (All (IsValidRecord P)) (sym (kept ∙ rows)) (
        update_where-AllValid _ _ (λ s exact v. assign-IsValidRecord P m s checked exact v)
          (P.rows records w.db) (P.rows_in_columns records w.db) valid)

  delete_body-AllValid :
      (audited : Bool) (id : String) (w : World P) {u : World P} {x : Unit {0}}
      → delete_body P audited id w ≡ (ok x, u)
      → AllValid P w.db
      → AllValid P u.db
  unfolding delete_body read_clock
  delete_body-AllValid audited id w {u} h valid = >>=-elim _ _ w h λ r w₁ got r₁.
      >>=-elim _ _ w₁ r₁ λ now w₂ read r₂. >>=-elim _ _ w₂ r₂ λ _ w₃ updated logged.
        let valid₁ : AllValid P w₁.db =
          subst (λ (x : Result (FinancialRecord P.Decimal) × World P). AllValid P x.1.db) got
            (get_record_by_id-Keeps (AllValid P) id w valid) in
        let valid₂ : AllValid P w₂.db =
          subst (λ (v : World P). AllValid P v.db) (pure-ok read).1 valid₁ in
        let (accepted, _) = exec-ok P _ _ w₂ updated in
        let rows = P.update_rows records _ (mark_deleted P now) w₂.db w₃.db accepted in
        let kept = audit_record-others P audited _ _ _ w₃ logged records (λ q. cc) (λ q. cc) in
        subst (All (IsValidRecord P)) (sym (kept ∙ rows)) (
          update_where-AllValid _ (λ s. in_columns P.Decimal P.round records (mark_deleted P now s))
            (λ s exact v. record {
              known_type = v.known_type;
              positive = rw exact v.positive;
              known_currency = v.known_currency;
            })
            (P.rows records w₂.db) (P.rows_in_columns records w₂.db) valid₂)

  check_record-Keeps :
      (I : P.Db → Type 0) (r : FinancialRecord P.Decimal) → Keeps P I (check_record P r)
  unfolding check_record
  check_record-Keeps I r = Keeps-bind P I _ _ (Keeps-refuse P I _ _) λ _ _ u₁ _ i₁.
      Keeps-bind P I _ _ (Keeps-refuse P I _ _)
        (λ _ _ u₂ _ i₂.
          Keeps-bind P I _ _ (Keeps-refuse P I _ _)
            (λ _ _ u₃ _ i₃.
              Keeps-bind P I _ _ (Keeps-refuse P I _ _)
                (λ _ _ u₄ _ i₄. Keeps-bind P I _ _ (Keeps-refuse P I _ _) (λ _ _ u₅ _ i₅. i₅) u₄ i₄)
                u₃ i₃)
            u₂ i₂)
        u₁ i₁

  check_updates-Keeps : (I : P.Db → Type 0) (m : Updates P.Decimal) → Keeps P I (check_updates P m)
  unfolding check_updates
  check_updates-Keeps I m =
      Keeps-bind P I _ _ (λ _ i. i)
        λ _ _ u₁ _ i₁. Keeps-bind P I _ _ (λ _ i. i) (λ n _ u₂ _ i₂. i₂) u₁ i₁

  create_record-AllValid :
      (audited : Bool) (r : FinancialRecord P.Decimal)
      → P.round r.amount ≡ r.amount
      → Keeps P (AllValid P) (create_record P audited r)
  unfolding create_record
  create_record-AllValid audited r exact =
      Keeps-bind P (AllValid P) _ _ (check_record-Keeps (AllValid P) r) λ checked w u passed valid.
        Keeps-transaction P (AllValid P) (create_body P audited checked) AllValid-stable
          (λ stored w₁ u₁ returned valid₁.
            let (good, is_checked, _) = check_record-ok P r w passed in
            let a = create_body-IsAdded P audited r checked w₁ good is_checked returned in
            subst (All (IsValidRecord P)) (sym a.record_rows) (
              AllValid-append P (P.rows records w₁.db) _ valid₁ (record {
                known_type = a.valid.known_type;
                positive =
                    rw
                      (ap (λ s. P.round s.amount) a.as_requested
                        ∙ exact
                        ∙ sym (ap (λ s. s.amount) a.as_requested))
                      a.valid.positive;
                known_currency = a.valid.known_currency;
              })))
          u valid

  update_record-AllValid :
      (audited : Bool) (id : String) (m : Updates P.Decimal)
      → NamesNoField P m
      → GivesExact P m
      → Keeps P (AllValid P) (update_record P audited id m)
  unfolding update_record
  update_record-AllValid audited id m plain exact =
      Keeps-bind P (AllValid P) _ _ (get_record_by_id-Keeps (AllValid P) id) λ r w u got valid.
        Keeps-bind P (AllValid P) _ _ (check_updates-Keeps (AllValid P) m)
          (λ n w₁ u₁ passed valid₁.
            Keeps-bind P (AllValid P) _ _
              (Keeps-transaction P (AllValid P) (update_body P audited r n) AllValid-stable
                (λ x w₂ u₂ h valid₂.
                  update_body-AllValid audited r n w₂
                    (check_updates-IsChecked P m w₁ plain exact passed).0 h valid₂))
              (λ _ _ u₂ _ valid₂.
                Keeps-bind P (AllValid P) _ _ (Keeps-query P (AllValid P) _ _)
                  (λ o _ u₃ _ valid₃. Keeps-missing P (AllValid P) _ o u₃ valid₃) u₂ valid₂)
              u₁ valid₁)
          u valid

  delete_record-AllValid :
      (audited : Bool) (id : String) → Keeps P (AllValid P) (delete_record P audited id)
  unfolding delete_record
  delete_record-AllValid audited id =
      Keeps-transaction P (AllValid P) (delete_body P audited id) AllValid-stable
        λ x w u h valid. delete_body-AllValid audited id w h valid

  -- If all stored records are of a known type and currency and have a positive amount, they still
  -- do after CreateRecord, UpdateRecord and DeleteRecord, whether these return, refuse the request,
  -- fail or panic; no key of the updates but type, amount and currency names one of these columns,
  -- and the amounts that are given have no more than the four decimals of the column.
  pub operations-AllValid :
      (audited : Bool) (r : FinancialRecord P.Decimal) (id : String) (m : Updates P.Decimal)
      (w : World P)
      → P.round r.amount ≡ r.amount
      → NamesNoField P m
      → GivesExact P m
      → AllValid P w.db
      → AllValid P (create_record P audited r w).1.db
        × AllValid P (update_record P audited id m w).1.db
        × AllValid P (delete_record P audited id w).1.db
  operations-AllValid audited r id m w exact plain given valid = (
    create_record-AllValid audited r exact w valid,
    update_record-AllValid audited id m plain given w valid,
    delete_record-AllValid audited id w valid,
  )
