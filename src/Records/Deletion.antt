-- ===== src/Records/Deletion.antt =====
-- A deleted record stays out of reach; a created one can be read.
use finance_project.Prelude.{
  String, Bool, true, false, ◌&&◌, some, ◌≡◌, ◌≢◌, refl, sym, ap, ◌∙◌, subst, All, All-member, ◌==◌,
  ==_iff, inl, inr, Option-cases,
}
use mathlib.Core.List.{Memᴰ}
use finance_project.Models.{Uuid, FinancialRecord, records}
use finance_project.Action.{ok, >>=-elim}
use finance_project.Platform.{Platform}
use finance_project.Platform.Reply.{done}
use finance_project.Platform.Updates.{Updates}
use finance_project.Platform.Database.{in_columns, is_visible}
use finance_project.Session.{World, read_clock}
use finance_project.Session.Laws.{query-ok, exec-ok, transaction-elim}
use finance_project.Session.Rows.{All-update_where_hit}
use finance_project.Tokens.Rotation.{or_missing-ok}
use finance_project.Records.{
  get_record_by_id, update_record, mark_deleted, delete_body, delete_record,
}
use finance_project.Records.Validity.{audit_record-others}

module _ (P : Platform) where
  -- No record that is not deleted has the id.
  abbrev IsGone : Uuid → P.Db → Type 0
  IsGone i d =
      All
        (λ r.
          (is_visible P.Decimal records r && r.id == i) ≡ true
          → is_visible P.Decimal records r ≡ false)
        (P.rows records d)

  -- A record that has been found is one of those with the id.
  get_record_by_id-found :
      (id : String) (w : World P) {u : World P} {r : FinancialRecord P.Decimal}
      → get_record_by_id P id w ≡ (ok r, u)
      → (i : Uuid) × (P.uuid_input id ≡ some i)
        × Memᴰ r (P.rows records w.db)
        × (is_visible P.Decimal records r ≡ true)
        × ((r.id == i) ≡ true)
        × (u ≡ w)
  unfolding get_record_by_id
  get_record_by_id-found id w {u} {r} h = >>=-elim _ _ w h λ found w₁ queried there.
      let (selected, to_w) = query-ok P _ _ w queried in
      let (is_found, to_u) = or_missing-ok P _ found w₁ there in
      elim (Option-cases (P.uuid_input id)) [
        | inl unread ↦ cc (rw unread at selected)
        | inr (i, read) ↦
            let (m, seen, hit) =
              P.first_some records (λ x. x.id == i) w.db r
                (rw read at selected ∙ ap done is_found) in
            (i, read, m, seen, hit, sym to_u ∙ to_w)
      ]

  IsGone-unreadable :
      (id : String) (i : Uuid) (w : World P) {u : World P} {r : FinancialRecord P.Decimal}
      → P.uuid_input id ≡ some i
      → IsGone i w.db
      → get_record_by_id P id w ≢ (ok r, u)
  IsGone-unreadable id i w {u} {r} read gone h =
      let (j, read', m, seen, hit, _) = get_record_by_id-found id w h in
      let same : j ≡ i = cc in
      let hidden = All-member _ (P.rows records w.db) gone m (rw seen (rw same at hit)) in
      cc (sym seen ∙ hidden)

  IsGone-same :
      (i : Uuid) (d e : P.Db) → P.rows records e ≡ P.rows records d → IsGone i d → IsGone i e
  IsGone-same i d e same gone = rw same gone

  delete_body-IsGone :
      (audited : Bool) (id : String) (w : World P) {u : World P} {x : Unit {0}}
      → delete_body P audited id w ≡ (ok x, u)
      → (i : Uuid) × (P.uuid_input id ≡ some i) × IsGone i u.db
  unfolding delete_body read_clock
  delete_body-IsGone audited id w {u} h = >>=-elim _ _ w h λ r w₁ got r₁.
      >>=-elim _ _ w₁ r₁ λ now w₂ ticked r₂. >>=-elim _ _ w₂ r₂ λ _ w₃ updated logged.
        let (i, read, _, _, hit, _) = get_record_by_id-found id w got in
        let same : r.id ≡ i = (==_iff r.id i).0 hit in
        let (accepted, _) = exec-ok P _ _ w₂ updated in
        let rows = P.update_rows records _ (mark_deleted P now) w₂.db w₃.db accepted in
        let kept = audit_record-others P audited _ _ _ w₃ logged records (λ q. cc) (λ q. cc) in
        (
          i,
          read,
          subst
              (λ j.
                All
                  (λ s.
                    (is_visible P.Decimal records s && s.id == j) ≡ true
                    → is_visible P.Decimal records s ≡ false)
                  (P.rows records u.db))
              same
              (subst
                (All (λ s.
                  (is_visible P.Decimal records s && s.id == r.id) ≡ true
                  → is_visible P.Decimal records s ≡ false))
                (sym (kept ∙ rows))
                (All-update_where_hit (λ s. is_visible P.Decimal records s ≡ false)
                  (λ s. is_visible P.Decimal records s && s.id == r.id)
                  (λ s. in_columns P.Decimal P.round records (mark_deleted P now s)) (λ s _. refl)
                  (P.rows records w₂.db))),
        )

  -- After a deletion that has returned, the record can be neither read, updated nor deleted again
  -- under its id, in any state whose records are as the deletion has left them.
  pub delete_record-hides :
      (audited again : Bool) (id : String) (m : Updates P.Decimal) (w v : World P) {u : World P}
      {x : Unit {0}}
      → delete_record P audited id w ≡ (ok x, u)
      → P.rows records v.db ≡ P.rows records u.db
      → ((r : FinancialRecord P.Decimal) (y : World P) → get_record_by_id P id v ≢ (ok r, y))
        × ((r : FinancialRecord P.Decimal) (y : World P) → update_record P again id m v ≢ (ok r, y))
        × ((y : World P) → delete_record P again id v ≢ (ok tt, y))
  unfolding delete_record delete_body update_record
  delete_record-hides audited again id m w v {u} h same =
      transaction-elim P _ w h λ d a begun body committed.
        let (i, read, gone) = delete_body-IsGone audited id (record w { db = d }) body in
        let in_v = IsGone-same i a.db v.db (same ∙ committed records) gone in
        (
          λ r y got. IsGone-unreadable id i v read in_v got,
          λ r y got. >>=-elim _ _ v got λ _ _ first _. IsGone-unreadable id i v read in_v first,
          λ y got. transaction-elim P _ v got λ e b begun' body' _.
              >>=-elim _ _ (record v { db = e }) body'
                λ _ _ first _.
                  IsGone-unreadable id i (record v { db = e }) read
                    (IsGone-same i v.db e (begun' records) in_v) first,
        )
