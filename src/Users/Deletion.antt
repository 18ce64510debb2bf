-- ===== src/Users/Deletion.antt =====
-- What `DeleteUser` has done when it returns.
use finance_project.Prelude.{
  String, Bool, false, not, Option, none, some, filter, ◌==◌, ==_iff, ◌≡◌, ◌≢◌, sym, ap, ◌∙◌, subst,
}
use mathlib.Core.List.{Memᴰ}
use finance_project.Models.{Uuid, User, Table, users, events, outbox}
use finance_project.Errors.{GoError}
use finance_project.Action.{ok, >>=-elim, pure-ok}
use finance_project.Platform.{Platform}
use finance_project.Platform.Reply.{done}
use finance_project.Platform.Database.{cascades}
use finance_project.Session.{World, or_missing}
use finance_project.Session.Laws.{exec-ok, query-ok, transaction-elim}
use finance_project.Users.{user_by, get_user_by_id, delete_user_body, delete_user}
use finance_project.Users.Safety.{audit_user-others}

module _ (P : Platform) where
  or_missing-ok :
      {A : Type 0} (e : GoError) (o : Option A) (w : World P) {u : World P} {a : A}
      → or_missing P e o w ≡ (ok a, u)
      → (o ≡ some a) × (u ≡ w)
  or_missing-ok e none w h = cc (ap (λ x. x.0) h)
  or_missing-ok e (some b) w h = let (same, to_u) = pure-ok h in (ap some same, sym to_u)

  found_by :
      (o : Option Uuid) (d : P.Db) (user : User)
      → user_by P o d ≡ done (some user)
      → Memᴰ user (P.rows users d) × (o ≡ some user.id)
  found_by none d user h = cc
  found_by (some id) d user h =
      let (there, _, hit) = P.first_some users (λ u. u.id == id) d user h in
      (there, ap some (sym ((==_iff user.id id).0 hit)))

  -- The user with the id `id` has gone, and nothing else but what goes with a user.
  pub record IsDeleted (id : String) (d e : P.Db) : Type 0 where
    pub user : User
    pub was_there : Memᴰ user (P.rows users d)
    pub is_named : P.uuid_input id ≡ some user.id
    pub user_rows : P.rows users e ≡ filter (λ u. not (u.id == user.id)) (P.rows users d)
    pub others :
        (t : Table)
        → t ≢ users
        → t ≢ events
        → t ≢ outbox
        → cascades users t ≡ false
        → P.rows t e ≡ P.rows t d

  delete_user_body-IsDeleted :
      (audited : Bool) (id : String) (w : World P) {u : World P} {x : Unit {0}}
      → delete_user_body P audited id w ≡ (ok x, u)
      → IsDeleted id w.db u.db
  unfolding delete_user_body get_user_by_id
  delete_user_body-IsDeleted audited id w {u} h = >>=-elim _ _ w h λ user w₁ got r₁.
      >>=-elim _ _ w₁ r₁ λ _ w₂ deleted logged. >>=-elim _ _ w got λ o w₀ asked answered.
        let (found, same₀) = query-ok P _ _ w asked in
        let (is_some, same₁) = or_missing-ok _ o w₀ answered in
        let (there, named) = found_by (P.uuid_input id) w.db user (found ∙ ap done is_some) in
        let (accepted, _) = exec-ok P _ _ w₁ deleted in
        let at_start : w₁.db ≡ w.db = ap (λ v. v.db) (same₁ ∙ same₀) in
        let kept = audit_user-others P audited _ _ _ _ w₂ logged in
        record {
          user = user;
          was_there = there;
          is_named = named;
          user_rows =
              kept users (λ q. cc) (λ q. cc)
              ∙ P.delete_rows users _ w₁.db w₂.db accepted
              ∙ ap (λ d. filter (λ u. not (u.id == user.id)) (P.rows users d)) at_start;
          others = λ t n n₁ n₂ c.
              kept t n₁ n₂
              ∙ P.delete_others users t _ w₁.db w₂.db n c accepted
              ∙ ap (P.rows t) at_start;
        }

  -- When DeleteUser returns, a user had the id and is no longer stored, the other users are, in their
  -- order, and nothing else has changed but the audit trail and the tables whose rows go with the
  -- user's.
  pub delete_user-IsDeleted :
      (audited : Bool) (id : String) (w : World P) {u : World P} {x : Unit {0}}
      → delete_user P audited id w ≡ (ok x, u)
      → IsDeleted id w.db u.db
  unfolding delete_user
  delete_user-IsDeleted audited id w {u} h = transaction-elim P _ w h λ d v begun ran committed.
      let i = delete_user_body-IsDeleted audited id (record w { db = d }) ran in
      record {
        user = i.user;
        was_there = subst (Memᴰ i.user) (begun users) i.was_there;
        is_named = i.is_named;
        user_rows = rw (committed users, ← begun users) i.user_rows;
        others = λ t n n₁ n₂ c. committed t ∙ i.others t n n₁ n₂ c ∙ begun t;
      }
