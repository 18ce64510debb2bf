-- ===== src/Accounts/Defaults.antt =====
-- The accounts that are stored for a new user, and what a created account is.
use finance_project.Prelude.{List, [], ◌∷◌, ◌++◌, map, ◌≡◌, ◌≢◌, refl, sym, ap, ◌∙◌}
use mathlib.Core.List.{append-nil, append_assoc}
use finance_project.Models.{Uuid, nil_uuid, Account, Table, accounts}
use finance_project.Action.{ok, >>=-elim, pure-ok}
use finance_project.Platform.{Platform}
use finance_project.Session.{World}
use finance_project.Session.Laws.{create-elim}
use finance_project.Accounts.{default_accounts, create_all, create_default_accounts}

module _ (P : Platform) where
  abbrev pub without_id : Account P.Decimal → Account P.Decimal
  without_id a = record a { id = nil_uuid }

  -- Between `d` and `e` the accounts have been added, with ids of their own.
  pub record AccountsOpened (new : List (Account P.Decimal)) (d e : P.Db) : Type 0 where
    pub opened : List (Account P.Decimal)
    pub as_given :
        map without_id opened
        ≡ map
            (λ (a : Account P.Decimal). record a { id = nil_uuid; balance = P.round a.balance })
            new
    pub account_rows : P.rows accounts e ≡ P.rows accounts d ++ opened
    pub others : (t : Table) → t ≢ accounts → P.rows t e ≡ P.rows t d

  create_all-AccountsOpened :
      (new : List (Account P.Decimal)) (w : World P) {u : World P} {x : Unit {0}}
      → create_all P new w ≡ (ok x, u)
      → AccountsOpened new w.db u.db
  unfolding create_all
  create_all-AccountsOpened [] w h =
      let to_u = (pure-ok h).1 in
      record {
        opened = [];
        as_given = refl;
        account_rows = rw (← to_u) (sym (append-nil _));
        others = λ t n. rw (← to_u) refl;
      }
  create_all-AccountsOpened (a ∷ more) w {u} h = >>=-elim _ _ w h λ row w₁ stored rest.
      create-elim P accounts _ a.id _ w stored λ id is_row _ _ added kept.
        let r = create_all-AccountsOpened more w₁ rest in
        record {
          opened = record row { balance = P.round row.balance } ∷ r.opened;
          as_given = rw (r.as_given, ← is_row) refl;
          account_rows =
              r.account_rows
              ∙ ap (λ rs. rs ++ r.opened) added
              ∙ append_assoc (P.rows accounts w.db)
                  (record row { balance = P.round row.balance } ∷ []) r.opened;
          others = λ t n. r.others t n ∙ kept t n;
        }

  pub create_default_accounts-AccountsOpened :
      (user_id : Uuid) (w : World P) {u : World P} {x : Unit {0}}
      → create_default_accounts P user_id w ≡ (ok x, u)
      → AccountsOpened (default_accounts P user_id) w.db u.db
  unfolding create_default_accounts
  create_default_accounts-AccountsOpened user_id w h =
      create_all-AccountsOpened (default_accounts P user_id) w h
