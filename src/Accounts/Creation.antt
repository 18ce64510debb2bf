-- ===== src/Accounts/Creation.antt =====
-- What a created account is.
use finance_project.Prelude.{
  true, false, [], ◌∷◌, ◌++◌, ◌≡◌, ◌≢◌, refl, sym, ap, ◌∙◌, str_eq, Bool-cases, inl, inr,
  if◌then◌else◌,
}
use finance_project.Models.{nil_uuid, Account, Table, accounts}
use finance_project.Action.{ok}
use finance_project.Platform.{Platform}
use finance_project.Session.{World}
use finance_project.Session.Laws.{create-elim}
use finance_project.Accounts.{is_valid_type, create_account}

module _ (P : Platform) where
  -- Between `d` and `e` the account has been created as requested.
  pub record IsCreated (request account : Account P.Decimal) (d e : P.Db) : Type 0 where
    pub valid_type : is_valid_type P request.account_type ≡ true
    pub named : str_eq request.name "" ≡ false
    pub as_requested : account ≡ record request {
      id = account.id;
      currency = if str_eq request.currency "" then "INR" else request.currency;
    }
    pub id_kept : request.id ≢ nil_uuid → account.id ≡ request.id
    pub identified : account.id ≢ nil_uuid
    pub account_rows :
        P.rows accounts e
        ≡ P.rows accounts d ++ record account { balance = P.round account.balance } ∷ []
    pub others : (t : Table) → t ≢ accounts → P.rows t e ≡ P.rows t d

  -- When CreateAccount returns, the account's type was one of the five and its name not empty; the
  -- account has been added as requested, in INR if no currency was given, under its own id or else
  -- a new one, its balance as the column holds it, and no other table has changed.
  pub create_account-IsCreated :
      (request : Account P.Decimal) (w : World P) {u : World P} {account : Account P.Decimal}
      → create_account P request w ≡ (ok account, u)
      → IsCreated request account w.db u.db
  unfolding create_account
  create_account-IsCreated request w {u} {account} h =
      elim (Bool-cases (is_valid_type P request.account_type)) [
        | inr invalid ↦ cc (ap (λ p. p.0) (rw invalid at h))
        | inl valid ↦ elim (Bool-cases (str_eq request.name "")) [
          | inl unnamed ↦ cc (ap (λ p. p.0) (rw unnamed at (rw valid at h)))
          | inr named ↦
              create-elim P accounts _ request.id _ w (rw named at (rw valid at h))
                λ id is_row identified kept added others. record {
                  valid_type = valid;
                  named = named;
                  as_requested = rw (← is_row) refl;
                  id_kept = λ n. ap (λ a. a.id) (sym is_row) ∙ kept n;
                  identified = rw (← is_row) identified;
                  account_rows = added;
                  others = others;
                }
        ]
      ]
