-- ===== src/Accounts.antt =====
-- services/account_service.go: the accounts that a new user gets, new accounts, and a look-up.
pub mod Defaults
pub mod Creation
use finance_project.Prelude.{
  String, Bool, true, false, not, ◌||◌, Option, none, some, List, [], ◌∷◌, str_eq, ◌==◌,
  if◌then◌else◌,
}
use finance_project.Errors.{validation, not_found}
use finance_project.Models.{
  Uuid, nil_uuid, Account, accounts, account_asset, account_liability, account_equity,
  account_revenue, account_expense,
}
use finance_project.Action.{Action, pure, fail, ◌>>=◌, ◌>>◌}
use finance_project.Platform.{Platform}
use finance_project.Platform.Reply.{Reply, failed}
use finance_project.Session.{World, query, create}

module _ (P : Platform) where
  abbrev pub default_account : Uuid → String → String → Account P.Decimal
  default_account user_id name account_type = record {
    id = nil_uuid;
    user_id = user_id;
    name = name;
    account_type = account_type;
    currency = "INR";
    balance = P.dec_zero;
  }

  abbrev pub default_accounts : Uuid → List (Account P.Decimal)
  default_accounts user_id =
      default_account user_id "Cash" account_asset
      ∷ default_account user_id "Revenue" account_revenue
      ∷ default_account user_id "Expenses" account_expense
      ∷ []

  abbrev pub store_account : String → Account P.Decimal → Action (World P) (Account P.Decimal)
  store_account message a = create P accounts message a.id (λ id. record a { id = id })

  unfoldable pub create_all : List (Account P.Decimal) → Action (World P) (Unit {0})
  create_all [] = pure tt
  create_all (a ∷ more) = do store_account "failed to create default account" a; create_all more

  unfoldable pub create_default_accounts : Uuid → Action (World P) (Unit {0})
  create_default_accounts user_id = create_all (default_accounts user_id)

  abbrev pub is_valid_type : String → Bool
  is_valid_type t =
      str_eq t account_asset
      || (str_eq t account_liability
          || (str_eq t account_equity || (str_eq t account_revenue || str_eq t account_expense)))

  unfoldable pub create_account : Account P.Decimal → Action (World P) (Account P.Decimal)
  create_account a =
      if not (is_valid_type a.account_type)
      then fail (
          validation
            "invalid account type: must be one of asset, liability, equity, revenue, expense")
      else if str_eq a.name ""
      then fail (validation "account name is required")
      else store_account "failed to create account"
          (record a { currency = if str_eq a.currency "" then "INR" else a.currency })

  abbrev pub or_not_found :
      String → Option (Account P.Decimal) → Action (World P) (Account P.Decimal)
  or_not_found id none = fail (not_found "account" id)
  or_not_found id (some a) = pure a

  -- A text that is no uuid makes the statement fail.
  abbrev account_by : Option Uuid → P.Db → Reply (Option (Account P.Decimal))
  account_by (some id) d = P.first accounts (λ a. a.id == id) d
  account_by none d = failed "invalid input syntax for type uuid"

  unfoldable pub get_account_by_id : String → Action (World P) (Account P.Decimal)
  get_account_by_id id = do
    found ← query P "failed to retrieve account" (account_by (P.uuid_input id))
    or_not_found id found

  abbrev owner_condition : Option Uuid → P.Db → Reply (List (Account P.Decimal))
  owner_condition (some id) d = P.select accounts (λ a. a.user_id == id) d
  owner_condition none d = failed "invalid input syntax for type uuid"

  unfoldable pub get_accounts_by_user : String → Action (World P) (List (Account P.Decimal))
  get_accounts_by_user user_id = do
    found ← query P "failed to retrieve accounts" (owner_condition (P.uuid_input user_id))
    pure (P.order_by "name ASC" found)
