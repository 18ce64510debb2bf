-- ===== src/Example/AuthTests.antt =====
-- Registrations, a login and a new account on the example platform.
use Prim.Native.String.{◌++◌ as join}
use finance_project.Prelude.{
  String, ℕ, suc, ◌≤◌, ◌⊎◌, ℤ, pos, ◌≡◌, refl, true, String, some, none, none,
}
use finance_project.Models.{User, Account}
use finance_project.Action.{ok, err, ◌>>=◌}
use finance_project.Session.{
  World, exec, query, fresh_uuid, before_create, create, transaction, read_clock,
}
use finance_project.Audit.{build_audit_event, log_event}
use finance_project.Accounts.{create_all, create_default_accounts, create_account}
use finance_project.Accounts.Creation.{IsCreated, create_account-IsCreated}
use finance_project.Auth.{
  AuthService, hash_password, register_body, register, login, admin_not_assignable, bad_credentials,
}
use finance_project.Auth.Registration.{IsGranted, IsRegistered, register-IsRegistered}
use finance_project.Auth.Credentials.{IsLoggedIn, login-IsLoggedIn, login_refusals}
use finance_project.Auth.Grant.{expiry_of, claims_of, login_grants_access}
use finance_project.Text.{split_blank, equal_fold, trim_space, to_lower}
use finance_project.Platform.Reply.{done}
use finance_project.Http.{Context, Payload, Handler, respond, success_response}
use finance_project.Access.{bearer_token, with_claims, auth_middleware}
use finance_project.Example.Web.{request}
use finance_project.Jwt.{generate_token}
use finance_project.Tokens.{generate_secure_token, wrapped, ignored, issue_token_pair}
use finance_project.Example.Machine.{machine}
use finance_project.Example.TokenTests.{ann, service, signed_in}

abbrev auth : AuthService
auth = record { token_service = some service; has_accounts = true; has_audit = true }

abbrev with_bob : World machine
with_bob = (register machine auth "Bob" "b" "secret" "" signed_in).1

abbrev bob : User
bob = record {
  id = 2;
  name = "Bob";
  email = "b";
  password = "secret";
  role = "viewer";
  is_active = true;
}

bob_registers : register machine auth "Bob" "b" "secret" "" signed_in ≡ (ok bob, with_bob)
unfolding register register_body hash_password create_default_accounts create_all build_audit_event
    log_event exec query fresh_uuid before_create create transaction ◌>>=◌
bob_registers = refl

no_admin_registers :
    (register machine auth "Eve" "e" "secret" "admin" signed_in).0 ≡ err admin_not_assignable
unfolding register
no_admin_registers = refl

register-IsRegistered_example :
    (granted : String) × IsGranted machine "" granted
    × IsRegistered machine auth "Bob" "b" "secret" granted bob signed_in.db with_bob.db
register-IsRegistered_example =
    register-IsRegistered machine auth "Bob" "b" "secret" "" signed_in bob_registers

abbrev ann_pair : String × String
ann_pair = elim (login machine auth "a" "" "r" "localhost" signed_in).0 [
  | ok (access, refresh, user) ↦ (access, refresh)
  | _ ↦ ("", "")
]

abbrev with_ann : World machine
with_ann = (login machine auth "a" "" "r" "localhost" signed_in).1

ann_logs_in :
    login machine auth "a" "" "r" "localhost" signed_in
    ≡ (ok (ann_pair.0, ann_pair.1, ann), with_ann)
unfolding login issue_token_pair wrapped generate_secure_token generate_token ignored read_clock
    build_audit_event log_event exec query fresh_uuid before_create create transaction ◌>>=◌
ann_logs_in = refl

login-IsLoggedIn_example : IsLoggedIn machine auth "a" "" ann_pair ann signed_in.db with_ann.db
login-IsLoggedIn_example =
    login-IsLoggedIn machine auth "a" "" "r" "localhost" signed_in ann_logs_in

abbrev savings : Account ℤ
savings = record {
  id = 0;
  user_id = 1;
  name = "Savings";
  account_type = "asset";
  currency = "";
  balance = pos 0;
}

abbrev with_savings : World machine
with_savings = (create_account machine savings signed_in).1

savings_created :
    create_account machine savings signed_in
    ≡ (ok (record savings { id = 1; currency = "INR" }), with_savings)
unfolding create_account exec fresh_uuid before_create create ◌>>=◌
savings_created = refl

create_account-IsCreated_example :
    IsCreated machine savings
      (record savings { id = 1; currency = "INR" })
      signed_in.db
      with_savings.db
create_account-IsCreated_example =
    create_account-IsCreated machine savings signed_in savings_created

-- A request that carries the access token.
abbrev by_ann : Context
by_ann = record (request "GET" "") { get_header = λ name. join "Bearer " ann_pair.0 }

ann_is_carried : bearer_token (by_ann.get_header "Authorization") ≡ ok ann_pair.0
unfolding split_blank equal_fold trim_space to_lower login issue_token_pair wrapped generate_token
    generate_secure_token build_audit_event ignored log_event exec query fresh_uuid before_create
    create transaction read_clock ◌>>=◌
ann_is_carried = refl

abbrev greet : Handler machine
greet c = respond machine (success_response 200 "hello" Payload.no_data)

login_grants_access_example :
    (i : ℕ) × (machine.sign_claims (claims_of machine service ann i) "k" ≡ done ann_pair.0)
    × ((auth_middleware machine "k" greet by_ann with_ann
          ≡ greet
              (with_claims by_ann (claims_of machine service ann i))
              (record with_ann { calls = suc with_ann.calls }))
        ⊎ (expiry_of machine service i ≤ machine.time_now with_ann.calls))
login_grants_access_example =
    login_grants_access machine auth service "a" "" "r" "localhost" signed_in greet by_ann with_ann
      refl ann_logs_in ann_is_carried

login_refusals_example :
    login machine auth "nobody" "" "r" "localhost" signed_in ≡ (err bad_credentials, signed_in)
login_refusals_example =
    login_refusals machine auth "nobody" "" "r" "localhost" signed_in none bad_credentials refl refl
