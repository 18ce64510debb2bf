-- ===== src/Auth/Grant.antt =====
-- The access token that a login returns is what the middleware of the routes asks for.
use finance_project.Prelude.{
  ℕ, suc, ◌+◌, ◌*◌, ◌≤◌, ◌<◌, ltb, String, some, ◌≡◌, ◌⊎◌, refl, subst, arith, inl, inr, Bool-cases,
}
use finance_project.Models.{User}
use finance_project.Action.{ok, ◌>>=◌}
use finance_project.Platform.{Platform}
use finance_project.Platform.Reply.{done}
use finance_project.Platform.Runtime.{Claims}
use finance_project.Session.{World, read_clock}
use finance_project.Jwt.{jwt_issuer, jwt_audience, signing_key, validate_token}
use finance_project.Tokens.{TokenService, or_default, minute}
use finance_project.Tokens.Issue.{IsIssued}
use finance_project.Auth.{AuthService, login}
use finance_project.Auth.Credentials.{login-IsLoggedIn}
use finance_project.Http.{Context, Handler}
use finance_project.Access.{bearer_token, auth_middleware}

module _ (P : Platform) where
  -- When a token that was signed at the reading `i` of the clock expires.
  abbrev pub expiry_of : TokenService → ℕ → ℕ
  expiry_of s i = P.numeric_date (P.time_now i + or_default s.access_token_expiry_mins 15 * minute)

  -- The claims of the user in such a token.
  abbrev pub claims_of : TokenService → User → ℕ → Claims
  claims_of s user i = record {
    user_id = P.uuid_string user.id;
    email = user.email;
    role = user.role;
    issuer = jwt_issuer;
    audience = jwt_audience;
    issued_at = P.numeric_date (P.time_now i);
    expires_at = expiry_of s i;
  }

  issued_is_valid :
      (s : TokenService) (user : User) (pair : String × String) (d e : P.Db) (v : World P)
      (issued : IsIssued P s user pair d e)
      → P.time_now v.calls < expiry_of s issued.signed_at
      → validate_token P pair.0 s.jwt_secret v
        ≡ (ok (claims_of s user issued.signed_at), record v { calls = suc v.calls })
  unfolding validate_token read_clock ◌>>=◌
  issued_is_valid s user pair d e v issued live =
      let parsed =
        P.parse_claims-sign_claims (claims_of s user issued.signed_at) s.jwt_secret pair.0
          (signing_key s.jwt_secret) (P.time_now v.calls) (P.numeric_date_idempotent _)
          (P.numeric_date_idempotent _) issued.signed refl live in
      rw (issued.has_secret, parsed) refl

  -- The access token of a login is signed for that user at a reading of the clock; and a request that
  -- carries it is let through to the handler as that user, in the user's role at the login, whatever
  -- the state of the database is by then, unless the expiry of the token has been reached.
  pub login_grants_access :
      (s : AuthService) (service : TokenService) (email password request_id ip_address : String)
      (w : World P) {u : World P} {access refresh : String} {user : User} (next : Handler P)
      (c : Context) (v : World P)
      → s.token_service ≡ some service
      → login P s email password request_id ip_address w ≡ (ok (access, refresh, user), u)
      → bearer_token (c.get_header "Authorization") ≡ ok access
      → (i : ℕ) × (P.sign_claims (claims_of service user i) service.jwt_secret ≡ done access)
        × ((auth_middleware P service.jwt_secret next c v
              ≡ next
                  (record c {
                    user_id = some (P.uuid_string user.id);
                    user_email = some user.email;
                    user_role = some user.role;
                  })
                  (record v { calls = suc v.calls }))
            ⊎ (expiry_of service i ≤ P.time_now v.calls))
  unfolding auth_middleware
  login_grants_access s service email password request_id ip_address w {u} {access} {refresh} {user}
        next c v given h carried =
      let l = login-IsLoggedIn P s email password request_id ip_address w h in
      let same : l.service ≡ service = cc (l.configured, given) in
      let issued : IsIssued P service user (access, refresh) w.db l.issued_db =
        subst (λ x. IsIssued P x user (access, refresh) w.db l.issued_db) same l.issued in
      (
        issued.signed_at,
        issued.signed,
        elim (Bool-cases (ltb (P.time_now v.calls) (expiry_of service issued.signed_at))) [
          | inl live ↦ inl (
              rw
                (
                  carried,
                  issued_is_valid service user (access, refresh) w.db l.issued_db v issued
                      (ground (arith, live)),
                )
                refl)
          | inr late ↦ inr (ground (arith, late))
        ],
      )
