-- ===== src/Access.antt =====
-- middleware/auth.go and middleware/rbac.go, each as a function from the next handler to a handler,
-- and the id that middleware/request_id.go gives a request.
use Prim.Native.String.{◌++◌ as join}
use finance_project.Prelude.{
  String, Bool, false, not, ◌||◌, Option, none, some, List, [], ◌∷◌, str_eq, if◌then◌else◌,
}
use finance_project.Errors.{other}
use finance_project.Text.{to_lower, trim_space, split_blank, equal_fold}
use finance_project.Action.{Action, Result, ok, err, panic, pure, ◌>>=◌}
use finance_project.Platform.{Platform}
use finance_project.Platform.Runtime.{Claims}
use finance_project.Session.{World, fresh_uuid}
use finance_project.Jwt.{validate_token}
use finance_project.Tokens.{text_of}
use finance_project.Http.{Context, Response, error_response, Handler, respond}

abbrev pub header_missing : String
header_missing = "authorization header is required"

abbrev pub header_malformed : String
header_malformed = "authorization header must be in the format: Bearer <token>"

abbrev pub token_missing : String
token_missing = "token is required"

abbrev pub authentication_required : String
authentication_required = "authentication required"

-- The token of a header "Bearer <token>", or what is wrong with it.
abbrev pub bearer_token : String → Result String
bearer_token header =
    if str_eq header "" then err (other header_missing) else elim (split_blank header) [
      | none ↦ err (other header_malformed)
      | some (scheme, rest) ↦
          if not (equal_fold scheme "Bearer")
          then err (other header_malformed)
          else if str_eq (trim_space rest) ""
          then err (other token_missing)
          else ok (trim_space rest)
    ]

abbrev pub with_claims : Context → Claims → Context
with_claims c claims = record c {
  user_id = some claims.user_id;
  user_email = some claims.email;
  user_role = some claims.role;
}

-- `strings.Join(allowedRoles, ", ")`
abbrev pub join_roles : List String → String
join_roles [] = ""
join_roles (r ∷ []) = r
join_roles (r ∷ rs) = join r (join ", " (join_roles rs))

-- `allowed[strings.ToLower(userRole)]`
abbrev pub is_allowed : List String → String → Bool
is_allowed [] role = false
is_allowed (r ∷ rs) role = str_eq (to_lower (trim_space r)) (to_lower role) || is_allowed rs role

module _ (P : Platform) where
  abbrev pub after_validation :
      Handler P → Context → Result Claims × World P → Result (Response P.Decimal) × World P
  after_validation next c (ok claims, u) = next (with_claims c claims) u
  after_validation next c (err e, u) =
      (ok (error_response 401 (join "invalid or expired token: " (text_of e))), u)
  after_validation next c (panic, u) = (panic, u)

  abbrev pub with_token :
      String → Handler P → Context → Result String → Action (World P) (Response P.Decimal)
  with_token secret next c (ok token) w = after_validation next c (validate_token P token secret w)
  with_token secret next c (err e) w = (ok (error_response 401 (text_of e)), w)
  with_token secret next c panic w = (panic, w)

  unfoldable pub auth_middleware : String → Handler P → Handler P
  auth_middleware secret next c =
      with_token secret next c (bearer_token (c.get_header "Authorization"))

  abbrev denied : List String → Response P.Decimal
  denied roles =
      error_response 403 (join "access denied: requires [" (join (join_roles roles) "] role"))

  abbrev pub check_role :
      List String → Handler P → Context → Option String → Action (World P) (Response P.Decimal)
  check_role roles next c none = respond P (error_response 401 authentication_required)
  check_role roles next c (some role) =
      if str_eq role ""
      then respond P (error_response 401 authentication_required)
      else if not (is_allowed roles role)
      then respond P (denied roles)
      else next c

  unfoldable pub require_role : List String → Handler P → Handler P
  require_role roles next c = check_role roles next c c.user_role

  -- An id that is no uuid is rejected, as an absent one is, and replaced by a new one.
  abbrev pub given_id : String → Option String
  given_id id =
      if str_eq id "" then none else elim (P.parse_uuid id) [ none ↦ none | some _ ↦ some id ]

  abbrev pub id_or_new : Option String → Action (World P) String
  id_or_new (some id) = pure id
  id_or_new none = do id ← fresh_uuid P; pure (P.uuid_string id)
