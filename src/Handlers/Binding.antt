-- ===== src/Handlers/Binding.antt =====
-- What the handlers share: the reading of query parameters, of a body and of the user's id.
use Prim.Native.Char.{len_utf8}
use Prim.Native.String.{String}
use finance_project.Prelude.{
  ℕ, suc, ◌+◌, ℤ, pos, Option, none, some, List, [], ◌∷◌, str_eq, if◌then◌else◌,
}
use finance_project.Models.{Uuid}
use finance_project.Text.{trim_space, atoi}
use finance_project.Action.{Action}
use finance_project.Platform.{Platform}
use finance_project.Platform.Reply.{Reply, done, failed}
use finance_project.Session.{World}
use finance_project.Http.{
  Context, get_string, Payload, Response, error_response, validation_error, respond,
}

-- A query parameter, if it is not empty.
abbrev pub query_value : Context → String → Option String
query_value c name = if str_eq (c.query name) "" then none else some (c.query name)

abbrev pub positive_or : ℤ → Option ℤ → ℤ
positive_or default (some (pos (suc n))) = pos (suc n)
positive_or default _ = default

-- `parsed, err := strconv.Atoi(p); err == nil && parsed > 0`
abbrev pub page_query : Context → String → ℤ → ℤ
page_query c name default = positive_or default (atoi (c.query name))

abbrev pub blank_name : String → String → List String
blank_name name value = if str_eq (trim_space value) "" then name ∷ [] else []

-- `len` of a string: its bytes
abbrev pub byte_length : String → ℕ
byte_length String.[] = 0
byte_length (String.◌∷◌ c s) = len_utf8 c + byte_length s

module _ (P : Platform) where
  -- `ShouldBindJSON` and the answer to a body that it refuses.
  abbrev pub bound :
      {A : Type 0}
      → Reply A
      → (A → Action (World P) (Response P.Decimal))
      → Action (World P) (Response P.Decimal)
  bound (done a) k = k a
  bound (failed cause) k =
      respond P (validation_error "invalid request body" (Payload.detail cause))

  abbrev pub bound_body :
      {A : Type 0}
      → (String → Reply A)
      → Reply String
      → (A → Action (World P) (Response P.Decimal))
      → Action (World P) (Response P.Decimal)
  bound_body bind (done text) k = bound (bind text) k
  bound_body bind (failed cause) k = bound (failed cause) k

  -- The id of the user whom the token names.
  abbrev pub identified :
      Context
      → (Uuid → Action (World P) (Response P.Decimal))
      → Action (World P) (Response P.Decimal)
  identified c k = elim (P.parse_uuid (get_string c.user_id)) [
    | none ↦ respond P (error_response 401 "invalid user identity in token")
    | some id ↦ k id
  ]
