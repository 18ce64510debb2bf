-- ===== src/Idempotency.antt =====
-- middleware/idempotency.go, with the hook of models/idempotency_key.go: the answer to a request that
-- changes something is stored under the key that the client gave it.
pub mod Replay
use finance_project.Prelude.{
  ℕ, ◌+◌, ◌*◌, String, Bool, true, false, not, ◌&&◌, ◌||◌, Option, none, some, ltb, str_eq, ◌==◌,
  if◌then◌else◌,
}
use finance_project.Models.{Uuid, nil_uuid, IdempotencyKey, keys}
use finance_project.Action.{Action, Result, ok, err, panic, ◌>>=◌, ◌>>◌}
use finance_project.Platform.{Platform}
use finance_project.Platform.Reply.{Reply, done, failed}
use finance_project.Session.{World, read_clock, attempt}
use finance_project.Tokens.{minute}
use finance_project.Http.{
  Context, get_string, Response, json, raw, error_response, Handler, respond,
}
use finance_project.Http.Requests.{Json}

abbrev pub is_mutating : String → Bool
is_mutating method = str_eq method "POST" || (str_eq method "PUT" || str_eq method "DELETE")

abbrev pub key_reused : String
key_reused = "idempotency key already used with a different request body"

abbrev pub is_live_key : String → ℕ → IdempotencyKey → Bool
is_live_key key now k = str_eq k.key key && ltb now k.expires_at

module _ (P : Platform) (J : Json P.Decimal) where
  -- The status and the text of a response, which the writer captures.
  abbrev pub sent : Response P.Decimal → ℕ × String
  sent (json status answer) = (status, J.render answer)
  sent (raw status text) = (status, text)

  abbrev pub hash_body : String → String
  hash_body body = P.hex_encode (P.sha256_sum body)

  -- The hook sets the expiry of a new row, whose user is nil if the token names none.
  abbrev pub key_owner : String → Uuid
  key_owner user_id =
      if str_eq user_id ""
      then nil_uuid
      else elim (P.parse_uuid user_id) [ none ↦ nil_uuid | some id ↦ id ]

  abbrev pub key_row : Context → String → ℕ × String → ℕ → IdempotencyKey
  key_row c body (status, text) now = record {
    key = c.get_header "Idempotency-Key";
    user_id = key_owner (get_string c.user_id);
    request_hash = hash_body body;
    response_code = status;
    response_body = text;
    expires_at = now + 24 * (60 * minute);
  }

  -- The answer goes out whether or not it can be stored.
  abbrev pub store_answer :
      Context → String → Response P.Decimal → Action (World P) (Response P.Decimal)
  store_answer c body r = do
    now ← read_clock P
    attempt P (P.insert keys (key_row c body (sent r) now))
    respond P r

  -- A lookup that fails counts as one that finds nothing.
  abbrev pub looked_up :
      Handler P
      → Context
      → String
      → Reply (Option IdempotencyKey)
      → Action (World P) (Response P.Decimal)
  looked_up next c body (done (some k)) =
      if str_eq k.request_hash (hash_body body)
      then respond P (raw k.response_code k.response_body)
      else respond P (error_response 422 key_reused)
  looked_up next c body (done none) = next c >>= store_answer c body
  looked_up next c body (failed cause) = next c >>= store_answer c body

  abbrev pub with_key : Handler P → Context → Reply String → Action (World P) (Response P.Decimal)
  with_key next c (failed cause) = respond P (error_response 400 "failed to read request body")
  with_key next c (done body) = do
    now ← read_clock P
    λ w.
        looked_up next c body (P.first keys (is_live_key (c.get_header "Idempotency-Key") now) w.db)
          w

  unfoldable pub idempotency_middleware : Handler P → Handler P
  idempotency_middleware next c =
      if not (is_mutating c.method) || str_eq (c.get_header "Idempotency-Key") ""
      then next c
      else with_key next c c.body
