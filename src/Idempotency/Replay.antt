-- ===== src/Idempotency/Replay.antt =====
-- A request that is repeated under its key is answered from the stored answer.
use finance_project.Prelude.{
  suc, ◌<◌, String, true, false, Option, none, some, str_eq, eq_iff, Bool-cases, inl, inr,
  Mem-append_last, ◌≡◌, ◌≢◌, refl, sym, ap, ◌∙◌, subst, arith,
}
use mathlib.Core.List.{Memᴰ}
use finance_project.Models.{IdempotencyKey, keys}
use finance_project.Action.{ok, ◌>>=◌, >>=_of_ok}
use finance_project.Platform.{Platform}
use finance_project.Platform.Reply.{Reply, done}
use finance_project.Session.{World, read_clock, attempt}
use finance_project.Http.{Context, Response, raw, error_response, Handler}
use finance_project.Http.Requests.{Json}
use finance_project.Idempotency.{
  is_mutating, is_live_key, key_reused, looked_up, with_key, store_answer, sent, hash_body, key_row,
  idempotency_middleware,
}

-- A request that may be replayed: it changes something, and has a key and a body.
pub record IsKeyed (c : Context) (body : String) : Type 0 where
  pub mutating : is_mutating c.method ≡ true
  pub has_key : str_eq (c.get_header "Idempotency-Key") "" ≡ false
  pub has_body : c.body ≡ done body

str_ne : {a b : String} → a ≢ b → str_eq a b ≡ false
str_ne {a} {b} other = elim (Bool-cases (str_eq a b)) [
  | inl same ↦ absurd (other ((eq_iff a b).0 same))
  | inr differ ↦ differ
]

module _ (P : Platform) (J : Json P.Decimal) where
  -- The middleware's lookup for a request at a state.
  abbrev pub lookup_key : Context → World P → Reply (Option IdempotencyKey)
  lookup_key c w =
      P.first keys (is_live_key (c.get_header "Idempotency-Key") (P.time_now w.calls)) w.db

  keyed_request :
      (next : Handler P) (c : Context) (body : String) (w : World P)
      → IsKeyed c body
      → idempotency_middleware P J next c w
        ≡ looked_up P J next c body (lookup_key c w) (record w { calls = suc w.calls })
  unfolding idempotency_middleware ◌>>=◌ read_clock
  keyed_request next c body w keyed =
      rw (keyed.mutating, keyed.has_key) (ap (λ b. with_key P J next c b w) keyed.has_body)

  -- A request whose key the lookup finds is answered from what is stored.
  found_request :
      (next : Handler P) (c : Context) (body : String) (k : IdempotencyKey) (w : World P)
      → IsKeyed c body
      → lookup_key c w ≡ done (some k)
      → (k.request_hash ≡ hash_body P J body
          → idempotency_middleware P J next c w
            ≡ (ok (raw k.response_code k.response_body), record w { calls = suc w.calls }))
        × (k.request_hash ≢ hash_body P J body
            → idempotency_middleware P J next c w
              ≡ (ok (error_response 422 key_reused), record w { calls = suc w.calls }))
  found_request next c body k w keyed found = (
    λ same. keyed_request next c body w keyed ∙ rw (found, (eq_iff k.request_hash _).1 same) refl,
    λ other. keyed_request next c body w keyed ∙ rw (found, str_ne other) refl,
  )

  -- The row that a first answer is stored as.
  abbrev pub stored_row : Context → String → Response P.Decimal → World P → IdempotencyKey
  stored_row c body r u = key_row P J c body (sent P J r) (P.time_now u.calls)

  store_answer-ok :
      (c : Context) (body : String) (r : Response P.Decimal) (u : World P) (d : P.Db)
      → P.insert keys (stored_row c body r u) u.db ≡ done d
      → store_answer P J c body r u ≡ (ok r, record { db = d; calls = suc u.calls })
  unfolding ◌>>=◌ read_clock attempt
  store_answer-ok c body r u d stored = rw (stored, attempt) refl

  -- A request under a new key is handled, and its answer stored.
  first_request :
      (next : Handler P) (c : Context) (body : String) (r : Response P.Decimal) (w u : World P)
      (d : P.Db)
      → IsKeyed c body
      → lookup_key c w ≡ done none
      → next c (record w { calls = suc w.calls }) ≡ (ok r, u)
      → P.insert keys (stored_row c body r u) u.db ≡ done d
      → idempotency_middleware P J next c w ≡ (ok r, record { db = d; calls = suc u.calls })
  first_request next c body r w u d keyed new handled stored =
      keyed_request next c body w keyed
      ∙ ap (λ x. looked_up P J next c body x (record w { calls = suc w.calls })) new
      ∙ >>=_of_ok (next c) (store_answer P J c body) _ handled
      ∙ store_answer-ok c body r u d stored

  -- A lookup that the database answers finds the row that is stored under the key.
  lookup_key-stored :
      (c : Context) (k : IdempotencyKey) (v : World P) (o : Option IdempotencyKey)
      → Memᴰ k (P.rows keys v.db)
      → k.key ≡ c.get_header "Idempotency-Key"
      → P.time_now v.calls < k.expires_at
      → lookup_key c v ≡ done o
      → o ≡ some k
  lookup_key-stored c k v none there named live found =
      let missed = P.first_none keys _ v.db found k there refl in
      absurd (ground (arith, missed, (eq_iff k.key (c.get_header "Idempotency-Key")).1 named, live))
  lookup_key-stored c k v (some j) there named live found =
      let (also, _, hit) = P.first_some keys _ v.db j found in
      let same : str_eq j.key (c.get_header "Idempotency-Key") ≡ true = ground (arith, hit) in
      ap some (P.keys_distinct v.db j k also there ((eq_iff _ _).0 same ∙ sym named))

  -- A request under a key that finds no live row is handled, with its answer stored if the database
  -- accepts the row. While that row is in the table and has not expired, the same request under the
  -- same key changes nothing and is answered with the same status and text, if the database answers
  -- the lookup: the handlers run once.
  pub idempotency_middleware-retry :
      (next again : Handler P) (c : Context) (body : String) (r : Response P.Decimal)
      (w u v : World P) (d : P.Db) (o : Option IdempotencyKey)
      → IsKeyed c body
      → lookup_key c w ≡ done none
      → next c (record w { calls = suc w.calls }) ≡ (ok r, u)
      → P.insert keys (stored_row c body r u) u.db ≡ done d
      → ((k : IdempotencyKey) → Memᴰ k (P.rows keys d) → Memᴰ k (P.rows keys v.db))
      → P.time_now v.calls < (stored_row c body r u).expires_at
      → lookup_key c v ≡ done o
      → (idempotency_middleware P J next c w ≡ (ok r, record { db = d; calls = suc u.calls }))
        × (idempotency_middleware P J again c v
            ≡ (ok (raw (sent P J r).0 (sent P J r).1), record v { calls = suc v.calls }))
  idempotency_middleware-retry next again c body r w u v d o keyed new handled stored kept live
        found =
      let row = stored_row c body r u in
      let there : Memᴰ row (P.rows keys d) =
        subst (Memᴰ row) (sym (P.insert_rows keys row u.db d stored))
          (Mem-append_last (P.rows keys u.db) row) in
      let hit = lookup_key-stored c row v o (kept row there) refl live found in
      (
        first_request next c body r w u d keyed new handled stored,
        (found_request again c body row v keyed (found ∙ ap done hit)).0 refl,
      )

  -- A request whose key is stored and has not expired is not handled, if the database answers the
  -- lookup: whatever the handlers behind the middleware are, whoever sent the request and whatever it
  -- is addressed to, the answer is the stored one if the body has the stored hash, and else 422, and
  -- the database stays as it is.
  pub idempotency_middleware-replay :
      (next : Handler P) (c : Context) (body : String) (k : IdempotencyKey) (w : World P)
      (o : Option IdempotencyKey)
      → IsKeyed c body
      → Memᴰ k (P.rows keys w.db)
      → k.key ≡ c.get_header "Idempotency-Key"
      → P.time_now w.calls < k.expires_at
      → lookup_key c w ≡ done o
      → (k.request_hash ≡ hash_body P J body
          → idempotency_middleware P J next c w
            ≡ (ok (raw k.response_code k.response_body), record w { calls = suc w.calls }))
        × (k.request_hash ≢ hash_body P J body
            → idempotency_middleware P J next c w
              ≡ (ok (error_response 422 key_reused), record w { calls = suc w.calls }))
  idempotency_middleware-replay next c body k w o keyed there named live found =
      found_request next c body k w keyed
        (found ∙ ap done (lookup_key-stored c k w o there named live found))
