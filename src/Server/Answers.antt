-- ===== src/Server/Answers.antt =====
-- Every request is answered: no error of a service leaves a handler, and a panic is caught.
pub mod Handlers
pub mod Routes
use finance_project.Prelude.{
  ℕ, Bool, true, false, not, Option, none, some, String, List, [], ◌∷◌, ◌≡◌, ◌≢◌, refl, sym, ap,
  inl, inr, str_eq, ltb, if◌then◌else◌, Bool-cases, Option-cases, ◌&&◌, ◌||◌,
}
use finance_project.Errors.{GoError}
use finance_project.Models.{Uuid, LedgerEntry, IdempotencyKey, keys, Account}
use finance_project.Action.{Action, Result, ok, err, panic, ◌>>=◌, resume}
use finance_project.Platform.{Platform}
use finance_project.Platform.Reply.{Reply, done, failed}
use finance_project.Platform.Runtime.{Claims}
use finance_project.Session.{World, read_clock, attempt}
use finance_project.Session.Laws.{Reply-cases}
use finance_project.Jwt.{validate_token}
use finance_project.Tokens.{TokenService}
use finance_project.Access.{
  after_validation, with_token, auth_middleware, check_role, require_role, bearer_token, is_allowed,
  id_or_new, given_id,
}
use finance_project.Http.{Context, Response, get_string, Handler, serve, answer}
use finance_project.Http.Requests.{Json}
use finance_project.Idempotency.{
  idempotency_middleware, with_key, looked_up, store_answer, hash_body, is_mutating, is_live_key,
}
use finance_project.RateLimiter.{Limiters, rate_limiter}

module _ {S : Type 0} where
  -- An action that returns or panics.
  abbrev pub IsAnswer : {A : Type 0} → Action S A → Type 0
  IsAnswer m = (s : S) (e : GoError) → (m s).0 ≢ err e

  pub IsAnswer-bind :
      {A B : Type 0} (m : Action S A) (f : A → Action S B)
      → IsAnswer m
      → ((a : A) → IsAnswer (f a))
      → IsAnswer (m >>= f)
  unfolding ◌>>=◌
  IsAnswer-bind {A} {B} m f first second s e = go (m s) (first s)
    where
      go : (x : Result A × S) → ((c : GoError) → x.0 ≢ err c) → (resume x.0 f x.1).0 ≢ err e
      go (ok a, u) n = second a u e
      go (err c, u) n = λ h. n c refl
      go (panic, u) n = λ h. cc

  pub IsAnswer-if :
      {A : Type 0} (b : Bool) (m n : Action S A)
      → IsAnswer m
      → IsAnswer n
      → IsAnswer (if b then m else n)
  IsAnswer-if true m n first second = first
  IsAnswer-if false m n first second = second

  pub IsAnswer-pure : {A : Type 0} (a : A) → IsAnswer {A = A} (λ s. (ok a, s))
  IsAnswer-pure a s e h = cc

module _ (P : Platform) where
  pub serve-IsAnswer :
      {A : Type 0} (m : Action (World P) A) (f : A → Response P.Decimal) → IsAnswer (serve P m f)
  unfolding serve
  serve-IsAnswer {A} m f w e = go (m w)
    where
      go : (x : Result A × World P) → (answer P f x).0 ≢ err e
      go (ok a, u) = λ h. cc
      go (err c, u) = λ h. cc
      go (panic, u) = λ h. cc

  pub clock-IsAnswer : IsAnswer (read_clock P)
  unfolding read_clock
  clock-IsAnswer w e h = cc

  attempt-IsAnswer : (f : P.Db → Reply P.Db) → IsAnswer (attempt P f)
  unfolding attempt
  attempt-IsAnswer f w e = elim (Reply-cases (f w.db)) [
    | inl (d, h) ↦ rw (h, attempt) (λ q. cc)
    | inr (c, h) ↦ rw (h, attempt) (λ q. cc)
  ]

  pub check_role-IsAnswer :
      (roles : List String) (next : Handler P) (c : Context) (role : Option String)
      → IsAnswer (next c)
      → IsAnswer (check_role P roles next c role)
  check_role-IsAnswer roles next c none h = IsAnswer-pure _
  check_role-IsAnswer roles next c (some role) h =
      IsAnswer-if (str_eq role "") _ _ (IsAnswer-pure _)
        (IsAnswer-if (not (is_allowed roles role)) _ _ (IsAnswer-pure _) h)

  after_validation-IsAnswer :
      (next : Handler P) (c : Context) (x : Result Claims × World P) (e : GoError)
      → ((c : Context) → IsAnswer (next c))
      → (after_validation P next c x).0 ≢ err e
  after_validation-IsAnswer next c (ok claims, u) e h = h _ u e
  after_validation-IsAnswer next c (err f, u) e h = λ q. cc
  after_validation-IsAnswer next c (panic, u) e h = λ q. cc

  pub with_token-IsAnswer :
      (secret : String) (next : Handler P) (c : Context) (token : Result String)
      → ((c : Context) → IsAnswer (next c))
      → IsAnswer (with_token P secret next c token)
  with_token-IsAnswer secret next c (ok token) h w e =
      after_validation-IsAnswer next c (validate_token P token secret w) e h
  with_token-IsAnswer secret next c (err f) h w e = λ q. cc
  with_token-IsAnswer secret next c panic h w e = λ q. cc

  module _ (J : Json P.Decimal) (next : Handler P) (c : Context) (h : IsAnswer (next c)) where
    store_answer-IsAnswer :
        (body : String) (r : Response P.Decimal) → IsAnswer (store_answer P J c body r)
    store_answer-IsAnswer body r =
        IsAnswer-bind _ _ clock-IsAnswer
          λ now. IsAnswer-bind _ _ (attempt-IsAnswer _) λ _. IsAnswer-pure r

    looked_up-IsAnswer :
        (body : String) (found : Reply (Option IdempotencyKey))
        → IsAnswer (looked_up P J next c body found)
    looked_up-IsAnswer body (done (some k)) =
        IsAnswer-if (str_eq k.request_hash (hash_body P J body)) _ _ (IsAnswer-pure _)
          (IsAnswer-pure _)
    looked_up-IsAnswer body (done none) = IsAnswer-bind (next c) _ h (store_answer-IsAnswer body)
    looked_up-IsAnswer body (failed cause) = IsAnswer-bind (next c) _ h (store_answer-IsAnswer body)

    with_key-IsAnswer : (body : Reply String) → IsAnswer (with_key P J next c body)
    with_key-IsAnswer (failed cause) = IsAnswer-pure _
    with_key-IsAnswer (done body) =
        IsAnswer-bind (read_clock P) _ clock-IsAnswer λ now u. looked_up-IsAnswer body _ u

    pub idempotency_middleware-IsAnswer : IsAnswer (idempotency_middleware P J next c)
    unfolding idempotency_middleware
    idempotency_middleware-IsAnswer =
        IsAnswer-if (not (is_mutating c.method) || str_eq (c.get_header "Idempotency-Key") "") _ _ h
          (with_key-IsAnswer c.body)
