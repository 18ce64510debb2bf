-- ===== src/Routes/Access.antt =====
-- What a request can change without the role of an administrator.
use finance_project.Prelude.{
  String, Bool, true, false, not, ◌||◌, List, Option, none, some, ◌≡◌, ◌≢◌, ◌⊎◌, refl, ap, ◌∙◌, inl,
  inr, Bool-cases, str_eq,
}
use finance_project.Models.{Table, IdempotencyKey, keys}
use finance_project.Action.{Result, ok, err, panic}
use finance_project.Platform.{Platform}
use finance_project.Platform.Reply.{Reply, done, failed}
use finance_project.Platform.Runtime.{Claims}
use finance_project.Session.{World, read_clock}
use finance_project.Session.Reads.{Reads}
use finance_project.Session.Keeps.{Keeps, Keeps-then, Keeps-clock, Keeps-attempt}
use finance_project.Jwt.{validate_token, from_reply, check_valid}
use finance_project.Http.{Context, get_string, Response, Handler}
use finance_project.Http.Requests.{Json}
use finance_project.Access.{
  bearer_token, with_claims, is_allowed, auth_middleware, with_token, after_validation, check_role,
  require_role,
}
use finance_project.Idempotency.{
  idempotency_middleware, with_key, looked_up, store_answer, hash_body, is_mutating,
}
use finance_project.Handlers.Reading.{
  handle_get_transactions-Reads, handle_get_accounts-Reads, handle_get_account_entries-Reads,
  handle_get_records-Reads, handle_get_record_by_id-Reads, handle_get_summary-Reads,
  handle_get_trends-Reads, handle_get_category_breakdown-Reads,
}
use finance_project.Routes.{
  GuardedRoute, users_list, user_update, user_delete, records_list, record_create, record_by_id,
  record_update, record_delete, summary_report, trends_report, categories_report, transaction_post,
  transactions_list, accounts_list, account_create, account_entries, audit_list, administrators,
  required_roles, guarded_handler, guarded, under_api, serve_guarded,
}

module _ (P : Platform) where
  check_role_denies :
      (roles : List String) (next : Handler P) (c : Context) (role : Option String)
      → is_allowed roles (get_string role) ≡ false
      → Reads P (check_role P roles next c role)
  check_role_denies roles next c none h w = refl
  check_role_denies roles next c (some role) h w = elim (Bool-cases (str_eq role "")) [
    | inl empty ↦ rw empty refl
    | inr given ↦ rw (given, h) refl
  ]

  check_role-Reads :
      (roles : List String) (next : Handler P) (c : Context) (role : Option String)
      → Reads P (next c)
      → Reads P (check_role P roles next c role)
  check_role-Reads roles next c none reads w = refl
  check_role-Reads roles next c (some role) reads w = elim (Bool-cases (str_eq role "")) [
    | inl empty ↦ rw empty refl
    | inr given ↦ elim (Bool-cases (is_allowed roles role)) [
      | inl allowed ↦ rw (given, allowed) (reads w)
      | inr denied ↦ rw (given, denied) refl
    ]
  ]

  module _ (J : Json P.Decimal) where
    -- A route is the administrators', or its handler reads.
    route_cases :
        (route : GuardedRoute)
        → (required_roles route ≡ administrators)
          ⊎ ((c : Context) → Reads P (guarded_handler P J route c))
    route_cases users_list = inl refl
    route_cases user_update = inl refl
    route_cases user_delete = inl refl
    route_cases records_list = inr (handle_get_records-Reads P J)
    route_cases record_create = inl refl
    route_cases record_by_id = inr (handle_get_record_by_id-Reads P J)
    route_cases record_update = inl refl
    route_cases record_delete = inl refl
    route_cases summary_report = inr (handle_get_summary-Reads P J)
    route_cases trends_report = inr (handle_get_trends-Reads P J)
    route_cases categories_report = inr (handle_get_category_breakdown-Reads P J)
    route_cases transaction_post = inl refl
    route_cases transactions_list = inr (handle_get_transactions-Reads P J)
    route_cases accounts_list = inr (handle_get_accounts-Reads P J)
    route_cases account_create = inl refl
    route_cases account_entries = inr (handle_get_account_entries-Reads P J)
    route_cases audit_list = inl refl

    guarded-Reads :
        (route : GuardedRoute) (c : Context)
        → is_allowed administrators (get_string c.user_role) ≡ false
        → Reads P (guarded P J route c)
    unfolding guarded require_role
    guarded-Reads route c h = elim (route_cases route) [
      | inl admin ↦
          check_role_denies (required_roles route) (guarded_handler P J route) c c.user_role
            (rw admin h)
      | inr reads ↦
          check_role-Reads (required_roles route) (guarded_handler P J route) c c.user_role
            (reads c)
    ]

  module _ (I : P.Db → Type 0) where
    from_reply-Keeps : {A : Type 0} (r : Reply A) → Keeps P I (from_reply P r)
    from_reply-Keeps (done a) w i = i
    from_reply-Keeps (failed c) w i = i

    check_valid-Keeps : (x : Claims × Bool) → Keeps P I (check_valid P x)
    check_valid-Keeps (claims, true) w i = i
    check_valid-Keeps (claims, false) w i = i

    validate_token-Keeps : (token secret : String) → Keeps P I (validate_token P token secret)
    unfolding validate_token
    validate_token-Keeps token secret = elim (Bool-cases (str_eq secret "")) [
      | inl empty ↦ rw empty (λ w i. i)
      | inr given ↦ rw given (
          Keeps-then P I _ _ (Keeps-clock P I)
            λ now. Keeps-then P I _ _ (from_reply-Keeps _) check_valid-Keeps)
    ]

    module _ (J : Json P.Decimal) where
      module _ (next : Handler P) (c : Context)
          (stores : (k : IdempotencyKey) (d e : P.Db) → P.insert keys k d ≡ done e → I d → I e)
          (kept : Keeps P I (next c)) where
        store_answer-Keeps :
            (body : String) (r : Response P.Decimal) → Keeps P I (store_answer P J c body r)
        store_answer-Keeps body r =
            Keeps-then P I _ _ (Keeps-clock P I)
              λ now. Keeps-then P I _ _ (Keeps-attempt P I _ (stores _)) λ _ w i. i

        looked_up-Keeps :
            (body : String) (found : Reply (Option IdempotencyKey))
            → Keeps P I (looked_up P J next c body found)
        looked_up-Keeps body (done (some k)) w i =
            elim (Bool-cases (str_eq k.request_hash (hash_body P J body))) [
              | inl same ↦ rw same i
              | inr differs ↦ rw differs i
            ]
        looked_up-Keeps body (done none) w i =
            Keeps-then P I (next c) _ kept (store_answer-Keeps body) w i
        looked_up-Keeps body (failed cause) w i =
            Keeps-then P I (next c) _ kept (store_answer-Keeps body) w i

        with_key-Keeps : (body : Reply String) → Keeps P I (with_key P J next c body)
        with_key-Keeps (failed cause) w i = i
        with_key-Keeps (done body) w i =
            Keeps-then P I (read_clock P) _ (Keeps-clock P I)
              (λ now u j. looked_up-Keeps body _ u j) w i

        pub idempotency_middleware-Keeps : Keeps P I (idempotency_middleware P J next c)
        unfolding idempotency_middleware
        idempotency_middleware-Keeps =
            elim (Bool-cases
              (not (is_mutating c.method) || str_eq (c.get_header "Idempotency-Key") "")) [
                | inl plain ↦ rw plain kept
                | inr keyed ↦ rw keyed (with_key-Keeps c.body)
              ]

    after_validation-Keeps :
        (next : Handler P) (c : Context) (token secret : String) (w : World P)
        → ((claims : Claims) (u : World P)
            → validate_token P token secret w ≡ (ok claims, u)
            → Keeps P I (next (with_claims c claims)))
        → I w.db
        → I (after_validation P next c (validate_token P token secret w)).1.db
    after_validation-Keeps next c token secret w kept i =
        go (validate_token P token secret w) kept (validate_token-Keeps token secret w i)
      where
        go :
            (x : Result Claims × World P)
            → ((claims : Claims) (u : World P)
                → x ≡ (ok claims, u)
                → Keeps P I (next (with_claims c claims)))
            → I x.1.db
            → I (after_validation P next c x).1.db
        go (ok claims, u) k j = k claims u refl u j
        go (err e, u) k j = j
        go (panic, u) k j = j

module _ (P : Platform) (J : Json P.Decimal) where
  -- No token that the request carries names an administrator.
  abbrev pub NoAdministrator : String → Context → World P → Type 0
  NoAdministrator secret c w =
      (token : String) (claims : Claims) (u : World P)
      → bearer_token (c.get_header "Authorization") ≡ ok token
      → validate_token P token secret w ≡ (ok claims, u)
      → is_allowed administrators claims.role ≡ false

  pub with_token-Keeps :
      (I : P.Db → Type 0) (next : Handler P) (c : Context) (secret : String) (w : World P)
      (x : Result String)
      → ((token : String) (claims : Claims) (u : World P)
          → x ≡ ok token
          → validate_token P token secret w ≡ (ok claims, u)
          → Keeps P I (next (with_claims c claims)))
      → I w.db
      → I (with_token P secret next c x w).1.db
  with_token-Keeps I next c secret w (ok token) kept i =
      after_validation-Keeps P I next c token secret w (λ claims u e. kept token claims u refl e) i
  with_token-Keeps I next c secret w (err e) kept i = i
  with_token-Keeps I next c secret w panic kept i = i

  -- However a request to a guarded route ends, if it carries no valid token of an administrator,
  -- then no table has changed but that of the idempotency keys.
  pub serve_guarded-others :
      (secret : String) (route : GuardedRoute) (c : Context) (w : World P)
      → NoAdministrator secret c w
      → (t : Table) → t ≢ keys
      → P.rows t (serve_guarded P J secret route c w).1.db ≡ P.rows t w.db
  unfolding serve_guarded under_api auth_middleware
  serve_guarded-others secret route c w none_such t n =
      let I = λ (d : P.Db). P.rows t d ≡ P.rows t w.db in
      with_token-Keeps I (idempotency_middleware P J (guarded P J route)) c secret w
        (bearer_token (c.get_header "Authorization"))
        (λ token claims u carried valid.
          idempotency_middleware-Keeps P I J (guarded P J route) (with_claims c claims)
            (λ k d e h i. P.insert_others keys t k d e n h ∙ i)
            (λ v i.
              ap (λ (x : World P). P.rows t x.db)
                (guarded-Reads P J route (with_claims c claims)
                  (none_such token claims u carried valid) v)
              ∙ i))
        refl
