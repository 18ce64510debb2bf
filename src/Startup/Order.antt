-- ===== src/Startup/Order.antt =====
-- What has happened when the program serves, and what never happens in production.
use finance_project.Prelude.{
  String, Bool, true, false, Option, none, some, List, [], ◌∷◌, ◌++◌, All, ◌*◌, ◌≡◌, ◌≢◌, refl, sym,
  ap, ◌∙◌, inl, inr, str_eq, eq_iff, Option-cases, if◌then◌else◌,
}
use mathlib.Core.List.{append-nil, append_assoc}
use finance_project.Errors.{GoError}
use finance_project.Text.{atoi}
use finance_project.Action.{
  Action, Result, ok, err, panic, pure, ◌>>=◌, resume, >>=-elim, pure-ok, refuse_if, refuse_if-ok,
}
use finance_project.Platform.Reply.{Reply, done, failed}
use finance_project.Tokens.{minute}
use finance_project.Config.{Environment, get_env, Config, config_of, load, dsn}
use finance_project.Startup.{
  Effect, opened, pool_configured, migrated, publisher_started, listening, Surroundings, second,
  emit, must, loaded, connect_db, auto_migrate, migrates, migrate_if_due, address, launch, start_up,
  launch_unless, routes_service,
}

-- The settings that a loaded configuration takes from the environment as they are.
load-settings :
    (env : Environment) {c : Config}
    → load env ≡ some c
    → (c.jwt_secret ≡ get_env env "JWT_SECRET" "")
      × (c.app_env ≡ get_env env "APP_ENV" "development")
unfolding load
load-settings env {c} h = elim (Option-cases (atoi (get_env env "JWT_EXPIRY_HOURS" "24"))) [
  | inl wrong ↦ cc (sym (rw (wrong, load) at h))
  | inr (hours, right) ↦
      let e : ◌≡◌ {A = Option Config} (some (config_of env hours)) (some c) =
        rw (right, load) at h in
      let same : config_of env hours ≡ c = cc in
      (ap (λ (x : Config). x.jwt_secret) (sym same), ap (λ (x : Config). x.app_env) (sym same))
]

loaded-some :
    (o : Option Config) (t : List Effect) {c : Config} {u : List Effect}
    → loaded o t ≡ (ok c, u)
    → (o ≡ some c) × (t ≡ u)
loaded-some none t h = cc (ap (λ p. p.0) h)
loaded-some (some c) t h = (ap some (pure-ok h).0, (pure-ok h).1)

must-ok :
    (message : String) (r : Reply (Unit {0})) (t : List Effect) {u : List Effect} {x : Unit {0}}
    → must message r t ≡ (ok x, u)
    → t ≡ u
must-ok message (done _) t h = (pure-ok h).1
must-ok message (failed cause) t h = cc (ap (λ p. p.0) h)

module _ (M : Surroundings) where
  launch_unless-some :
      (flag : Bool) (c : Config) (t : List Effect) {a : String} {u : List Effect}
      → launch_unless M flag c t ≡ (ok (some a), u)
      → (flag ≡ false)
        × (a ≡ address M c)
        × (u ≡ (t ++ publisher_started (5 * second) ∷ []) ++ listening (address M c) ∷ [])
  unfolding launch ◌>>=◌
  launch_unless-some true c t h = cc (ap (λ (p : Result (Option String) × List Effect). p.0) h)
  launch_unless-some false c t h = (refl, cc (pure-ok h).0, sym (pure-ok h).1)

  -- What the migration adds to the effects.
  abbrev pub migration : Bool → Config → List Effect
  migration flag c = if migrates M flag c then migrated ∷ [] else []

  connect_db-ok :
      (c : Config) (t : List Effect) {u : List Effect} {x : Unit {0}}
      → connect_db M c t ≡ (ok x, u)
      → u ≡ (t ++ opened (dsn c) ∷ []) ++ pool_configured 25 10 (5 * minute) ∷ []
  unfolding connect_db
  connect_db-ok c t h = >>=-elim _ _ t h λ _ t₁ h₁ r₁. >>=-elim _ _ t₁ r₁ λ _ t₂ h₂ r₂.
      >>=-elim _ _ t₂ r₂ λ _ t₃ h₃ r₃.
        let e₁ = must-ok _ _ t h₁ in
        let e₂ : t₁ ++ opened (dsn c) ∷ [] ≡ t₂ = (pure-ok h₂).1 in
        let e₃ = must-ok _ _ t₂ h₃ in
        let e₄ : t₃ ++ pool_configured 25 10 (5 * minute) ∷ [] ≡ _ = (pure-ok r₃).1 in
        sym e₄
        ∙ ap (λ s. s ++ pool_configured 25 10 (5 * minute) ∷ [])
            (sym e₃ ∙ sym e₂ ∙ ap (λ s. s ++ opened (dsn c) ∷ []) (sym e₁))

  migrate_if_due-ok :
      (flag : Bool) (c : Config) (t : List Effect) {u : List Effect} {x : Unit {0}}
      → migrate_if_due M flag c t ≡ (ok x, u)
      → u ≡ t ++ migration flag c
  unfolding auto_migrate
  migrate_if_due-ok flag c t {u} {x} = go (migrates M flag c)
    where
      go :
          (b : Bool)
          → (if b then auto_migrate M else pure tt) t ≡ (ok x, u)
          → u ≡ t ++ (if b then migrated ∷ [] else [])
      go true h =
          >>=-elim _ _ t h
            λ _ t₁ h₁ r₁. sym (pure-ok r₁).1 ∙ ap (λ s. s ++ migrated ∷ []) (sym (must-ok _ _ t h₁))
      go false h = sym (pure-ok h).1 ∙ sym (append-nil t)

  -- The program serves at an address after these effects.
  pub record IsStarted (flag : Bool) (where_served : String) (trace : List Effect) : Type 0 where
    pub config : Config
    pub is_loaded : load M.env ≡ some config
    pub unflagged : flag ≡ false
    pub has_secret : (routes_service M).jwt_secret ≢ ""
    pub at_address : where_served ≡ address M config
    pub effects :
        trace
        ≡ opened (dsn config)
          ∷ pool_configured 25 10 (5 * minute)
          ∷ (migration false config
              ++ publisher_started (5 * second) ∷ listening (address M config) ∷ [])

  -- When the program serves requests, it was not asked to migrate only; it has connected to the
  -- configured database, has migrated it unless this is production, and has then started the
  -- publisher and the server, in this order; and the secret with which its routes sign and check
  -- tokens is not empty.
  pub start_up-IsStarted :
      (flag : Bool) {where_served : String} {trace : List Effect}
      → start_up M flag [] ≡ (ok (some where_served), trace)
      → IsStarted flag where_served trace
  unfolding start_up
  start_up-IsStarted flag {where_served} {trace} h = >>=-elim _ _ [] h λ c t₁ h₁ r₁.
      >>=-elim _ _ t₁ r₁ λ _ t₂ h₂ r₂. >>=-elim _ _ t₂ r₂ λ _ t₃ h₃ r₃.
        >>=-elim _ _ t₃ r₃ λ _ t₄ h₄ r₄.
          let (is_loaded, e₁) = loaded-some _ [] h₁ in
          let (given, e₂) = refuse_if-ok (str_eq c.jwt_secret "") _ t₁ h₂ in
          let e₃ = connect_db-ok c t₂ h₃ in
          let e₄ = migrate_if_due-ok flag c t₃ h₄ in
          let (unflagged, at_address, e₅) = launch_unless-some flag c t₄ r₄ in
          record {
            config = c;
            is_loaded = is_loaded;
            unflagged = unflagged;
            has_secret =
                λ e. cc (given, (eq_iff c.jwt_secret "").1 ((load-settings M.env is_loaded).0 ∙ e));
            at_address = at_address;
            effects =
                e₅
                ∙ ap
                    (λ s.
                      (s ++ publisher_started (5 * second) ∷ []) ++ listening (address M c) ∷ [])
                    (e₄
                      ∙ ap (λ s. s ++ migration flag c) e₃
                      ∙ ap
                          (λ s.
                            ((s ++ opened (dsn c) ∷ []) ++ pool_configured 25 10 (5 * minute) ∷ [])
                            ++ migration flag c)
                          (sym (e₁ ∙ e₂))
                      ∙ ap
                          (λ f. opened (dsn c) ∷ pool_configured 25 10 (5 * minute) ∷ migration f c)
                          unflagged)
                ∙ ap (λ s. opened (dsn c) ∷ pool_configured 25 10 (5 * minute) ∷ s)
                    (append_assoc (migration false c) _ _);
          }

  -- An action under which no migration happens.
  abbrev Unmigrated : {A : Type 0} → Action (List Effect) A → Type 0
  Unmigrated m = (t : List Effect) → All (λ x. x ≢ migrated) t → All (λ x. x ≢ migrated) (m t).1

  Unmigrated-bind :
      {A B : Type 0} (m : Action (List Effect) A) (f : A → Action (List Effect) B)
      → Unmigrated m
      → ((a : A) (t u : List Effect) → m t ≡ (ok a, u) → Unmigrated (f a))
      → Unmigrated (m >>= f)
  unfolding ◌>>=◌
  Unmigrated-bind {A} {B} m f first next t i = go (m t) refl (first t i)
    where
      go :
          (x : Result A × List Effect)
          → m t ≡ x
          → All (λ x. x ≢ migrated) x.1
          → All (λ x. x ≢ migrated) (resume x.0 f x.1).1
      go (ok a, u) e j = next a t u e u j
      go (err c, u) e j = j
      go (panic, u) e j = j

  emit-Unmigrated : (x : Effect) → x ≢ migrated → Unmigrated (emit x)
  emit-Unmigrated x n [] i = (n, tt)
  emit-Unmigrated x n (y ∷ t) (m, i) = (m, emit-Unmigrated x n t i)

  must-Unmigrated : (message : String) (r : Reply (Unit {0})) → Unmigrated (must message r)
  must-Unmigrated message (done _) t i = i
  must-Unmigrated message (failed cause) t i = i

  loaded-Unmigrated : (o : Option Config) → Unmigrated (loaded o)
  loaded-Unmigrated none t i = i
  loaded-Unmigrated (some c) t i = i

  refuse-Unmigrated : (b : Bool) (e : GoError) → Unmigrated (refuse_if b e)
  refuse-Unmigrated true e t i = i
  refuse-Unmigrated false e t i = i

  connected : (c : Config) → Unmigrated (connect_db M c)
  unfolding connect_db
  connected c = Unmigrated-bind _ _ (must-Unmigrated _ _) λ _ _ _ _.
      Unmigrated-bind _ _ (emit-Unmigrated _ (λ q. cc))
        λ _ _ _ _. Unmigrated-bind _ _ (must-Unmigrated _ _) λ _ _ _ _. emit-Unmigrated _ (λ q. cc)

  launched : (c : Config) → Unmigrated (launch M c)
  unfolding launch
  launched c =
      Unmigrated-bind _ _ (emit-Unmigrated _ (λ q. cc))
        λ _ _ _ _. Unmigrated-bind _ _ (emit-Unmigrated _ (λ q. cc)) λ _ _ _ _ t i. i

  -- In production, a start that is not asked to migrate does not touch the schema, whether it ends in
  -- a served address or in an error.
  pub start_up_in_production :
      get_env M.env "APP_ENV" "development" ≡ "production"
      → All (λ x. x ≢ migrated) (start_up M false []).1
  unfolding start_up connect_db launch
  start_up_in_production production =
      Unmigrated-bind (loaded (load M.env)) _ (loaded-Unmigrated _)
        (λ c t u h.
          let in_production : str_eq c.app_env "production" ≡ true =
            (eq_iff _ _).1
              ((load-settings M.env (loaded-some (load M.env) t h).0).1 ∙ production) in
          Unmigrated-bind _ _ (refuse-Unmigrated _ _) λ _ _ _ _.
            Unmigrated-bind _ _ (connected c) λ _ _ _ _.
              Unmigrated-bind _ _ (rw in_production (λ t i. i))
                λ _ _ _ _. Unmigrated-bind _ _ (launched c) λ _ _ _ _ t i. i)
        [] tt
