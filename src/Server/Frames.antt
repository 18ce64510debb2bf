-- ===== src/Server/Frames.antt =====
-- What the middlewares around a route write to the log and to the headers.
use finance_project.Prelude.{
  ℕ, suc, ◌-◌, Bool, true, false, [], ◌∷◌, ◌++◌, ◌≡◌, refl, sym, ap, ◌∙◌, str_eq, if◌then◌else◌,
}
use mathlib.Core.List.{IsPrefix, append_assoc, append-nil}
use finance_project.Action.{Action, Result, ok, err, panic, pure, ◌>>=◌, ◌>>◌, resume}
use finance_project.Platform.{Platform}
use finance_project.Session.{World, read_clock}
use finance_project.Http.{Context, Response}
use finance_project.RateLimiter.{Limiters, rate_limiter}
use finance_project.Server.{
  Server, ServerHandler, log_line, on_world, write_line, structured_logger, limit_rate,
  cors_middleware,
}

module _ (P : Platform) (R : Limiters) where
  -- An action that writes no line and only adds headers.
  abbrev pub Frames : {A : Type 0} → Action (Server P R) A → Type 0
  Frames m = (t : Server P R) → ((m t).1.lines ≡ t.lines) × IsPrefix t.headers (m t).1.headers

  Frames-bind :
      {A B : Type 0} (m : Action (Server P R) A) (f : A → Action (Server P R) B)
      → Frames m
      → ((a : A) → Frames (f a))
      → Frames (m >>= f)
  unfolding ◌>>=◌
  Frames-bind {A} {B} m f first second t = go (m t) (first t)
    where
      go :
          (x : Result A × Server P R)
          → (x.1.lines ≡ t.lines) × IsPrefix t.headers x.1.headers
          → ((resume x.0 f x.1).1.lines ≡ t.lines) × IsPrefix t.headers (resume x.0 f x.1).1.headers
      go (ok a, u) (same, (new, e)) =
          let (same', (new', e')) = second a u in
          (
            same' ∙ same,
            (new ++ new', sym (append_assoc t.headers new new') ∙ ap (λ hs. hs ++ new') e ∙ e'),
          )
      go (err c, u) j = j
      go (panic, u) j = j

  pub on_world-Frames : {A : Type 0} (m : Action (World P) A) → Frames (on_world P R m)
  unfolding on_world
  on_world-Frames m t = (refl, ([], append-nil t.headers))

  chosen-Frames :
      {A : Type 0} (b : Bool) (m n : Action (Server P R) A)
      → Frames m
      → Frames n
      → Frames (if b then m else n)
  chosen-Frames true m n first second = first
  chosen-Frames false m n first second = second

  pub limit_rate-Frames :
      (next : ServerHandler P R) (c : Context) → Frames (next c) → Frames (limit_rate P R next c)
  unfolding limit_rate rate_limiter
  limit_rate-Frames next c h = Frames-bind _ _ (on_world-Frames _) λ _.
      Frames-bind _ _ (on_world-Frames _) λ _. Frames-bind _ _ (on_world-Frames _) λ _.
        Frames-bind _ _ (λ t. (refl, ([], append-nil t.headers)))
          λ allowed. chosen-Frames allowed _ _ h (λ t. (refl, ([], append-nil t.headers)))

  pub cors_middleware-Frames :
      (next : ServerHandler P R) (c : Context)
      → Frames (next c)
      → Frames (cors_middleware P R next c)
  unfolding cors_middleware
  cors_middleware-Frames next c h =
      Frames-bind _ _ (λ t. (refl, (_, refl)))
        λ _.
          chosen-Frames (str_eq c.method "OPTIONS") _ _ (λ t. (refl, ([], append-nil t.headers))) h

  -- What the log has gained since `t` when a request ends.
  abbrev pub IsLogged : Context → Server P R → Result (Response P.Decimal) × Server P R → Type 0
  IsLogged c t (ok r, u) = (latency : ℕ) × (u.lines ≡ t.lines ++ log_line c r latency ∷ [])
  IsLogged c t (err e, u) = Unit
  IsLogged c t (panic, u) = u.lines ≡ t.lines

  -- The logger after the next handler.
  abbrev log_after : Context → ℕ → Response P.Decimal → Action (Server P R) (Response P.Decimal)
  log_after c start r = do
    stop ← on_world P R (read_clock P)
    write_line P R (log_line c r (stop - start))
    pure r

  pub structured_logger-IsLogged :
      (next : ServerHandler P R) (c : Context) (t : Server P R)
      → Frames (next c)
      → IsLogged c t (structured_logger P R next c t)
        × IsPrefix t.headers (structured_logger P R next c t).1.headers
  unfolding structured_logger ◌>>=◌ on_world read_clock
  structured_logger-IsLogged next c t h = go (next c begun) (h begun)
    where
      begun : Server P R
      begun = record t { world = record t.world { calls = suc t.world.calls } }

      go :
          (x : Result (Response P.Decimal) × Server P R)
          → (x.1.lines ≡ t.lines) × IsPrefix t.headers x.1.headers
          → IsLogged c t (resume x.0 (log_after c (P.time_now t.world.calls)) x.1)
            × IsPrefix t.headers (resume x.0 (log_after c (P.time_now t.world.calls)) x.1).1.headers
      go (ok r, u) (same, more) = (
        (
          P.time_now u.world.calls - P.time_now t.world.calls,
          ap (λ ls. ls ++ log_line c r (P.time_now u.world.calls - P.time_now t.world.calls) ∷ [])
              same,
        ),
        more,
      )
      go (err e, u) (same, more) = (tt, more)
      go (panic, u) (same, more) = (same, more)
