-- ===== src/RateLimiter.antt =====
-- middleware/rate_limiter.go: a limiter for each client address, and the eviction of idle ones.
pub mod Isolation
use finance_project.Prelude.{
  ℕ, ◌-◌, ◌*◌, String, Bool, true, false, Option, none, some, List, [], ◌∷◌, str_eq, ltb,
  if◌then◌else◌,
}
use finance_project.Action.{Action, pure}
use finance_project.Tokens.{minute}
use finance_project.Http.{Context, Response, error_response}

-- golang.org/x/time/rate: a limiter of some events in some seconds with a burst, and `Allow`, which
-- is asked at a time and changes the limiter.
pub record Limiters : Type 1 where
  pub Limiter : Type 0
  pub new_limiter : ℕ → ℕ → ℕ → Limiter
  pub allow : ℕ → Limiter → Bool × Limiter

pub record RateLimitEntry (Limiter : Type 0) : Type 0 where
  pub limiter : Limiter
  pub last_seen : ℕ

-- `entryTTL`
abbrev pub entry_ttl : ℕ
entry_ttl = 10 * minute

-- A request from an address, with the readings of the clock for a new entry, for one that is there,
-- and of the limiter; and a tick of the eviction.
pub data Event : Type 0 where
  request : String → ℕ → ℕ → ℕ → Event
  tick : ℕ → Event

module _ (R : Limiters) where
  -- The map `limiters`.
  abbrev pub Entries : Type 0
  Entries = String → Option (RateLimitEntry R.Limiter)

  abbrev pub put_entry : String → RateLimitEntry R.Limiter → Entries → Entries
  put_entry ip e s j = if str_eq j ip then some e else s j

  -- 100 events in 60 seconds, and a burst of 100
  abbrev pub fresh_entry : ℕ → RateLimitEntry R.Limiter
  fresh_entry now = record { limiter = R.new_limiter 100 60 100; last_seen = now }

  -- `LoadOrStore`, which keeps the limiter of an entry that is there.
  abbrev pub loaded : Option (RateLimitEntry R.Limiter) → ℕ → ℕ → RateLimitEntry R.Limiter
  loaded none now again = fresh_entry now
  loaded (some e) now again = record e { last_seen = again }

  unfoldable pub get_limiter : String → ℕ → ℕ → Entries → RateLimitEntry R.Limiter × Entries
  get_limiter ip now again s = let e = loaded (s ip) now again in (e, put_entry ip e s)

  -- The limiter that `Allow` changes is the one in the map.
  unfoldable pub admit : String → ℕ → ℕ → ℕ → Entries → Bool × Entries
  admit ip now again asked s =
      let (e, t) = get_limiter ip now again s in
      let (allowed, l) = R.allow asked e.limiter in
      (allowed, put_entry ip (record e { limiter = l }) t)

  abbrev pub unless_idle : ℕ → Option (RateLimitEntry R.Limiter) → Option (RateLimitEntry R.Limiter)
  unless_idle now none = none
  unless_idle now (some e) = if ltb entry_ttl (now - e.last_seen) then none else some e

  unfoldable pub evict : ℕ → Entries → Entries
  evict now s ip = unless_idle now (s ip)

  -- The answers to a sequence of requests and ticks, each with its address.
  unfoldable pub run : List Event → Entries → List (String × Bool) × Entries
  run [] s = ([], s)
  run (request ip now again asked ∷ es) s =
      let (allowed, t) = admit ip now again asked s in
      let (answers, u) = run es t in ((ip, allowed) ∷ answers, u)
  run (tick now ∷ es) s = run es (evict now s)

module _ {D : Type 0} where
  abbrev pub limit_exceeded : Response D
  limit_exceeded = error_response 429 "rate limit exceeded, please try again later"

  -- The middleware, on what the limiter of the client's address has answered.
  unfoldable pub rate_limiter :
      {S : Type 0} → Bool → (Context → Action S (Response D)) → Context → Action S (Response D)
  rate_limiter allowed next c = if allowed then next c else pure limit_exceeded
