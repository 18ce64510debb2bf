-- ===== src/Outbox/Delivery.antt =====
-- What the rounds of the publisher do to the tables, whatever the database refuses.
use finance_project.Prelude.{
  ℕ, zero, suc, ltb, ◌<◌, ◌==◌, ◌&&◌, true, false, not, List, [], ◌∷◌, ◌≡◌, ◌≢◌, ◌⊎◌, inl, inr,
  refl, ap, ◌∙◌, String, map, arith, Bool-cases, Mem-filter,
}
use mathlib.Core.List.{Memᴰ}
use finance_project.Models.{
  Uuid, OutboxEntry, IdempotencyKey, RefreshToken, Table, outbox, keys, tokens, is_revoked,
}
use finance_project.Action.{◌>>=◌}
use finance_project.Platform.{Platform}
use finance_project.Platform.Reply.{Reply, done, failed}
use finance_project.Platform.Database.{cascades}
use finance_project.Session.{World, read_clock, attempt}
use finance_project.Session.Keeps.{Keeps, Keeps-then, Keeps-attempt}
use finance_project.Session.Rows.{map-update_where}
use finance_project.Outbox.{
  publish_at, mark_published, publish_all, cleanup_keys, cleanup_tokens, process_batch,
  process_outbox, start,
}

-- What an entry tells its readers: all but when it was published.
abbrev pub content : OutboxEntry → Uuid × (Uuid × (String × String))
content e = (e.id, (e.event_id, (e.event_type, e.payload)))

module _ (P : Platform) where
  -- Since a state, the entries have kept their number, order and content; what has gone is expired
  -- keys, and tokens that were expired and revoked; and the other tables are as they were.
  pub record IsDelivery (d e : P.Db) : Type 0 where
    pub contents : map content (P.rows outbox e) ≡ map content (P.rows outbox d)
    pub keys_kept :
        (k : IdempotencyKey)
        → Memᴰ k (P.rows keys d)
        → Memᴰ k (P.rows keys e) ⊎ ((i : ℕ) × (k.expires_at < P.time_now i))
    pub tokens_kept :
        (t : RefreshToken)
        → Memᴰ t (P.rows tokens d)
        → Memᴰ t (P.rows tokens e)
          ⊎ ((i : ℕ) × (t.expires_at < P.time_now i) × (is_revoked t ≡ true))
    pub others : (t : Table) → t ≢ outbox → t ≢ keys → t ≢ tokens → P.rows t e ≡ P.rows t d

  IsDelivery-refl : (d : P.Db) → IsDelivery d d
  IsDelivery-refl d = record {
    contents = refl;
    keys_kept = λ k m. inl m;
    tokens_kept = λ t m. inl m;
    others = λ t _ _ _. refl;
  }

  -- The statements of a round, at a reading of the clock.
  module _ (I : P.Db → Type 0) where
    pub record KeptByRound : Type 0 where
      pub marks :
          (x : OutboxEntry) (i : ℕ) (d e : P.Db)
          → P.update outbox (λ r. r.id == x.id) (publish_at (P.time_now i)) d ≡ done e
          → I d
          → I e
      pub drops_keys :
          (i : ℕ) (d e : P.Db)
          → P.delete keys (λ k. ltb k.expires_at (P.time_now i)) d ≡ done e
          → I d
          → I e
      pub drops_tokens :
          (i : ℕ) (d e : P.Db)
          → P.delete tokens (λ t. ltb t.expires_at (P.time_now i) && is_revoked t) d ≡ done e
          → I d
          → I e

    -- A reading of the clock, and then a statement whose error is dropped.
    pub timed-Keeps :
        (f : ℕ → P.Db → Reply P.Db)
        → ((i : ℕ) (d e : P.Db) → f (P.time_now i) d ≡ done e → I d → I e)
        → Keeps P I (read_clock P >>= λ now. attempt P (f now))
    unfolding ◌>>=◌ read_clock
    timed-Keeps f step w i =
        Keeps-attempt P I (f (P.time_now w.calls)) (step w.calls) (record w { calls = suc w.calls })
          i

    pub publish_all-Keeps : KeptByRound → (es : List OutboxEntry) → Keeps P I (publish_all P es)
    unfolding publish_all mark_published
    publish_all-Keeps k [] = λ w i. i
    publish_all-Keeps k (x ∷ es) =
        Keeps-then P I _ _ (timed-Keeps _ (k.marks x)) (λ _. publish_all-Keeps k es)

    pub process_batch-Keeps :
        KeptByRound → (r : Reply (List OutboxEntry)) → Keeps P I (process_batch P r)
    unfolding process_batch cleanup_keys cleanup_tokens
    process_batch-Keeps k (failed c) = λ w i. i
    process_batch-Keeps k (done []) = λ w i. i
    process_batch-Keeps k (done (x ∷ es)) =
        Keeps-then P I _ _ (publish_all-Keeps k (x ∷ es))
          λ _. Keeps-then P I _ _ (timed-Keeps _ k.drops_keys) λ _. timed-Keeps _ k.drops_tokens

    pub start-Keeps : KeptByRound → (ticks : ℕ) → Keeps P I (start P ticks)
    unfolding start process_outbox
    start-Keeps k zero = λ w i. i
    start-Keeps k (suc n) =
        Keeps-then P I _ _ (λ w i. process_batch-Keeps k _ w i) (λ _. start-Keeps k n)

  mark-IsDelivery :
      (d₀ d e : P.Db) (x : OutboxEntry) (now : ℕ)
      → P.update outbox (λ r. r.id == x.id) (publish_at now) d ≡ done e
      → IsDelivery d₀ d
      → IsDelivery d₀ e
  mark-IsDelivery d₀ d e x now h since =
      let rows = P.update_rows outbox _ (publish_at now) d e h in
      let same =
        λ (t : Table) (n : t ≢ outbox). P.update_others outbox t _ (publish_at now) d e n h in
      record {
        contents =
            ap (map content) rows
            ∙ map-update_where content _ (publish_at now) (λ r. refl) (P.rows outbox d)
            ∙ since.contents;
        keys_kept = λ k m. rw (same keys (λ q. cc)) (since.keys_kept k m);
        tokens_kept = λ t m. rw (same tokens (λ q. cc)) (since.tokens_kept t m);
        others = λ t n₁ n₂ n₃. same t n₁ ∙ since.others t n₁ n₂ n₃;
      }

  drop_keys-IsDelivery :
      (d₀ d e : P.Db) (i : ℕ)
      → P.delete keys (λ k. ltb k.expires_at (P.time_now i)) d ≡ done e
      → IsDelivery d₀ d
      → IsDelivery d₀ e
  drop_keys-IsDelivery d₀ d e i h since =
      let rows = P.delete_rows keys _ d e h in
      let same = λ (t : Table) (n : t ≢ keys) (c : cascades keys t ≡ false).
        P.delete_others keys t _ d e n c h in
      record {
        contents = ap (map content) (same outbox (λ q. cc) refl) ∙ since.contents;
        keys_kept = λ k m. elim (since.keys_kept k m) [
          | inr gone ↦ inr gone
          | inl there ↦ elim (Bool-cases (ltb k.expires_at (P.time_now i))) [
            | inl expired ↦ inr (i, ground (arith, expired))
            | inr live ↦ inl (rw rows (Mem-filter _ k (P.rows keys d) there (ap not live)))
          ]
        ];
        tokens_kept = λ t m. rw (same tokens (λ q. cc) refl) (since.tokens_kept t m);
        others = λ t n₁ n₂ n₃. same t n₂ refl ∙ since.others t n₁ n₂ n₃;
      }

  drop_tokens-IsDelivery :
      (d₀ d e : P.Db) (i : ℕ)
      → P.delete tokens (λ t. ltb t.expires_at (P.time_now i) && is_revoked t) d ≡ done e
      → IsDelivery d₀ d
      → IsDelivery d₀ e
  drop_tokens-IsDelivery d₀ d e i h since =
      let rows = P.delete_rows tokens _ d e h in
      let same = λ (t : Table) (n : t ≢ tokens) (c : cascades tokens t ≡ false).
        P.delete_others tokens t _ d e n c h in
      record {
        contents = ap (map content) (same outbox (λ q. cc) refl) ∙ since.contents;
        keys_kept = λ k m. rw (same keys (λ q. cc) refl) (since.keys_kept k m);
        tokens_kept = λ t m. elim (since.tokens_kept t m) [
          | inr gone ↦ inr gone
          | inl there ↦ elim (Bool-cases (ltb t.expires_at (P.time_now i) && is_revoked t)) [
            | inl dead ↦ inr (i, ground (arith, dead), ground (arith, dead))
            | inr live ↦ inl (rw rows (Mem-filter _ t (P.rows tokens d) there (ap not live)))
          ]
        ];
        others = λ t n₁ n₂ n₃. same t n₃ refl ∙ since.others t n₁ n₂ n₃;
      }

  -- However many rounds the publisher runs and whichever of its statements the database refuses,
  -- the entries of the outbox keep their number, order and content, an idempotency key is deleted
  -- only if it has expired, a refresh token only if it has expired and is revoked, and no other table
  -- changes.
  pub start-IsDelivery : (ticks : ℕ) (w : World P) → IsDelivery w.db (start P ticks w).1.db
  start-IsDelivery ticks w =
      start-Keeps (IsDelivery w.db)
        (record {
          marks = λ x i d e h. mark-IsDelivery w.db d e x (P.time_now i) h;
          drops_keys = λ i d e h. drop_keys-IsDelivery w.db d e i h;
          drops_tokens = λ i d e h. drop_tokens-IsDelivery w.db d e i h;
        })
        ticks w (IsDelivery-refl w.db)
