-- ===== src/Outbox/Liveness.antt =====
-- A round of the publisher publishes the entries that it reads.
use finance_project.Prelude.{
  ℕ, pos, ◌≤◌, ◌==◌, ==_iff, false, List, [], ◌∷◌, ◌≡◌, ◌⊎◌, inl, inr, refl, sym, ap, ◌∙◌, subst,
  arith, Bool-cases, length, All, All-imp, All-of_members, All-member, take_all, Mem-filter,
  Mem-perm, length-perm,
}
use mathlib.Core.List.{Memᴰ}
use mathlib.Core.List.Permᴰ
use finance_project.Models.{OutboxEntry, outbox, keys, tokens}
use finance_project.Action.{ok, ◌>>=◌, ◌>>◌, >>=_of_ok}
use finance_project.Platform.{Platform}
use finance_project.Platform.Reply.{Reply, done}
use finance_project.Platform.Database.{matching}
use finance_project.Session.{World, read_clock, attempt}
use finance_project.Session.Keeps.{Keeps, Keeps-then}
use finance_project.Session.Rows.{All-update_where, All-update_where_hit}
use finance_project.Outbox.{
  is_pending, publish_at, mark_published, publish_all, process_batch, process_outbox, batch_size,
  cleanup_keys, cleanup_tokens,
}
use finance_project.Outbox.Delivery.{KeptByRound, publish_all-Keeps, timed-Keeps}

module _ (P : Platform) where
  -- A property of the entries that marking keeps, every round keeps.
  entries-KeptByRound :
      (Q : OutboxEntry → Type 0)
      → ((now : ℕ) (r : OutboxEntry) → Q r → Q (publish_at now r))
      → KeptByRound P (λ d. All Q (P.rows outbox d))
  entries-KeptByRound Q keep = record {
    marks = λ x i d e h q.
        subst (All Q) (sym (P.update_rows outbox _ (publish_at (P.time_now i)) d e h)) (
          All-update_where Q _ (publish_at (P.time_now i)) (keep (P.time_now i)) (P.rows outbox d)
            q);
    drops_keys =
        λ i d e h q. subst (All Q) (sym (P.delete_others keys outbox _ d e (λ p. cc) refl h)) q;
    drops_tokens =
        λ i d e h q. subst (All Q) (sym (P.delete_others tokens outbox _ d e (λ p. cc) refl h)) q;
  }

  -- The database accepts that entries are marked.
  abbrev pub AcceptsMarks : Type 0
  AcceptsMarks =
      (x : OutboxEntry) (now : ℕ) (d : P.Db)
      → (e : P.Db) × (P.update outbox (λ r. r.id == x.id) (publish_at now) d ≡ done e)

  -- The entries with the id of `x` are published.
  abbrev IsPublished : OutboxEntry → OutboxEntry → Type 0
  IsPublished x r = r.id ≡ x.id → is_pending r ≡ false

  mark_published-IsPublished :
      (x : OutboxEntry) (w : World P)
      → AcceptsMarks
      → All (IsPublished x) (P.rows outbox (mark_published P x w).1.db)
  unfolding mark_published ◌>>=◌ read_clock attempt
  mark_published-IsPublished x w accepts =
      let now = P.time_now w.calls in
      let (e, h) = accepts x now w.db in
      rw (h, mark_published, ◌>>=◌, read_clock, attempt)
        (subst (All (IsPublished x)) (sym (P.update_rows outbox _ (publish_at now) w.db e h)) (
          All-imp _ (λ r f same. f ((==_iff r.id x.id).1 same))
            (All-update_where_hit (λ r. is_pending r ≡ false) (λ r. r.id == x.id) (publish_at now)
              (λ r _. refl) (P.rows outbox w.db))))

  -- A reading of the clock and a statement whose error is dropped return.
  pub timed_returns :
      (f : ℕ → P.Db → Reply P.Db) (w : World P)
      → ((read_clock P >>= λ now. attempt P (f now)) w).0 ≡ ok tt
  unfolding ◌>>=◌ read_clock attempt
  timed_returns f w = ground arith

  pub publish_all_step :
      (x : OutboxEntry) (es : List OutboxEntry) (w : World P)
      → publish_all P (x ∷ es) w ≡ publish_all P es (mark_published P x w).1
  unfolding publish_all mark_published
  publish_all_step x es w =
      >>=_of_ok (mark_published P x) (λ _. publish_all P es) w
        (ap (λ r. (r, (mark_published P x w).1)) (timed_returns _ w))

  publish_all-IsPublished :
      (x : OutboxEntry) (es : List OutboxEntry) (w : World P)
      → AcceptsMarks
      → Memᴰ x es
      → All (IsPublished x) (P.rows outbox (publish_all P es w).1.db)
  publish_all-IsPublished x [] w accepts m = elim m [ ]
  publish_all-IsPublished x (y ∷ es) w accepts (Memᴰ.head e) = rw (publish_all_step y es w) (
      publish_all-Keeps P (λ d. All (IsPublished x) (P.rows outbox d))
        (entries-KeptByRound (IsPublished x) (λ now r f same. refl)) es (mark_published P y w).1
        (subst (λ z. All (IsPublished x) (P.rows outbox (mark_published P z w).1.db)) e
          (mark_published-IsPublished x w accepts)))
  publish_all-IsPublished x (y ∷ es) w accepts (Memᴰ.tail m) =
      rw (publish_all_step y es w) (publish_all-IsPublished x es (mark_published P y w).1 accepts m)

  cleanups-Keeps :
      (Q : OutboxEntry → Type 0)
      → ((now : ℕ) (r : OutboxEntry) → Q r → Q (publish_at now r))
      → Keeps P (λ d. All Q (P.rows outbox d)) (cleanup_keys P >> cleanup_tokens P)
  unfolding cleanup_keys cleanup_tokens
  cleanups-Keeps Q keep =
      let k = entries-KeptByRound Q keep in
      Keeps-then P _ _ _ (timed-Keeps P _ _ k.drops_keys) (λ _. timed-Keeps P _ _ k.drops_tokens)

  pub publish_all_returns : (es : List OutboxEntry) (w : World P) → (publish_all P es w).0 ≡ ok tt
  unfolding publish_all
  publish_all_returns [] w = refl
  publish_all_returns (x ∷ es) w =
      ap (λ y. y.0) (publish_all_step x es w) ∙ publish_all_returns es (mark_published P x w).1

  -- What marking keeps, and holds once a batch is marked, holds at the end of its round.
  process_batch-All :
      (Q : OutboxEntry → Type 0) (es : List OutboxEntry) (w : World P)
      → ((now : ℕ) (r : OutboxEntry) → Q r → Q (publish_at now r))
      → All Q (P.rows outbox (publish_all P es w).1.db)
      → All Q (P.rows outbox (process_batch P (done es) w).1.db)
  unfolding process_batch publish_all
  process_batch-All Q [] w keep q = q
  process_batch-All Q (x ∷ es) w keep q =
      rw
        (>>=_of_ok (publish_all P (x ∷ es)) (λ _. cleanup_keys P >> cleanup_tokens P) w
          (ap (λ r. (r, (publish_all P (x ∷ es) w).1)) (publish_all_returns (x ∷ es) w)))
        (cleanups-Keeps Q keep (publish_all P (x ∷ es) w).1 q)

  -- An entry is published, or has the id of one of the batch.
  abbrev InBatch : List OutboxEntry → OutboxEntry → Type 0
  InBatch es r = (is_pending r ≡ false) ⊎ ((x : OutboxEntry) × Memᴰ x es × (r.id ≡ x.id))

  InBatch-publish_at :
      (es : List OutboxEntry) (now : ℕ) (r : OutboxEntry)
      → InBatch es r
      → InBatch es (publish_at now r)
  InBatch-publish_at es now r b = inl refl

  page-InBatch :
      (es : List OutboxEntry) (d : P.Db)
      → P.page outbox is_pending "created_at ASC" (pos 0) batch_size d ≡ done es
      → length (matching P.Decimal outbox is_pending (P.rows outbox d)) ≤ batch_size
      → All (InBatch es) (P.rows outbox d)
  page-InBatch es d h few =
      let (all, a, is_page) =
        P.page_rows outbox is_pending "created_at ASC" (pos 0) batch_size d es h in
      All-of_members (InBatch es) (P.rows outbox d) λ r m. elim (Bool-cases (is_pending r)) [
        | inr published ↦ inl published
        | inl pending ↦ inr (
          r,
          subst (Memᴰ r)
              (sym (is_page ∙ take_all batch_size all (omega (arith, few, length-perm all _ a))))
              (Mem-perm r _ all (Permᴰ.symm a) (Mem-filter _ r (P.rows outbox d) m pending)),
          refl,
        )
      ]

  batch_ends_published :
      (es : List OutboxEntry) (w : World P)
      → AcceptsMarks
      → All (InBatch es) (P.rows outbox w.db)
      → All (λ r. is_pending r ≡ false) (P.rows outbox (publish_all P es w).1.db)
  batch_ends_published es w accepts b =
      let u = (publish_all P es w).1 in
      let kept : All (InBatch es) (P.rows outbox u.db) =
        publish_all-Keeps P (λ d. All (InBatch es) (P.rows outbox d))
          (entries-KeptByRound (InBatch es) (InBatch-publish_at es)) es w b in
      All-of_members (λ r. is_pending r ≡ false) (P.rows outbox u.db)
        λ r m. elim (All-member (InBatch es) (P.rows outbox u.db) kept m) [
          | inl published ↦ published
          | inr (x, n, same) ↦
              All-member (IsPublished x) (P.rows outbox u.db)
                (publish_all-IsPublished x es w accepts n) m same
        ]

  -- If the database accepts the marks, then after a round every entry that it has read is published,
  -- and if no more than fifty entries were pending, none is.
  pub process_outbox-publishes :
      (w : World P) (es : List OutboxEntry)
      → AcceptsMarks
      → P.page outbox is_pending "created_at ASC" (pos 0) batch_size w.db ≡ done es
      → ((x : OutboxEntry)
          → Memᴰ x es
          → All (λ r. r.id ≡ x.id → is_pending r ≡ false) (P.rows outbox (process_outbox P w).1.db))
        × (length (matching P.Decimal outbox is_pending (P.rows outbox w.db)) ≤ batch_size
            → All (λ r. is_pending r ≡ false) (P.rows outbox (process_outbox P w).1.db))
  unfolding process_outbox
  process_outbox-publishes w es accepts h = rw h (
    λ x m.
        process_batch-All (IsPublished x) es w (λ now r f same. refl)
          (publish_all-IsPublished x es w accepts m),
    λ few.
        process_batch-All (λ r. is_pending r ≡ false) es w (λ now r p. refl)
          (batch_ends_published es w accepts (page-InBatch es w.db h few)),
  )
