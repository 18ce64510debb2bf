-- ===== src/Outbox/Draining.antt =====
-- The rounds of the publisher drain the outbox.
use finance_project.Prelude.{
  ℕ, zero, suc, ◌*◌, ◌-◌, ◌≤◌, pos, Bool, true, false, not, ◌&&◌, ◌==◌, List, [], ◌∷◌, map, filter,
  length, take, contains, All, ◌≡◌, refl, sym, ap, ◌∙◌, subst, inl, inr, arith, Bool-cases,
  filter-perm, length-perm, length-filter-le, contains-map_of_Memᴰ,
}
use mathlib.Core.List.{Memᴰ}
use finance_project.Models.{OutboxEntry, Uuid, outbox, keys, tokens}
use finance_project.Action.{ok, ◌>>=◌, ◌>>◌, >>=_of_ok}
use finance_project.Platform.{Platform}
use finance_project.Platform.Reply.{done}
use finance_project.Platform.Database.{update_where}
use finance_project.Session.{World, read_clock, attempt}
use finance_project.Session.Keeps.{Keeps, Keeps-then}
use finance_project.Outbox.{
  is_pending, publish_at, mark_published, publish_all, process_batch, process_outbox, batch_size,
  cleanup_keys, cleanup_tokens, start,
}
use finance_project.Outbox.Delivery.{timed-Keeps}
use finance_project.Outbox.Liveness.{
  AcceptsMarks, timed_returns, publish_all_step, publish_all_returns,
}

-- The entries that are pending, and not among those with the given ids.
abbrev is_left : List Uuid → OutboxEntry → Bool
is_left ids r = is_pending r && not (contains ids r.id)

-- To mark an entry is to leave it and its namesakes out.
length-left_after_mark :
    (x : OutboxEntry) (now : ℕ) (ids : List Uuid) (rs : List OutboxEntry)
    → length (filter (is_left ids) (update_where (λ r. r.id == x.id) (publish_at now) rs))
      ≡ length (filter (is_left (x.id ∷ ids)) rs)
length-left_after_mark x now ids [] = refl
length-left_after_mark x now ids (r ∷ rs) = elim (Bool-cases (r.id == x.id)) [
  | inl hit ↦ rw hit (ground (arith, length-left_after_mark x now ids rs))
  | inr miss ↦ rw miss (ground (arith, length-left_after_mark x now ids rs))
]

filter-none_left : (rs : List OutboxEntry) → filter (is_left []) rs ≡ filter is_pending rs
filter-none_left [] = refl
filter-none_left (r ∷ rs) = ground (arith, filter-none_left rs)

filter-left :
    (ids : List Uuid) (rs : List OutboxEntry)
    → filter (is_left ids) rs ≡ filter (λ r. not (contains ids r.id)) (filter is_pending rs)
filter-left ids [] = refl
filter-left ids (r ∷ rs) = elim (Bool-cases (is_pending r)) [
  | inl pending ↦ rw pending (ground (arith, filter-left ids rs))
  | inr published ↦ rw published (filter-left ids rs)
]

-- Of a list, those whose ids its first entries do not have are at most the others.
length-filter-beyond :
    (ids : List Uuid) (n : ℕ) (rs : List OutboxEntry)
    → ((r : OutboxEntry) → Memᴰ r (take n rs) → contains ids r.id ≡ true)
    → length (filter (λ r. not (contains ids r.id)) rs) ≤ length rs - n
length-filter-beyond ids zero rs h =
    omega (arith, length-filter-le (λ (r : OutboxEntry). not (contains ids r.id)) rs)
length-filter-beyond ids (suc n) [] h = omega arith
length-filter-beyond ids (suc n) (r ∷ rs) h =
    rw (h r (Memᴰ.head refl))
      (omega (arith, length-filter-beyond ids n rs (λ x m. h x (Memᴰ.tail m))))

none_pending :
    (rs : List OutboxEntry) → length (filter is_pending rs) ≤ 0 → All (λ r. is_pending r ≡ false) rs
none_pending [] h = tt
none_pending (r ∷ rs) h = elim (Bool-cases (is_pending r)) [
  | inl pending ↦ absurd (omega (arith, rw pending at h))
  | inr published ↦ (published, none_pending rs (rw published at h))
]

module _ (P : Platform) where
  -- The number of pending entries.
  abbrev pub backlog : P.Db → ℕ
  backlog d = length (filter is_pending (P.rows outbox d))

  mark_published-left :
      (x : OutboxEntry) (ids : List Uuid) (w : World P)
      → AcceptsMarks P
      → length (filter (is_left ids) (P.rows outbox (mark_published P x w).1.db))
        ≡ length (filter (is_left (x.id ∷ ids)) (P.rows outbox w.db))
  unfolding mark_published ◌>>=◌ read_clock attempt
  mark_published-left x ids w accepts =
      let now = P.time_now w.calls in
      let (e, h) = accepts x now w.db in
      rw (h, mark_published, ◌>>=◌, read_clock, attempt)
        (ap (λ rs. length (filter (is_left ids) rs))
            (P.update_rows outbox (λ r. r.id == x.id) (publish_at now) w.db e h)
          ∙ length-left_after_mark x now ids (P.rows outbox w.db))

  -- After a batch, what is pending was so before and has no id of the batch.
  publish_all-left :
      (es : List OutboxEntry) (w : World P)
      → AcceptsMarks P
      → backlog (publish_all P es w).1.db
        ≡ length (filter (is_left (map (λ x. x.id) es)) (P.rows outbox w.db))
  unfolding publish_all
  publish_all-left [] w accepts = sym (ap length (filter-none_left (P.rows outbox w.db)))
  publish_all-left (x ∷ es) w accepts = rw (publish_all_step P x es w) (
      publish_all-left es (mark_published P x w).1 accepts
      ∙ mark_published-left x (map (λ y. y.id) es) w accepts)

  page-shrinks :
      (es : List OutboxEntry) (d : P.Db)
      → P.page outbox is_pending "created_at ASC" (pos 0) batch_size d ≡ done es
      → length (filter (is_left (map (λ x. x.id) es)) (P.rows outbox d)) ≤ backlog d - batch_size
  page-shrinks es d h =
      let (all, arranged, is_page) =
        P.page_rows outbox is_pending "created_at ASC" (pos 0) batch_size d es h in
      let ids = map (λ (x : OutboxEntry). x.id) es in
      let same : length (filter (is_left ids) (P.rows outbox d))
          ≡ length (filter (λ r. not (contains ids r.id)) all) =
        ap length (filter-left ids (P.rows outbox d))
        ∙ sym (length-perm _ _ (filter-perm (λ r. not (contains ids r.id)) all _ arranged)) in
      let beyond =
        length-filter-beyond ids batch_size all
          (λ r m. contains-map_of_Memᴰ (λ x. x.id) r es (subst (Memᴰ r) (sym is_page) m)) in
      omega (arith, same, beyond, length-perm all _ arranged)

  unaffected :
      (d e : P.Db) (n : ℕ) → P.rows outbox e ≡ P.rows outbox d → backlog d ≤ n → backlog e ≤ n
  unaffected d e n same q = rw same q

  cleanups-backlog : (n : ℕ) → Keeps P (λ d. backlog d ≤ n) (cleanup_keys P >> cleanup_tokens P)
  unfolding cleanup_keys cleanup_tokens
  cleanups-backlog n =
      Keeps-then P (λ d. backlog d ≤ n) _ _
        (timed-Keeps P (λ d. backlog d ≤ n) _
          (λ i d e h q. unaffected d e n (P.delete_others keys outbox _ d e (λ p. cc) refl h) q))
        λ _.
          timed-Keeps P (λ d. backlog d ≤ n) _
            (λ i d e h q. unaffected d e n (P.delete_others tokens outbox _ d e (λ p. cc) refl h) q)

  process_batch-backlog :
      (es : List OutboxEntry) (w : World P) (n : ℕ)
      → backlog (publish_all P es w).1.db ≤ n
      → backlog (process_batch P (done es) w).1.db ≤ n
  unfolding process_batch publish_all
  process_batch-backlog [] w n q = q
  process_batch-backlog (x ∷ es) w n q =
      rw
        (>>=_of_ok (publish_all P (x ∷ es)) (λ _. cleanup_keys P >> cleanup_tokens P) w
          (ap (λ r. (r, (publish_all P (x ∷ es) w).1)) (publish_all_returns P (x ∷ es) w)))
        (cleanups-backlog n (publish_all P (x ∷ es) w).1 q)

  cleanups_return : (w : World P) → ((cleanup_keys P >> cleanup_tokens P) w).0 ≡ ok tt
  unfolding cleanup_keys cleanup_tokens
  cleanups_return w =
      ap (λ y. y.0)
        (>>=_of_ok (cleanup_keys P) (λ _. cleanup_tokens P) w
          (ap (λ r. (r, (cleanup_keys P w).1)) (timed_returns P _ w)))
      ∙ timed_returns P _ (cleanup_keys P w).1

  process_batch_returns :
      (es : List OutboxEntry) (w : World P) → (process_batch P (done es) w).0 ≡ ok tt
  unfolding process_batch
  process_batch_returns [] w = refl
  process_batch_returns (x ∷ es) w =
      ap (λ y. y.0)
        (>>=_of_ok (publish_all P (x ∷ es)) (λ _. cleanup_keys P >> cleanup_tokens P) w
          (ap (λ r. (r, (publish_all P (x ∷ es) w).1)) (publish_all_returns P (x ∷ es) w)))
      ∙ cleanups_return _

  -- The database answers each query for the next batch.
  abbrev pub ReadsBatches : Type 0
  ReadsBatches =
      (d : P.Db)
      → (es : List OutboxEntry) × (P.page outbox is_pending "created_at ASC" (pos 0) batch_size d
          ≡ done es)

  round-shrinks :
      (w : World P)
      → AcceptsMarks P
      → ReadsBatches
      → ((process_outbox P w).0 ≡ ok tt)
        × (backlog (process_outbox P w).1.db ≤ backlog w.db - batch_size)
  unfolding process_outbox
  round-shrinks w accepts reads =
      let (es, h) = reads w.db in
      rw (h, process_outbox)
        (
          process_batch_returns es w,
          process_batch-backlog es w (backlog w.db - batch_size)
              (rw (publish_all-left es w accepts) (page-shrinks es w.db h)),
        )

  -- If the database answers the queries and accepts the marks, then a number of rounds publishes every
  -- entry of a backlog of up to fifty times that number.
  pub start-drains :
      (ticks : ℕ) (w : World P)
      → AcceptsMarks P
      → ReadsBatches
      → length (filter is_pending (P.rows outbox w.db)) ≤ ticks * batch_size
      → All (λ r. is_pending r ≡ false) (P.rows outbox (start P ticks w).1.db)
  unfolding start
  start-drains zero w accepts reads few = none_pending (P.rows outbox w.db) few
  start-drains (suc ticks) w accepts reads few =
      let (returns, shrinks) = round-shrinks w accepts reads in
      rw
        (>>=_of_ok (process_outbox P) (λ _. start P ticks) w
          (ap (λ r. (r, (process_outbox P w).1)) returns))
        (start-drains ticks (process_outbox P w).1 accepts reads (omega (arith, shrinks, few)))
