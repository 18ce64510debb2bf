-- ===== src/Server/Announced.antt =====
-- The transactional outbox: the entries and the audit events stand for each other.
use finance_project.Prelude.{
  Bool, true, false, [], ◌∷◌, ◌++◌, map, ◌≡◌, ◌≢◌, refl, sym, ap, ap₂, ◌∙◌,
}
use mathlib.Core.List.{map-append}
use finance_project.Models.{Uuid, AuditEvent, OutboxEntry, Table, events, outbox}
use finance_project.Platform.{Platform}
use finance_project.Http.Requests.{Json}
use finance_project.Tokens.{TokenService}
use finance_project.RateLimiter.{Limiters}
use finance_project.Audit.Atomic.{Recorded, log_event-Logged}
use finance_project.Outbox.{publish_at}
use finance_project.Session.Rows.{map-update_where}
use finance_project.Ledger.Refinement.{Trail}
use finance_project.Kept.{is_reserved, KeptByStatements}
use finance_project.Kept.Posting.{post_transaction-Keeps}
use finance_project.Kept.Steps.{run-Keeps}
use finance_project.Server.{Engine, Server, ◌⟶*◌}
use finance_project.Server.History.{apart, spared}

module _ (P : Platform) where
  -- The outbox has one entry for each audit event, and no other, in the order of the events.
  abbrev pub IsAnnounced : P.Db → Type 0
  IsAnnounced d = map (λ x. x.event_id) (P.rows outbox d) ≡ map (λ e. e.id) (P.rows events d)

  untouched :
      (d e : P.Db)
      → P.rows events e ≡ P.rows events d
      → P.rows outbox e ≡ P.rows outbox d
      → IsAnnounced d
      → IsAnnounced e
  untouched d e p q i = rw (p, q) i

  Recorded-IsAnnounced :
      (event : AuditEvent) (d e : P.Db) → Recorded P event d e → IsAnnounced d → IsAnnounced e
  Recorded-IsAnnounced event d e r i =
      ap (map (λ (x : OutboxEntry). x.event_id)) r.outbox_row
      ∙ map-append (λ (x : OutboxEntry). x.event_id) (P.rows outbox d) (r.entry ∷ [])
      ∙ ap₂ (λ xs x. xs ++ x ∷ []) i (ap (λ (x : OutboxEntry). x.event_id) r.is_entry)
      ∙ sym (map-append (λ (x : AuditEvent). x.id) (P.rows events d) (r.row ∷ []))
      ∙ sym (ap (map (λ (x : AuditEvent). x.id)) r.event_row)

  Trail-IsAnnounced :
      (audited : Bool) (id : Uuid) (d e : P.Db)
      → Trail P audited id d e
      → IsAnnounced d
      → IsAnnounced e
  Trail-IsAnnounced false id d e (p, q) = untouched d e p q
  Trail-IsAnnounced true id d e (event, _, r) = Recorded-IsAnnounced event d e r

  -- A change of a table that is not reserved.
  elsewhere :
      (t : Table) (d e : P.Db)
      → is_reserved t ≡ false
      → ((u : Table) → u ≢ t → is_reserved u ≡ true → P.rows u e ≡ P.rows u d)
      → IsAnnounced d
      → IsAnnounced e
  elsewhere t d e free others =
      untouched d e (others events (apart t events free refl) refl)
        (others outbox (apart t outbox free refl) refl)

  IsAnnounced-kept : KeptByStatements P IsAnnounced
  IsAnnounced-kept = record {
    Allows = λ req. Unit;
    same = λ d e same. untouched d e (same events) (same outbox);
    inserts = λ t r d e free h. elsewhere t d e free λ u n _. P.insert_others t u r d e n h;
    updates = λ t p f d e free h. elsewhere t d e free λ u n _. P.update_others t u p f d e n h;
    update_maps = λ t p m d e free h.
        elsewhere t d e free λ u n r. P.update_map_others t u p m d e n (spared t u r) h;
    deletes = λ t p d e free h.
        elsewhere t d e free λ u n r. P.delete_others t u p d e n (spared t u r) h;
    marks = λ x now d e h i.
        ap (map (λ (y : OutboxEntry). y.event_id)) (P.update_rows outbox _ (publish_at now) d e h)
        ∙ map-update_where (λ (y : OutboxEntry). y.event_id) _ (publish_at now) (λ y. refl)
            (P.rows outbox d)
        ∙ i
        ∙ ap (map (λ (y : AuditEvent). y.id))
            (sym (P.update_others outbox events _ (publish_at now) d e (λ q. cc) h));
    logs = λ event a w u h.
        Recorded-IsAnnounced event w.db u.db (log_event-Logged P event w h).recorded;
    posts = λ b req _.
        post_transaction-Keeps P IsAnnounced (λ d e same. untouched d e (same events) (same outbox))
          b req λ result d e _ posted. Trail-IsAnnounced b posted.id d e posted.trail;
  }

  module _ (R : Limiters) (E : Engine P.Decimal) (J : Json P.Decimal) (s : TokenService) where
    -- If the outbox has one entry for each audit event, in the order of the events, and no other, this
    -- holds in every later state of the server, whatever requests it serves, however they end and
    -- whatever the database refuses.
    pub run-IsAnnounced :
        {t u : Server P R}
        → ◌⟶*◌ P R E J s t u
        → map (λ x. x.event_id) (P.rows outbox t.world.db)
          ≡ map (λ e. e.id) (P.rows events t.world.db)
        → map (λ x. x.event_id) (P.rows outbox u.world.db)
          ≡ map (λ e. e.id) (P.rows events u.world.db)
    unfolding IsAnnounced-kept
    run-IsAnnounced run = run-Keeps P IsAnnounced J IsAnnounced-kept (λ text req _. tt) R E s run
