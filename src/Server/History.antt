-- ===== src/Server/History.antt =====
-- What no run of the server takes back: the audit trail and the ledger.
use finance_project.Prelude.{Bool, true, false, List, [], ◌∷◌, ◌++◌, ◌≡◌, ◌≢◌, refl, sym, ap, ◌∙◌}
use mathlib.Core.List.{IsPrefix, append_assoc, append-nil}
use finance_project.Models.{
  Uuid, Table, users, accounts, records, entries, events, outbox, tokens, keys,
}
use finance_project.Platform.{Platform}
use finance_project.Platform.Database.{cascades}
use finance_project.Http.Requests.{Json}
use finance_project.Tokens.{TokenService}
use finance_project.RateLimiter.{Limiters}
use finance_project.Ledger.Refinement.{Trail}
use finance_project.Kept.{is_reserved, KeptByStatements}
use finance_project.Audit.Atomic.{log_event-Logged}
use finance_project.Outbox.{publish_at}
use finance_project.Kept.Posting.{post_transaction-Keeps}
use finance_project.Kept.Steps.{run-Keeps}
use finance_project.Server.{Engine, Server, ◌⟶*◌}

IsPrefix-same :
    {A : Type 0} (first before after : List A)
    → after ≡ before
    → IsPrefix first before
    → IsPrefix first after
IsPrefix-same first before after same (new, e) = (new, e ∙ sym same)

IsPrefix-++ :
    {A : Type 0} (first before after more : List A)
    → after ≡ before ++ more
    → IsPrefix first before
    → IsPrefix first after
IsPrefix-++ first before after more grown (new, e) =
    (new ++ more, sym (append_assoc first new more) ∙ ap (λ rs. rs ++ more) e ∙ sym grown)

-- A table that is reserved is not one that is not.
pub apart : (t u : Table) → is_reserved t ≡ false → is_reserved u ≡ true → u ≢ t
apart t u free reserved same = cc (ap is_reserved same, free, reserved)

-- No other table's change reaches a reserved one.
pub spared : (t u : Table) → is_reserved u ≡ true → cascades t u ≡ false
spared users users r = cc
spared users accounts r = cc
spared users records r = cc
spared users tokens r = cc
spared users entries r = refl
spared users events r = refl
spared users outbox r = refl
spared users keys r = refl
spared accounts u r = refl
spared records u r = refl
spared entries u r = refl
spared events u r = refl
spared outbox u r = refl
spared tokens u r = refl
spared keys u r = refl

module _ (P : Platform) where
  -- Since a state, audit events and ledger entries have only been added.
  pub record IsExtended (d e : P.Db) : Type 0 where
    pub event_rows : IsPrefix (P.rows events d) (P.rows events e)
    pub entry_rows : IsPrefix (P.rows entries d) (P.rows entries e)

  module _ (d₀ : P.Db) where
    untouched :
        (d e : P.Db)
        → P.rows events e ≡ P.rows events d
        → P.rows entries e ≡ P.rows entries d
        → IsExtended d₀ d
        → IsExtended d₀ e
    untouched d e p q since = record {
      event_rows = IsPrefix-same _ _ _ p since.event_rows;
      entry_rows = IsPrefix-same _ _ _ q since.entry_rows;
    }

    -- A change of a table that is not reserved.
    elsewhere :
        (t : Table) (d e : P.Db)
        → is_reserved t ≡ false
        → ((u : Table) → u ≢ t → is_reserved u ≡ true → P.rows u e ≡ P.rows u d)
        → IsExtended d₀ d
        → IsExtended d₀ e
    elsewhere t d e free others =
        untouched d e (others events (apart t events free refl) refl)
          (others entries (apart t entries free refl) refl)

    Trail-IsPrefix :
        (audited : Bool) (id : Uuid) (d e : P.Db)
        → Trail P audited id d e
        → IsPrefix (P.rows events d₀) (P.rows events d)
        → IsPrefix (P.rows events d₀) (P.rows events e)
    Trail-IsPrefix false id d e (same, _) = IsPrefix-same _ _ _ same
    Trail-IsPrefix true id d e (event, _, r) = IsPrefix-++ _ _ _ (r.row ∷ []) r.event_row

    IsExtended-kept : KeptByStatements P (IsExtended d₀)
    IsExtended-kept = record {
      Allows = λ req. Unit;
      same = λ d e same. untouched d e (same events) (same entries);
      inserts = λ t r d e free h. elsewhere t d e free λ u n _. P.insert_others t u r d e n h;
      updates = λ t p f d e free h. elsewhere t d e free λ u n _. P.update_others t u p f d e n h;
      update_maps = λ t p m d e free h.
          elsewhere t d e free λ u n r. P.update_map_others t u p m d e n (spared t u r) h;
      deletes = λ t p d e free h.
          elsewhere t d e free λ u n r. P.delete_others t u p d e n (spared t u r) h;
      marks = λ x now d e h.
          untouched d e (P.update_others outbox events _ (publish_at now) d e (λ q. cc) h)
            (P.update_others outbox entries _ (publish_at now) d e (λ q. cc) h);
      logs = λ event a w u h since.
          let l = log_event-Logged P event w h in
          record {
            event_rows =
                IsPrefix-++ _ _ _ (l.recorded.row ∷ []) l.recorded.event_row since.event_rows;
            entry_rows =
                IsPrefix-same _ _ _ (l.others entries (λ q. cc) (λ q. cc)) since.entry_rows;
          };
      posts = λ b req _.
          post_transaction-Keeps P (IsExtended d₀)
            (λ d e same. untouched d e (same events) (same entries)) b req
            (λ result d e _ posted since. record {
              event_rows = Trail-IsPrefix b posted.id d e posted.trail since.event_rows;
              entry_rows = IsPrefix-++ _ _ _ _ posted.entry_rows since.entry_rows;
            });
    }

  module _ (R : Limiters) (E : Engine P.Decimal) (J : Json P.Decimal) (s : TokenService) where
    -- Whatever requests the server serves, however they end and whatever the database refuses, with
    -- the rounds of the eviction and of the publisher between them: the audit events and the ledger
    -- entries that a state holds are those that every later state holds first, in the same order.
    pub run-IsExtended : {t u : Server P R} → ◌⟶*◌ P R E J s t u → IsExtended t.world.db u.world.db
    unfolding IsExtended-kept
    run-IsExtended {t} run =
        run-Keeps P (IsExtended t.world.db) J (IsExtended-kept t.world.db) (λ text req _. tt) R E s
          run (record { event_rows = ([], append-nil _); entry_rows = ([], append-nil _) })
