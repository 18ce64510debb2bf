-- ===== src/Example/LimitTests.antt =====
-- The theorems on the rate limiter and on deleted users.
use finance_project.Prelude.{
  ℕ, ◌-◌, true, false, none, List, [], ◌∷◌, filter, ltb, if◌then◌else◌, ◌≡◌, refl,
}
use finance_project.Action.{ok, ◌>>=◌}
use finance_project.Session.{World, exec, query, create, before_create, fresh_uuid, transaction}
use finance_project.Audit.{build_audit_event, log_event}
use finance_project.Users.{get_user_by_id, audit_user, delete_user_body, delete_user}
use finance_project.Users.Deletion.{IsDeleted, delete_user-IsDeleted}
use finance_project.RateLimiter.{Limiters, Event, request, tick, run, entry_ttl}
use finance_project.RateLimiter.Isolation.{concerns, answers_to, run_isolated}
use finance_project.Example.Machine.{machine}
use finance_project.Example.Web.{running}

-- A limiter that never refills.
abbrev pub counting : Limiters
counting = record {
  Limiter = ℕ;
  new_limiter = λ events seconds burst. burst;
  allow = λ now left. if ltb 0 left then (true, left - 1) else (false, 0);
}

-- Two clients, with an eviction in between.
abbrev visits : List Event
visits =
    request "a" 1 1 1
    ∷ request "b" 2 2 2
    ∷ tick (entry_ttl - 5)
    ∷ request "a" 3 4 4
    ∷ request "b" 5 5 5
    ∷ []

run_isolated_example :
    (answers_to "a" (run counting visits (λ ip. none)).0
      ≡ answers_to "a" (run counting (filter (concerns "a") visits) (λ ip. none)).0)
    × ((run counting visits (λ ip. none)).1 "a"
        ≡ (run counting (filter (concerns "a") visits) (λ ip. none)).1 "a")
run_isolated_example = run_isolated counting "a" visits (λ ip. none) (λ ip. none) refl

abbrev after_deletion : World machine
after_deletion = (delete_user machine true "uuu" running).1

analyst_is_deleted : delete_user machine true "uuu" running ≡ (ok tt, after_deletion)
unfolding delete_user delete_user_body get_user_by_id audit_user build_audit_event log_event exec
    query create before_create fresh_uuid transaction ◌>>=◌
analyst_is_deleted = refl

delete_user-IsDeleted_example : IsDeleted machine "uuu" running.db after_deletion.db
delete_user-IsDeleted_example = delete_user-IsDeleted machine true "uuu" running analyst_is_deleted
