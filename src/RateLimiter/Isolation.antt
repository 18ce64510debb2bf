-- ===== src/RateLimiter/Isolation.antt =====
-- A client's answers depend on its own requests only.
use finance_project.Prelude.{
  ℕ, String, Bool, true, false, some, List, [], ◌∷◌, filter, str_eq, eq_iff, ◌≡◌, refl, sym, ap,
  ap₂, ◌∙◌, subst, Bool-cases, inl, inr,
}
use finance_project.RateLimiter.{
  Limiters, Event, request, tick, Entries, loaded, get_limiter, admit, unless_idle, evict, run,
}

-- The ticks, and the requests from an address.
abbrev pub concerns : String → Event → Bool
concerns ip (request j _ _ _) = str_eq ip j
concerns ip (tick _) = true

abbrev pub answers_to : String → List (String × Bool) → List (String × Bool)
answers_to ip xs = filter (λ x. str_eq ip x.0) xs

module _ (R : Limiters) where
  admit_own :
      (ip : String) (now again asked : ℕ) (s t : Entries R)
      → s ip ≡ t ip
      → ((admit R ip now again asked s).0 ≡ (admit R ip now again asked t).0)
        × ((admit R ip now again asked s).1 ip ≡ (admit R ip now again asked t).1 ip)
  unfolding admit get_limiter
  admit_own ip now again asked s t same =
      let e = ap (λ o. R.allow asked (loaded R o now again).limiter) same in
      rw ((eq_iff ip ip).1 refl) (
        ap (λ x. x.0) e,
        ap₂ (λ o l. some (record (loaded R o now again) { limiter = l })) same (ap (λ x. x.1) e),
      )

  admit_other :
      (ip j : String) (now again asked : ℕ) (s : Entries R)
      → str_eq ip j ≡ false
      → (admit R j now again asked s).1 ip ≡ s ip
  unfolding admit get_limiter
  admit_other ip j now again asked s other = rw other refl

  -- The answers to a client, and its limiter, are those that it gets when no other client sends
  -- anything: they depend on its own requests, the ticks of the eviction, and its own entry.
  pub run_isolated :
      (ip : String) (es : List Event) (s t : Entries R)
      → s ip ≡ t ip
      → (answers_to ip (run R es s).0 ≡ answers_to ip (run R (filter (concerns ip) es) t).0)
        × ((run R es s).1 ip ≡ (run R (filter (concerns ip) es) t).1 ip)
  unfolding run evict
  run_isolated ip [] s t same = (refl, same)
  run_isolated ip (tick now ∷ es) s t same =
      run_isolated ip es (evict R now s) (evict R now t) (ap (unless_idle R now) same)
  run_isolated ip (request j now again asked ∷ es) s t same = elim (Bool-cases (str_eq ip j)) [
    | inl hit ↦
        let e = (eq_iff ip j).0 hit in
        let (answer, entry) = admit_own j now again asked s t (subst (λ k. s k ≡ t k) e same) in
        let agree =
          subst (λ k. (admit R j now again asked s).1 k ≡ (admit R j now again asked t).1 k) (sym e)
            entry in
        let (answers, later) =
          run_isolated ip es (admit R j now again asked s).1 (admit R j now again asked t).1
            agree in
        rw hit (rw hit (ap₂ (λ a xs. (j, a) ∷ xs) answer answers), later)
    | inr miss ↦ rw miss (
        run_isolated ip es (admit R j now again asked s).1 t
          (admit_other ip j now again asked s miss ∙ same))
  ]
