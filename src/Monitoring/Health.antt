-- ===== src/Monitoring/Health.antt =====
-- internal/monitoring/service.go: what the health endpoint answers.
use syncmesh.Common.{
  ◌≡◌, refl, ◌⊎◌, ◌∙◌, sym, inl, inr, String, some, [], ◌∷◌, eq_iff, eq_refl, text_cases,
  ne_by_test, Time, elapsed, Map, lookup, HasDistinctKeys, Enumerates, arith,
}
use syncmesh.Monitoring.State.{HealthStatus, Sample, Service, sampled}
use syncmesh.Monitoring.Checks.{overall, statuses_of, health_handler}

module _ {M : Type 0} (read : String → M) where
  -- Some registered check finds the process unhealthy.
  abbrev pub HasUnhealthy : Map (M → HealthStatus) → Type 0
  HasUnhealthy checks =
      (name : String) × (check : (M → HealthStatus)) × (lookup name checks ≡ some check)
      × ((check (read name)).status ≡ "unhealthy")

healthy_or_not : {s : String} → s ≡ "unhealthy" → s ≡ "healthy" → ⊥
healthy_or_not e f = ne_by_test "unhealthy" "healthy" refl (sym e ∙ f)

module _ {M : Type 0} (read : String → M) (begun ended : String → Time) where
  overall-unhealthy :
      (checks : Map (M → HealthStatus)) (name : String) (check : M → HealthStatus)
      → lookup name checks ≡ some check
      → (check (read name)).status ≡ "unhealthy"
      → overall (statuses_of read begun ended checks) ≡ "unhealthy"
  unfolding overall statuses_of lookup
  overall-unhealthy [] name check found bad = ground arith
  overall-unhealthy ((k, c) ∷ checks) name check found bad = ground (
    arith,
    eq_iff k name,
    eq_iff (c (read k)).status "unhealthy",
    overall-unhealthy checks name check,
  )

  overall-cases :
      (checks : Map (M → HealthStatus))
      → HasDistinctKeys checks
      → HasUnhealthy read checks ⊎ (overall (statuses_of read begun ended checks) ≡ "healthy")
  unfolding overall statuses_of lookup
  overall-cases [] d = inr refl
  overall-cases ((k, c) ∷ checks) (fresh, d) = elim (text_cases (c (read k)).status "unhealthy") [
    | inl (t, bad) ↦ inl (k, c, rw (eq_refl k) refl, bad)
    | inr (t, good) ↦ elim (overall-cases checks d) [
      | inl (name, check, found, bad) ↦ inl (name, check, ground (arith, eq_iff k name), bad)
      | inr e ↦ inr (rw t e)
    ]
  ]

  module _ (range : Map (M → HealthStatus) → Map (M → HealthStatus))
      (orders : (m : Map (M → HealthStatus)) → Enumerates (range m) m) where
    -- The health endpoint answers "unhealthy" with the code 503 if some registered check finds the
    -- process unhealthy, and "healthy" with 200 otherwise, in whatever order the checks run. It counts
    -- the request as one with status 200 in either case.
    pub health_handler-cases :
        (method : String) (start now finish : Time) (s : Service M)
        → let (response, counted) =
            health_handler read begun ended range method start now finish s in
          (HasUnhealthy read s.health_checks
              × (response.status ≡ "unhealthy")
              × (response.code ≡ 503)
            ⊎ (¬ HasUnhealthy read s.health_checks)
              × (response.status ≡ "healthy")
              × (response.code ≡ 200))
          × (counted.samples
              ≡ Sample.http_request_duration method "/health" (elapsed finish start)
                ∷ Sample.http_requests_total method "/health" "200"
                ∷ s.samples)
    unfolding health_handler sampled
    health_handler-cases method start now finish s = (
      elim (overall-cases (range s.health_checks) (orders s.health_checks).0) [
        | inl (name, check, found, bad) ↦
            let e = overall-unhealthy (range s.health_checks) name check found bad in
            inl ((name, check, sym ((orders s.health_checks).1 name) ∙ found, bad), e, rw e refl)
        | inr e ↦ inr (
          λ (name, check, found, bad).
              healthy_or_not
                (overall-unhealthy (range s.health_checks) name check
                  ((orders s.health_checks).1 name ∙ found) bad)
                e,
          e,
          rw e refl,
        )
      ],
      refl,
    )
