-- ===== src/Evidence/Scope/Neighborhood.antt =====
-- packages/evidence/scope.py: which services and limits a query may name.
use incident_triage.Base.{
  contains-append, ℕ, ◌≤◌, ◌≡◌, ◌⊎◌, inl, inr, Bool, true, not, Option, List, [], ◌∷◌, ◌==◌, String,
  string_eq, arith, Bool-cases, contains, lookup, Any, subst, if◌then◌else◌, ==→eq,
}
use incident_triage.Evidence.Errors.{
  Checked, refused, granted, EvidenceError, invalid_query, scope_violation,
}
use incident_triage.Evidence.Scope.{
  ServiceCatalog, dependencies_of, dependents, neighborhood, IncidentView, from_incident, target_or,
  service_or_default, bounded_limit,
}

-- The service itself, a service that it depends on, or one that depends on it.
abbrev pub IsNeighbor : ServiceCatalog → String → String → Type 0
IsNeighbor catalog service target =
    (target ≡ service)
    ⊎ (contains (dependencies_of (lookup service catalog)) target ≡ true)
    ⊎ Any (λ p. (target ≡ p.0) × (contains p.1.dependencies service ≡ true)) catalog

contains-dependents :
    (catalog : ServiceCatalog) (service target : String)
    → contains (dependents catalog service) target ≡ true
    → Any (λ p. (target ≡ p.0) × (contains p.1.dependencies service ≡ true)) catalog
contains-dependents [] service target h = ground arith
contains-dependents ((name, e) ∷ services) service target h =
    elim (Bool-cases (contains e.dependencies service)) [
      | inr other ↦ inr (contains-dependents services service target (rw other at h))
      | inl depends ↦ elim (Bool-cases (target == name)) [
        | inl same ↦ inl (==→eq target name same, depends)
        | inr different ↦
            inr (contains-dependents services service target (ground (arith, rw depends at h)))
      ]
    ]

neighborhood-IsNeighbor :
    (catalog : ServiceCatalog) (service target : String)
    → contains (neighborhood catalog service) target ≡ true
    → IsNeighbor catalog service target
unfolding neighborhood
neighborhood-IsNeighbor catalog service target h = elim (Bool-cases (target == service)) [
  | inl same ↦ inl (==→eq target service same)
  | inr different ↦ elim (Bool-cases (contains (dependencies_of (lookup service catalog)) target)) [
    | inl depends ↦ inr (inl depends)
    | inr independent ↦ inr (
        inr (
          contains-dependents catalog service target (
            ground (
              arith,
              contains-append (dependencies_of (lookup service catalog))
                  (dependents catalog service) target,
            ))))
  ]
]

granted_target :
    (is_label_value : String → Bool) (allowed : List String) (t target : String)
    → (if not (is_label_value t)
        then refused invalid_query
        else if not (contains allowed t)
        then refused scope_violation
        else granted t)
      ≡ granted target
    → (contains allowed target ≡ true) × (is_label_value target ≡ true)
granted_target is_label_value allowed t target h = elim (Bool-cases (is_label_value t)) [
  | inr malformed ↦ absurd (apart target (rw malformed at h))
  | inl formed ↦ elim (Bool-cases (contains allowed t)) [
    | inr outside ↦ absurd (apart target (rw (formed, outside) at h))
    | inl inside ↦
        let same : t ≡ target = granted_inj t target (rw (formed, inside) at h) in
        (
          subst (λ x. contains allowed x ≡ true) same inside,
          subst (λ x. is_label_value x ≡ true) same formed,
        )
  ]
]
  where
    apart : (s : String) {x : EvidenceError} → ◌≡◌ {A = Checked String} (refused x) (granted s) → ⊥
    apart s p = ground arith

    granted_inj : (a b : String) → ◌≡◌ {A = Checked String} (granted a) (granted b) → a ≡ b
    granted_inj a b p = cc

-- A query within an incident's scope targets the incident's service or a direct neighbor of it
-- in the service catalog, under a well-formed name, whatever the caller asks for.
pub service_or_default-IsNeighbor :
    (is_label_value : String → Bool) (incident : IncidentView) (catalog : ServiceCatalog)
    (service : Option String) (target : String)
    → service_or_default is_label_value (from_incident incident catalog) service ≡ granted target
    → IsNeighbor catalog incident.service target × (is_label_value target ≡ true)
unfolding service_or_default from_incident
service_or_default-IsNeighbor is_label_value incident catalog service target h =
    let (allowed, formed) =
      granted_target is_label_value (neighborhood catalog incident.service)
        (target_or service incident.service) target h in
    (neighborhood-IsNeighbor catalog incident.service target allowed, formed)

-- A limit that is granted lies between 1 and the greatest allowed one.
pub bounded_limit-bounds :
    (requested : Option ℕ) (default maximum n : ℕ)
    → 1 ≤ maximum
    → bounded_limit requested default maximum ≡ granted n
    → (1 ≤ n) × (n ≤ maximum)
unfolding bounded_limit
bounded_limit-bounds requested default maximum n some_allowed h = ground arith
