-- ===== src/Investigation/Hypothesis/Acceptance.antt =====
-- packages/domain/investigation.py: when an update of a hypothesis is accepted.
use incident_triage.Base.{
  ℕ, ◌≡◌, ◌≢◌, ◌↔◌, refl, ◌⊎◌, inl, inr, String, ◌==◌, eq_iff, Bool-cases, Bool, true, false, ◌&&◌,
  Option, none, some, List, [], ◌∷◌, ◌++◌, string_eq, nat_eq, is_empty, is_some, contains, All,
  arith,
}
use incident_triage.Investigation.Problems.{
  filter-is_empty, difference-is_empty, problem_if-append, problem_if-none, not-false, false-not,
}
use incident_triage.Investigation.Hypothesis.{
  HypothesisStatus, SettableStatus, HypothesisUpdate, HypothesisSnapshot, is_blank, is_changed,
  is_final, rejects, supports, cited, supporting_of, contradicting_of, existing_problems,
  check_hypothesis_update,
}

-- What is given does not differ from what was set before.
abbrev pub Agrees : Option String → Option String → Type 0
Agrees given fixed = (given ≡ none) ⊎ (fixed ≡ none) ⊎ (given ≡ fixed)

-- A new hypothesis has a description that is not empty, a category and a component; one that
-- exists keeps the category and the component that it has, and is still open.
abbrev pub IsAllowed : HypothesisUpdate → Option HypothesisSnapshot → Type 0
IsAllowed update none =
    ((s : String) × (update.description ≡ some s) × (s ≢ ""))
    × ((c : String) × (update.cause_category ≡ some c))
    × ((c : String) × (update.component ≡ some c))
IsAllowed update (some h) =
    Agrees update.cause_category h.cause_category
    × Agrees update.component h.component
    × ((h.status ≡ HypothesisStatus.active)
        ⊎ (h.status ≡ HypothesisStatus.supported)
        ⊎ (h.status ≡ HypothesisStatus.weakened))

pub record IsAcceptable (update : HypothesisUpdate) (existing : Option HypothesisSnapshot)
    (accessible : List ℕ) : Type 0 where
  pub grounded : All (λ e. contains accessible e ≡ true) (cited update)
  pub one_sided :
      All (λ e. contains update.contradicting_evidence_ids e ≡ false) update.supporting_evidence_ids
  pub allowed : IsAllowed update existing
  pub rejection :
      (update.status ≢ some SettableStatus.rejected)
      ⊎ ((update.contradicting_evidence_ids ++ contradicting_of existing) ≢ [])
  pub support :
      (update.status ≢ some SettableStatus.supported)
      ⊎ ((update.supporting_evidence_ids ++ supporting_of existing) ≢ [])

is_blank_iff : (o : Option String) → (is_blank o ≡ false) ↔ ((s : String) × (o ≡ some s) × (s ≢ ""))
is_blank_iff none = (λ h. cc, λ h. cc (h.1))
is_blank_iff (some s) = (
  λ h. (s, refl, λ e. cc (h, (eq_iff s "").1 e)),
  λ h. elim (Bool-cases (s == "")) [
    | inl blank ↦ absurd (h.2 (cc (h.1, (eq_iff s "").0 blank)))
    | inr filled ↦ filled
  ],
)

is_some_iff : (o : Option String) → (is_some o ≡ true) ↔ ((s : String) × (o ≡ some s))
is_some_iff none = (λ h. cc, λ h. cc (h.1))
is_some_iff (some s) = (λ h. (s, refl), λ h. refl)

is_changed_iff :
    (given fixed : Option String) → (is_changed given fixed ≡ false) ↔ Agrees given fixed
is_changed_iff none fixed = (λ h. inl refl, λ h. refl)
is_changed_iff (some a) none = (λ h. inr (inl refl), λ h. refl)
is_changed_iff (some a) (some b) = ground (arith, eq_iff a b)

pub is_final_iff :
    (s : HypothesisStatus)
    → (is_final s ≡ false) ↔ (
        (s ≡ HypothesisStatus.active)
        ⊎ (s ≡ HypothesisStatus.supported)
        ⊎ (s ≡ HypothesisStatus.weakened))
is_final_iff s = ground arith

rejects_iff : (o : Option SettableStatus) → (rejects o ≡ false) ↔ (o ≢ some SettableStatus.rejected)
rejects_iff o = ground arith

supports_iff :
    (o : Option SettableStatus) → (supports o ≡ false) ↔ (o ≢ some SettableStatus.supported)
supports_iff o = ground arith

is_empty_iff : (xs : List ℕ) → (is_empty xs ≡ false) ↔ (xs ≢ [])
is_empty_iff [] = (λ h. cc, λ h. absurd (h refl))
is_empty_iff (x ∷ xs) = (λ h e. cc, λ h. refl)

existing_problems-IsAllowed :
    (update : HypothesisUpdate) (existing : Option HypothesisSnapshot)
    → (existing_problems update existing ≡ []) ↔ IsAllowed update existing
existing_problems-IsAllowed update none = ground (
  arith,
  is_blank_iff update.description,
  is_some_iff update.cause_category,
  is_some_iff update.component,
)
existing_problems-IsAllowed update (some h) = ground (
  arith,
  is_changed_iff update.cause_category h.cause_category,
  is_changed_iff update.component h.component,
  is_final_iff h.status,
)

append_empty {ℓ} : {A : Type ℓ} (xs ys : List A) → ((xs ++ ys) ≡ []) ↔ ((xs ≡ []) × (ys ≡ []))
append_empty [] ys = (λ h. (refl, h), λ h. h.1)
append_empty (x ∷ xs) ys = (λ h. ground arith, λ h. ground arith)

and_false : (a b : Bool) → ((a && b) ≡ false) ↔ ((a ≡ false) ⊎ (b ≡ false))
and_false a b = ground arith

sum_map {ℓ κ} : {A B : Type ℓ} {C D : Type κ} → (A → C) → (B → D) → A ⊎ B → C ⊎ D
sum_map f g (inl a) = inl (f a)
sum_map f g (inr b) = inr (g b)

rejection_iff :
    (o : Option SettableStatus) (xs : List ℕ)
    → ((rejects o && is_empty xs) ≡ false) ↔ ((o ≢ some SettableStatus.rejected) ⊎ (xs ≢ []))
rejection_iff o xs = (
  λ h. sum_map (rejects_iff o).0 (is_empty_iff xs).0 ((and_false _ _).0 h),
  λ h. (and_false _ _).1 (sum_map (rejects_iff o).1 (is_empty_iff xs).1 h),
)

support_iff :
    (o : Option SettableStatus) (xs : List ℕ)
    → ((supports o && is_empty xs) ≡ false) ↔ ((o ≢ some SettableStatus.supported) ⊎ (xs ≢ []))
support_iff o xs = (
  λ h. sum_map (supports_iff o).0 (is_empty_iff xs).0 ((and_false _ _).0 h),
  λ h. (and_false _ _).1 (sum_map (supports_iff o).1 (is_empty_iff xs).1 h),
)

-- An update has no problem exactly when all evidence that it cites is accessible and on one side;
-- a new hypothesis has a description that is not empty, a category and a component, and one that
-- exists is active, supported or weakened and keeps the category and the component that were
-- set; and a rejection has contradicting evidence and a support supporting evidence, of the
-- update or from before.
pub check_hypothesis_update-IsAcceptable :
    (update : HypothesisUpdate) (existing : Option HypothesisSnapshot) (accessible : List ℕ)
    → (check_hypothesis_update update existing accessible ≡ [])
      ↔ IsAcceptable update existing accessible
unfolding check_hypothesis_update
check_hypothesis_update-IsAcceptable update existing accessible = (
  λ h.
      let (a, ha) = (problem_if-append _ _ _).0 h in
      let (b, hb) = (problem_if-append _ _ _).0 ha in
      let (c, hc) = (append_empty _ _).0 hb in
      let (d, hd) = (problem_if-append _ _ _).0 hc in
      record {
        grounded = (difference-is_empty _ _).0 (not-false _ a);
        one_sided = (filter-is_empty _ _).0 (not-false _ b);
        allowed = (existing_problems-IsAllowed update existing).0 c;
        rejection = (rejection_iff update.status _).0 d;
        support = (support_iff update.status _).0 ((problem_if-none _ _).0 hd);
      },
  λ m. (problem_if-append _ _ _).1 (
    false-not _ ((difference-is_empty _ _).1 m.grounded),
    (problem_if-append _ _ _).1 (
      false-not _ ((filter-is_empty _ _).1 m.one_sided),
      (append_empty _ _).1 (
        (existing_problems-IsAllowed update existing).1 m.allowed,
        (problem_if-append _ _ _).1 (
          (rejection_iff update.status _).1 m.rejection,
          (problem_if-none _ _).1 ((support_iff update.status _).1 m.support),
        ),
      ),
    ),
  ),
)
