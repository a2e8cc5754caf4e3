-- ===== src/Investigation/Problems.antt =====
-- packages/domain/investigation.py: lists of problems, to which each failed test adds one.
use incident_triage.Base.{
  ◌≡◌, ◌↔◌, refl, Bool, true, false, not, List, [], ◌∷◌, ◌++◌, is_empty, filter, difference,
  contains, All, Any, arith, ℕ, nat_eq,
}

-- `if test: problems.append(p)`
abbrev pub problem_if {ℓ} : {P : Type ℓ} → Bool → P → List P
problem_if true p = p ∷ []
problem_if false p = []

-- A filter keeps nothing exactly when nothing passes it.
pub filter-is_empty {ℓ} :
    {A : Type ℓ} (p : A → Bool) (xs : List A)
    → (is_empty (filter p xs) ≡ true) ↔ All (λ x. p x ≡ false) xs
filter-is_empty p [] = (λ h. tt, λ h. refl)
filter-is_empty p (x ∷ xs) = ground (arith, filter-is_empty p xs)

-- and something exactly when something does
pub filter-Any :
    {A : Type 0} (p : A → Bool) (xs : List A)
    → (is_empty (filter p xs) ≡ false) ↔ Any (λ x. p x ≡ true) xs
filter-Any p [] = (λ h. ground arith, λ h. absurd h)
filter-Any p (x ∷ xs) = ground (arith, filter-Any p xs)

-- One more test adds no problem exactly when it fails and the others add none.
pub problem_if-append {ℓ} :
    {P : Type ℓ} (b : Bool) (p : P) (rest : List P)
    → ((problem_if b p ++ rest) ≡ []) ↔ ((b ≡ false) × (rest ≡ []))
problem_if-append true p rest = (λ h. ground arith, λ h. ground arith)
problem_if-append false p rest = (λ h. (refl, h), λ h. h.1)

pub problem_if-none {ℓ} : {P : Type ℓ} (b : Bool) (p : P) → (problem_if b p ≡ []) ↔ (b ≡ false)
problem_if-none true p = (λ h. ground arith, λ h. ground arith)
problem_if-none false p = (λ h. refl, λ h. refl)

pub not-false : (b : Bool) → not b ≡ false → b ≡ true
not-false b h = ground arith

pub false-not : (b : Bool) → b ≡ true → not b ≡ false
false-not b h = ground arith

pub difference-is_empty :
    (xs ys : List ℕ) → (is_empty (difference xs ys) ≡ true) ↔ All (λ x. contains ys x ≡ true) xs
difference-is_empty [] ys = (λ h. tt, λ h. refl)
difference-is_empty (x ∷ xs) ys = ground (arith, difference-is_empty xs ys)
