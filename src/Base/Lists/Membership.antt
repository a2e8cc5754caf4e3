-- ===== src/Base/Lists/Membership.antt =====
-- Membership in lists that are read as sets.
use mathlib.Core.Path.{◌≡◌, refl, subst, sym}
use mathlib.Core.Logic.{inl, inr}
use mathlib.Core.Bool.{Bool, true, false, ◌&&◌, ◌||◌}
use mathlib.Core.List.{List, [], ◌∷◌, ◌++◌}
use native.Mathlib.Omega.{arith}
use incident_triage.Base.Tests.{Bool-cases}
use incident_triage.Base.Equality.{Eq, ◌==◌, ==→eq, ==_refl}
use incident_triage.Base.Lists.{filter, contains, to_set, All}

pub All-map {ℓ κ μ} :
    {A : Type ℓ} (P : A → Type κ) (Q : A → Type μ) (xs : List A)
    → ((x : A) → P x → Q x)
    → All P xs
    → All Q xs
All-map P Q [] f h = tt
All-map P Q (x ∷ xs) f h = (f x h.0, All-map P Q xs f h.1)

pub All-append_left {ℓ κ} :
    {A : Type ℓ} (P : A → Type κ) (xs ys : List A) → All P (xs ++ ys) → All P xs
All-append_left P [] ys h = tt
All-append_left P (x ∷ xs) ys h = (h.0, All-append_left P xs ys h.1)

pub All-append_right {ℓ κ} :
    {A : Type ℓ} (P : A → Type κ) (xs ys : List A) → All P (xs ++ ys) → All P ys
All-append_right P [] ys h = h
All-append_right P (x ∷ xs) ys h = All-append_right P xs ys h.1

module _ {ℓ} {A : Type ℓ} ⦃e : Eq A⦄ where
  pub contains-All {κ} :
      (P : A → Type κ) (xs : List A) (a : A) → All P xs → contains xs a ≡ true → P a
  contains-All P [] a h c = absurd (apart c)
    where
      apart : false ≡ true → ⊥
      apart p = ground arith
  contains-All P (x ∷ xs) a h c = elim (Bool-cases (a == x)) [
    | inl same ↦ subst P (sym (==→eq a x same)) h.0
    | inr other ↦ contains-All P xs a h.1 (ground (arith, c, other))
  ]

  pub contains-append :
      (xs ys : List A) (a : A) → contains (xs ++ ys) a ≡ (contains xs a || contains ys a)
  contains-append [] ys a = refl
  contains-append (x ∷ xs) ys a = ground (arith, contains-append xs ys a)

  -- A filter keeps exactly the members that pass it.
  pub contains-filter :
      (p : A → Bool) (xs : List A) (a : A) → contains (filter p xs) a ≡ (p a && contains xs a)
  contains-filter p [] a = ground arith
  contains-filter p (x ∷ xs) a = elim (Bool-cases (a == x)) [
    | inl same ↦
        subst (λ y. contains (filter p (y ∷ xs)) a ≡ (p a && contains (y ∷ xs) a)) (==→eq a x same)
          (ground (arith, contains-filter p xs a, ==_refl a))
    | inr other ↦ ground (arith, contains-filter p xs a, other)
  ]

  -- What holds of a set's elements holds of the list that it was made from.
  pub All-to_set {κ} : (P : A → Type κ) (xs : List A) → All P (to_set xs) → All P xs
  All-to_set P [] h = tt
  All-to_set P (x ∷ xs) h = elim (Bool-cases (contains xs x)) [
    | inl again ↦
        let rest = All-to_set P xs (rw again at h) in (contains-All P xs x rest again, rest)
    | inr first ↦ let both = rw first at h in (both.0, All-to_set P xs both.1)
  ]

  pub to_set-All {κ} : (P : A → Type κ) (xs : List A) → All P xs → All P (to_set xs)
  to_set-All P [] h = tt
  to_set-All P (x ∷ xs) h = elim (Bool-cases (contains xs x)) [
    | inl again ↦ rw again (to_set-All P xs h.1)
    | inr first ↦ rw first (h.0, to_set-All P xs h.1)
  ]
