-- ===== src/Base/Lists.antt =====
-- Lists measured by native numbers; Python's `in`, `set`, `dict.get`, `any` and `all`.
pub mod Membership
use Prim.Native.Nat.{ℕ, suc, ◌+◌}
use mathlib.Core.Path.{◌≡◌, refl, subst}
use mathlib.Core.Logic.{◌⊎◌, inl, inr}
use mathlib.Core.Bool.{Bool, true, false, not, ◌&&◌, ◌||◌}
use mathlib.Core.Option.{Option, none, some}
use mathlib.Core.List.{List, [], ◌∷◌, ◌++◌}
use native.Mathlib.Omega.{arith}
use incident_triage.Base.Tests.{if◌then◌else◌, Bool-cases}
use incident_triage.Base.Equality.{Eq, ◌==◌}

module _ {ℓ} {A : Type ℓ} where
  abbrev pub length : List A → ℕ
  length [] = 0
  length (x ∷ xs) = suc (length xs)

  abbrev pub any : (A → Bool) → List A → Bool
  any p [] = false
  any p (x ∷ xs) = p x || any p xs

  abbrev pub all : (A → Bool) → List A → Bool
  all p [] = true
  all p (x ∷ xs) = p x && all p xs

  -- `[x for x in xs if p(x)]`
  abbrev pub filter : (A → Bool) → List A → List A
  filter p [] = []
  filter p (x ∷ xs) = let rest = filter p xs in if p x then x ∷ rest else rest

  -- `next((x for x in xs if p(x)), None)`
  abbrev pub find : (A → Bool) → List A → Option A
  find p [] = none
  find p (x ∷ xs) = let rest = find p xs in if p x then some x else rest

  abbrev pub is_empty : List A → Bool
  is_empty [] = true
  is_empty (x ∷ xs) = false

  -- Every element satisfies `P`.
  abbrev pub All {κ} : (A → Type κ) → List A → Type κ
  All P [] = Unit
  All P (x ∷ xs) = P x × All P xs

  -- Some element satisfies `P`.
  abbrev pub Any : (A → Type 0) → List A → Type 0
  Any P [] = ⊥
  Any P (x ∷ xs) = P x ⊎ Any P xs

  pub length-append : (xs ys : List A) → length (xs ++ ys) ≡ length xs + length ys
  length-append [] ys = omega arith
  length-append (x ∷ xs) ys = omega (arith, length-append xs ys)

  pub All-append {κ} : (P : A → Type κ) (xs ys : List A) → All P xs → All P ys → All P (xs ++ ys)
  All-append P [] ys h k = k
  All-append P (x ∷ xs) ys h k = (h.0, All-append P xs ys h.1 k)

  pub Any-middle :
      (P : A → Type 0) (xs : List A) (x : A) (ys : List A) → P x → Any P (xs ++ (x ∷ ys))
  Any-middle P [] x ys h = inl h
  Any-middle P (y ∷ xs) x ys h = inr (Any-middle P xs x ys h)

  pub All-not-Any :
      (P Q : A → Type 0) (xs : List A) → ((x : A) → P x → ¬ Q x) → All P xs → ¬ Any Q xs
  All-not-Any P Q [] apart h a = a
  All-not-Any P Q (x ∷ xs) apart h (inl q) = apart x h.0 q
  All-not-Any P Q (x ∷ xs) apart h (inr a) = All-not-Any P Q xs apart h.1 a

  pub find-All {κ} :
      (P : A → Type κ) (p : A → Bool) (xs : List A) {x : A} → All P xs → find p xs ≡ some x → P x
  find-All P p [] h e = cc
  find-All P p (y ∷ xs) h e = elim (Bool-cases (p y)) [
    | inl here ↦ subst P (cc (rw here at e)) h.0
    | inr later ↦ find-All P p xs h.1 (rw later at e)
  ]

  pub any-append_right : (p : A → Bool) (xs ys : List A) → any p ys ≡ true → any p (xs ++ ys) ≡ true
  any-append_right p [] ys h = h
  any-append_right p (x ∷ xs) ys h = ground (arith, any-append_right p xs ys h)

  pub any-append : (p : A → Bool) (xs ys : List A) → any p (xs ++ ys) ≡ (any p xs || any p ys)
  any-append p [] ys = refl
  any-append p (x ∷ xs) ys = ground (arith, any-append p xs ys)

module _ {ℓ} {A : Type ℓ} ⦃e : Eq A⦄ where
  -- `a in xs`
  abbrev pub contains : List A → A → Bool
  contains [] a = false
  contains (x ∷ xs) a = (a == x) || contains xs a

  -- `set(xs)`, each element once
  abbrev pub to_set : List A → List A
  to_set [] = []
  to_set (x ∷ xs) = let rest = to_set xs in if contains xs x then rest else x ∷ rest

  -- `set(xs) - set(ys)`, `set(xs) & set(ys)`
  abbrev pub difference : List A → List A → List A
  difference xs ys = filter (λ x. not (contains ys x)) xs

  abbrev pub intersection : List A → List A → List A
  intersection xs ys = filter (contains ys) xs

-- A `dict` as an association list; the first entry of a key counts.
module _ {ℓ κ} {K : Type κ} ⦃e : Eq K⦄ {V : Type ℓ} where
  abbrev pub lookup : K → List (K × V) → Option V
  lookup k [] = none
  lookup k ((j, v) ∷ m) = if k == j then some v else lookup k m

  -- `m.get(k, d)`
  abbrev pub get_or : K → V → List (K × V) → V
  get_or k d m = elim (lookup k m) [ none ↦ d | some v ↦ v ]
