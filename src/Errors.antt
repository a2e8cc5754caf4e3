-- ===== src/Errors.antt =====
-- packages/domain/errors.py: the exceptions of the domain. A command that raises one leaves its
-- transaction uncommitted, so it returns no state.
use incident_triage.Base.{Bool, true, false, if◌then◌else◌, ◌≡◌, refl}

pub data DomainError : Type 0 where
  incident_not_found concurrent_modification invalid_incident_transition : DomainError
  investigation_not_found lease_lost remediation_not_found remediation_state : DomainError
  approval_mismatch approver_not_authorized evidence_ref_conflict : DomainError
  -- an `assert`, a built-in conversion or a constraint of the database that fails
  unexpected : DomainError

pub data Result {ℓ} (T : Type ℓ) : Type ℓ where
  -- the transaction commits
  ok : T → Result T
  -- it does not
  err : DomainError → Result T

infixl 5 ◌>>=◌ ◌>>◌
abbrev pub ◌>>=◌ {κ μ} : {S : Type κ} {T : Type μ} → Result S → (S → Result T) → Result T
err raised >>= next = err raised
ok value >>= next = next value

abbrev pub ◌>>◌ {κ} : {T : Type κ} → Result (Unit {0}) → Result T → Result T
checked >> rest = checked >>= λ passed. rest

-- `if test: raise e`
abbrev pub raise_if : Bool → DomainError → Result (Unit {0})
raise_if true e = err e
raise_if false e = ok tt

abbrev pub IsOk {ℓ} : {A : Type ℓ} → Result A → Type 0
IsOk (ok a) = Unit
IsOk (err e) = ⊥

-- What holds after a command that commits.
abbrev pub After {ℓ κ} : {A : Type ℓ} → (A → Type κ) → Result A → Type κ
After P (ok a) = P a
After P (err e) = Unit

pub After-map {ℓ κ} :
    {A : Type ℓ} (P Q : A → Type κ) (r : Result A) → ((a : A) → P a → Q a) → After P r → After Q r
After-map P Q (ok a) f h = f a h
After-map P Q (err e) f h = tt

pub After-bind {ℓ κ} :
    {A B : Type ℓ} (P : A → Type κ) (Q : B → Type κ) (r : Result A) (k : A → Result B)
    → ((a : A) → P a → After Q (k a))
    → After P r
    → After Q (r >>= k)
After-bind P Q (ok a) k f h = f a h
After-bind P Q (err e) k f h = tt

pub After-if {ℓ κ} :
    {A : Type ℓ} (P : A → Type κ) (b : Bool) (r s : Result A)
    → (b ≡ true → After P r)
    → (b ≡ false → After P s)
    → After P (if b then r else s)
After-if P true r s f g = f refl
After-if P false r s f g = g refl
