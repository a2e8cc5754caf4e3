-- ===== src/Remediation/Core/KillSwitch.antt =====
-- packages/incident/remediations.py: `set_kill_switch` and `_engaged_scopes`. The rows of kill
-- switches are the scopes that are engaged; a scope that is neither `"global"` nor a service's is
-- refused by the type `Scope`. Who changed a switch, when and why is left out.
use incident_triage.Base.{
  ◌≡◌, ◌≢◌, refl, Bool, true, false, not, List, [], ◌∷◌, string_eq, filter, if◌then◌else◌, arith,
  ==_refl, ==→eq, Bool-cases, inl, inr, ap,
}
use incident_triage.Remediation.Rows.{Scope}
use incident_triage.Remediation.Core.Execution.{scope_beq, is_engaged}

abbrev pub release_scope : Scope → List Scope → List Scope
release_scope scope = filter (λ s. not (scope_beq scope s))

unfoldable pub set_kill_switch : Scope → Bool → List Scope → List Scope
set_kill_switch scope engaged engaged_scopes =
    let released = release_scope scope engaged_scopes in
    if engaged then scope ∷ released else released

scope_beq_refl : (s : Scope) → scope_beq s s ≡ true
scope_beq_refl Scope.global = refl
scope_beq_refl (Scope.service s) = ==_refl s

scope_beq_eq : (s t : Scope) → scope_beq s t ≡ true → s ≡ t
scope_beq_eq Scope.global Scope.global h = refl
scope_beq_eq (Scope.service s) (Scope.service t) h = ap Scope.service (==→eq s t h)
scope_beq_eq Scope.global (Scope.service t) h = ground arith
scope_beq_eq (Scope.service s) Scope.global h = ground arith

is_engaged-released :
    (scope : Scope) (scopes : List Scope) → is_engaged scope (release_scope scope scopes) ≡ false
is_engaged-released scope [] = refl
is_engaged-released scope (s ∷ scopes) = elim (Bool-cases (scope_beq scope s)) [
  | inl same ↦ rw same (is_engaged-released scope scopes)
  | inr other ↦ rw (other, is_engaged-released scope scopes, other) refl
]

is_engaged-others :
    (scope t : Scope) (scopes : List Scope)
    → scope_beq t scope ≡ false
    → is_engaged t (release_scope scope scopes) ≡ is_engaged t scopes
is_engaged-others scope t [] apart = refl
is_engaged-others scope t (s ∷ scopes) apart = elim (Bool-cases (scope_beq scope s)) [
  | inl same ↦
      rw (same, is_engaged-others scope t scopes apart, ← scope_beq_eq scope s same, apart) refl
  | inr other ↦ rw (other, is_engaged-others scope t scopes apart) refl
]

scopes_apart : (s t : Scope) → t ≢ s → scope_beq t s ≡ false
scopes_apart s t different = elim (Bool-cases (scope_beq t s)) [
  | inl same ↦ absurd (different (scope_beq_eq t s same))
  | inr apart ↦ apart
]

-- A kill switch is afterwards as it was set, whatever it was before, and any other one is as it
-- was.
pub is_engaged-set_kill_switch :
    (scope t : Scope) (engaged : Bool) (scopes : List Scope)
    → t ≢ scope
    → (is_engaged scope (set_kill_switch scope engaged scopes) ≡ engaged)
      × (is_engaged t (set_kill_switch scope engaged scopes) ≡ is_engaged t scopes)
unfolding set_kill_switch
is_engaged-set_kill_switch scope t true scopes different =
    let apart = scopes_apart scope t different in
    (rw (scope_beq_refl scope) refl, rw (apart, is_engaged-others scope t scopes apart) refl)
is_engaged-set_kill_switch scope t false scopes different = (
  is_engaged-released scope scopes,
  is_engaged-others scope t scopes (scopes_apart scope t different),
)
