-- ===== src/Evidence/Scope/Window.antt =====
-- packages/evidence/scope.py: the bounds of a query's window.
use incident_triage.Base.{
  ℕ, ◌+◌, ◌-◌, ◌≤◌, ◌≡◌, ◌||◌, Option, none, some, arith, ltb, Bool-cases, inl, inr, subst,
}
use Prim.Native.Nat.{min}
use incident_triage.Evidence.Errors.{Checked, refused, granted, EvidenceError}
use incident_triage.Evidence.Scope.{
  IncidentScope, Timestamp, is_naive, end_or, check_window, window_to, window, min_window,
  default_window, max_window, max_lookback_before_incident,
}

-- Not in the future, of an allowed length, and not long before the incident.
abbrev pub IsBounded : IncidentScope → ℕ → ℕ → ℕ × ℕ → Type 0
IsBounded scope now max_length (start, end) =
    (end ≤ now)
    × (start + min_window ≤ end)
    × (end ≤ start + max_length)
    × (scope.created_at ≤ start + max_lookback_before_incident)

abbrev WhenGranted : (ℕ × ℕ → Type 0) → Checked (ℕ × ℕ) → Type 0
WhenGranted P (refused e) = Unit
WhenGranted P (granted w) = P w

check_window-IsBounded :
    (scope : IncidentScope) (now max_length start end : ℕ)
    → end ≤ now
    → WhenGranted (IsBounded scope now max_length) (check_window scope max_length start end)
unfolding check_window
check_window-IsBounded scope now max_length start end h = ground arith

window_to-IsBounded :
    (scope : IncidentScope) (start : Option Timestamp) (now default max_length end : ℕ)
    → end ≤ now
    → WhenGranted (IsBounded scope now max_length) (window_to scope start default max_length end)
unfolding window_to
window_to-IsBounded scope (some t) now default max_length end h =
    check_window-IsBounded scope now max_length t.at end h
window_to-IsBounded scope none now default max_length end h =
    elim (Bool-cases (ltb end default || ltb scope.created_at max_lookback_before_incident)) [
      | inl early ↦ rw (early, WhenGranted) tt
      | inr late ↦ rw (late, WhenGranted) (check_window-IsBounded scope now max_length _ end h)
    ]

min_le : (m n : ℕ) → min m n ≤ n
min_le m n = omega arith

-- A window that is granted ends no later than now, has a length between the least and the
-- greatest allowed, and starts no earlier than the look-back before the incident was opened.
pub window-IsBounded :
    (scope : IncidentScope) (start end : Option Timestamp) (now default max_length s e : ℕ)
    → window scope start end now default max_length ≡ granted (s, e)
    → (e ≤ now)
      × (s + min_window ≤ e)
      × (e ≤ s + max_length)
      × (scope.created_at ≤ s + max_lookback_before_incident)
unfolding window
window-IsBounded scope start end now default max_length s e h =
    elim (Bool-cases (is_naive start || is_naive end)) [
      | inl naive ↦ absurd (apart s e (rw naive at h))
      | inr aware ↦ subst (WhenGranted (IsBounded scope now max_length)) (rw aware at h) (
          window_to-IsBounded scope start now default max_length (min (end_or end now) now)
            (min_le (end_or end now) now))
    ]
  where
    apart :
        (s e : ℕ) {x : EvidenceError} → ◌≡◌ {A = Checked (ℕ × ℕ)} (refused x) (granted (s, e)) → ⊥
    apart s e p = ground arith

-- A query with no start and no end, for an incident that is already open and whose look-back does
-- not reach before the least time, gets the default window before now.
pub window-default :
    (scope : IncidentScope) (now : ℕ)
    → max_lookback_before_incident ≤ scope.created_at
    → scope.created_at ≤ now
    → window scope none none now default_window max_window ≡ granted (now - default_window, now)
unfolding window window_to check_window
window-default scope now old opened = ground arith
