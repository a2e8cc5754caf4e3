-- ===== src/Verification/Decision/Cases.antt =====
-- packages/domain/verification.py: when `decide` gives which verdict.
use incident_triage.Base.{ℕ, ◌≤◌, ◌<◌, ◌≡◌, ◌↔◌, true, Option, none, arith, Option-cases, inl, inr}
use incident_triage.Verification.Policy.{
  VerificationStatus, pending, running, passed, failed, timed_out, is_terminal,
}
use incident_triage.Verification.Spec.{VerificationSpec}
use incident_triage.Verification.Sample.{ObservationResult}
use incident_triage.Verification.Decision.{definitive, decide}

module _ (spec : VerificationSpec) (latest : Option ObservationResult)
    (successes conclusive now deadline : ℕ) where
  -- Each verdict with the condition under which it is reached; a definitive failure comes
  -- before a streak, and a streak before the deadline.
  abbrev pub Reached : VerificationStatus → Type 0
  Reached passed = (definitive latest ≡ none) × (spec.required_consecutive ≤ successes)
  Reached timed_out =
      (definitive latest ≡ none)
      × (successes < spec.required_consecutive)
      × (deadline ≤ now)
      × (conclusive ≡ 0)
  Reached failed =
      (definitive latest ≡ none)
      → (successes < spec.required_consecutive) × (deadline ≤ now) × (0 < conclusive)
  Reached running =
      (definitive latest ≡ none) × (successes < spec.required_consecutive) × (now < deadline)
  Reached pending = ⊥

  -- `decide` gives a verdict exactly when that verdict's condition holds: the four conditions
  -- exclude one another and leave no case out.
  pub decide_iff :
      (s : VerificationStatus)
      → ((decide spec latest successes conclusive now deadline).status ≡ s) ↔ Reached s
  unfolding decide
  decide_iff running = elim (Option-cases (definitive latest)) [
    | inl e ↦ rw (e, decide) (ground arith)
    | inr (c, e) ↦ rw (e, decide) (ground arith)
  ]
  decide_iff s = elim (Option-cases (definitive latest)) [
    | inl e ↦ rw (e, decide) (ground arith)
    | inr (c, e) ↦ rw (e, decide) (ground arith)
  ]

  -- At the deadline there is a verdict.
  pub decide-IsTerminal :
      deadline ≤ now
      → is_terminal (decide spec latest successes conclusive now deadline).status ≡ true
  unfolding decide
  decide-IsTerminal late = ground arith
