-- ===== src/Verification/Decision.antt =====
-- packages/domain/verification.py: `decide`, the verdict after a poll or at the deadline. Times
-- are microseconds. A reason holds what its text is printed from.
pub mod Cases
use incident_triage.Base.{
  ℕ, Bool, true, false, Option, none, some, List, [], filter, leb, if◌then◌else◌, nat_eq, ◌==◌,
}
use incident_triage.Verification.Policy.{VerificationStatus, running, passed, failed, timed_out}
use incident_triage.Verification.Spec.{VerificationSpec}
use incident_triage.Verification.Sample.{CheckResult, ObservationResult}

pub data Reason : Type 0 where
  check_failed : CheckResult → Reason
  no_conclusive_observation : Reason
  window_closed : (successes required : ℕ) → (failing : List CheckResult) → Reason

pub record Decision : Type 0 where
  pub status : VerificationStatus
  pub reason : Option Reason

-- `c.ok is False`
abbrev pub is_failing : CheckResult → Bool
is_failing r = elim r.ok [ some false ↦ true | _ ↦ false ]

abbrev pub definitive : Option ObservationResult → Option CheckResult
definitive none = none
definitive (some r) = r.definitive_failure

abbrev failing_checks : Option ObservationResult → List CheckResult
failing_checks none = []
failing_checks (some r) = filter is_failing r.checks

unfoldable pub decide :
    VerificationSpec
    → (latest : Option ObservationResult)
    → (consecutive_successes conclusive_observations now deadline : ℕ) → Decision
decide spec latest consecutive_successes conclusive_observations now deadline =
    elim (definitive latest) [
      | some c ↦ record { status = failed; reason = some (check_failed c) }
      | none ↦
          if leb spec.required_consecutive consecutive_successes
          then record { status = passed; reason = none }
          else if leb deadline now
          then if conclusive_observations == 0
            then record { status = timed_out; reason = some no_conclusive_observation }
            else record {
              status = failed;
              reason = some (
                  window_closed consecutive_successes spec.required_consecutive
                    (failing_checks latest));
            }
          else record { status = running; reason = none }
    ]
