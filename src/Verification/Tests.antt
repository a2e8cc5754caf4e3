-- ===== src/Verification/Tests.antt =====
-- packages/domain/verification.py: an observation of a restarted service.
use incident_triage.Base.{◌≡◌, refl, true, false, none, some, [], ◌∷◌, text, null, arith, string_eq}
use incident_triage.Builtins.{sample_builtins}
use incident_triage.Verification.Policy.{health_status, alerts_no_new_firing, timed_out}
use incident_triage.Verification.Spec.{CheckSpec, VerificationSpec}
use incident_triage.Verification.Sample.{Sample, check_sample, evaluate_sample}
use incident_triage.Verification.Sample.Passing.{evaluate_sample-passed}
use incident_triage.Verification.Decision.{decide}
use incident_triage.Verification.Decision.Cases.{decide_iff}

abbrev healthy : CheckSpec
healthy = record {
  kind = health_status;
  metric = none;
  max_value = none;
  key = none;
  expected = text "healthy";
  definitive = false;
}

abbrev no_new_alerts : CheckSpec
no_new_alerts = record healthy { kind = alerts_no_new_firing; expected = null }

abbrev pub spec : VerificationSpec
spec = record {
  action_id = "restart_service";
  target_service = "checkout";
  grace = 45000000;
  window = 240000000;
  poll_interval = 15000000;
  timeout = 315000000;
  required_consecutive = 1;
  checks = healthy ∷ no_new_alerts ∷ [];
}

abbrev pub sample : Sample
sample = record {
  health = some (record { status = text "healthy"; signals = [] });
  deployment = none;
  config = none;
  runtime = none;
  new_firing_alerts = some 0;
  errors = [];
}

evaluate_sample-passed_example : (evaluate_sample sample_builtins spec sample).passed ≡ true
unfolding check_sample
evaluate_sample-passed_example =
    (evaluate_sample-passed sample_builtins sample spec).0.1 (refl, ((_, refl, refl), (refl, tt)))

decide_iff_example : (decide spec none 0 0 400 300).status ≡ timed_out
decide_iff_example =
    (decide_iff spec none 0 0 400 300 timed_out).1 (refl, omega arith, omega arith, refl)
