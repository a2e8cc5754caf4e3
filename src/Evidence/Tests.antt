-- ===== src/Evidence/Tests.antt =====
-- packages/evidence/scope.py: queries for an incident of one service.
use incident_triage.Base.{◌+◌, ◌≤◌, ◌≡◌, refl, Bool, true, Option, none, some, [], ◌∷◌, string_eq}
use incident_triage.Evidence.Errors.{granted}
use incident_triage.Evidence.Scope.{
  ServiceCatalog, neighborhood, IncidentView, IncidentScope, from_incident, service_or_default,
  Timestamp, check_window, window_to, window, bounded_limit, min_window, max_window, default_window,
  max_lookback_before_incident,
}
use incident_triage.Evidence.Scope.Window.{window-IsBounded}
use incident_triage.Evidence.Scope.Neighborhood.{IsNeighbor, service_or_default-IsNeighbor}

abbrev catalog : ServiceCatalog
catalog =
    ("checkout", record { name = "checkout"; dependencies = "payments" ∷ []; repo_paths = [] }) ∷ []

abbrev incident : IncidentView
incident = record {
  id = 1;
  service = "checkout";
  environment = "production";
  status = "INVESTIGATING";
  created_at = 100000000000;
  alerts = [];
}

abbrev scope : IncidentScope
scope = record {
  incident_id = 1;
  service = "checkout";
  environment = "production";
  status = "INVESTIGATING";
  created_at = 100000000000;
  allowed_services = "checkout" ∷ "payments" ∷ [];
  regions = [];
  alert_types = [];
}

abbrev start : Option Timestamp
start = some (record { at = 99000000000; is_aware = true })

in_window :
    window scope start none 100500000000 default_window max_window
    ≡ granted (99000000000, 100500000000)
unfolding window window_to check_window
in_window = refl

window-IsBounded_example :
    (100500000000 ≤ 100500000000)
    × (99000000000 + min_window ≤ 100500000000)
    × (100500000000 ≤ 99000000000 + max_window)
    × (100000000000 ≤ 99000000000 + max_lookback_before_incident)
window-IsBounded_example =
    window-IsBounded scope start none 100500000000 default_window max_window 99000000000
      100500000000 in_window

targets_payments :
    service_or_default (λ s. true) (from_incident incident catalog) (some "payments")
    ≡ granted "payments"
unfolding service_or_default from_incident neighborhood
targets_payments = refl

service_or_default-IsNeighbor_example :
    IsNeighbor catalog "checkout" "payments" × (◌≡◌ {A = Bool} true true)
service_or_default-IsNeighbor_example =
    service_or_default-IsNeighbor (λ s. true) incident catalog (some "payments") "payments"
      targets_payments

limited : bounded_limit (some 50) 5 20 ≡ granted 20
unfolding bounded_limit
limited = refl
