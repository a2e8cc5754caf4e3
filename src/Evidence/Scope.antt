-- ===== src/Evidence/Scope.antt =====
-- packages/evidence/scope.py: an incident decides what may be queried for it. Times are
-- microseconds from the least time that Python can hold, below which it raises an overflow. The
-- pattern of label values is an argument. Sets are lists, of which only membership is read.
pub mod Window
pub mod Neighborhood
use incident_triage.Base.{
  ℕ, ◌-◌, ◌*◌, String, Bool, true, false, not, ◌||◌, Option, none, some, List, [], ◌∷◌, ◌++◌, ◌==◌,
  string_eq, lookup, contains, if◌then◌else◌, ltb, leb, to_set,
}
use Prim.Native.Nat.{min, max}
use incident_triage.Evidence.Errors.{
  incident_not_found, invalid_query, scope_violation, overflow, Checked, refused, granted,
}

abbrev pub seconds : ℕ → ℕ
seconds n = n * 1000000

-- packages/evidence/limits.py
abbrev pub max_window : ℕ
max_window = seconds 10800

abbrev pub min_window : ℕ
min_window = seconds 60

abbrev pub default_window : ℕ
default_window = seconds 1800

abbrev pub max_lookback_before_incident : ℕ
max_lookback_before_incident = seconds 86400

pub record ServiceEntry : Type 0 where
  pub name : String
  pub dependencies : List String
  pub repo_paths : List String

abbrev pub ServiceCatalog : Type 0
ServiceCatalog = List (String × ServiceEntry)

abbrev pub dependencies_of : Option ServiceEntry → List String
dependencies_of none = []
dependencies_of (some e) = e.dependencies

-- `name for name, e in services.items() if service in e.dependencies`
abbrev pub dependents : ServiceCatalog → String → List String
dependents [] service = []
dependents ((name, e) ∷ services) service =
    let rest = dependents services service in
    if contains e.dependencies service then name ∷ rest else rest

unfoldable pub neighborhood : ServiceCatalog → String → List String
neighborhood services service =
    service ∷ (dependencies_of (lookup service services) ++ dependents services service)

pub record AlertView : Type 0 where
  pub labels : List (String × String)

pub record IncidentView : Type 0 where
  pub id : ℕ
  pub service : String
  pub environment : String
  pub status : String
  pub created_at : ℕ
  pub alerts : List AlertView

pub record IncidentScope : Type 0 where
  pub incident_id : ℕ
  pub service : String
  pub environment : String
  pub status : String
  pub created_at : ℕ
  pub allowed_services : List String
  pub regions : List String
  pub alert_types : List String

-- `a.labels[key] for a in alerts if key in a.labels`
abbrev pub label_values : String → List AlertView → List String
label_values key [] = []
label_values key (a ∷ alerts) =
    let rest = label_values key alerts in
    elim (lookup key a.labels) [ none ↦ rest | some v ↦ v ∷ rest ]

unfoldable pub from_incident : IncidentView → ServiceCatalog → IncidentScope
from_incident incident catalog = record {
  incident_id = incident.id;
  service = incident.service;
  environment = incident.environment;
  status = incident.status;
  created_at = incident.created_at;
  allowed_services = neighborhood catalog incident.service;
  regions = to_set (label_values "region" incident.alerts);
  alert_types = to_set (label_values "alertname" incident.alerts);
}

-- `gateway` is the look-up of an incident.
unfoldable pub resolve_scope :
    (gateway : ℕ → Option IncidentView) → ServiceCatalog → ℕ → Checked IncidentScope
resolve_scope gateway catalog incident_id = elim (gateway incident_id) [
  | none ↦ refused incident_not_found
  | some incident ↦ granted (from_incident incident catalog)
]

-- `service or self.service`
abbrev pub target_or : Option String → String → String
target_or none own = own
target_or (some s) own = if s == "" then own else s

unfoldable pub service_or_default :
    (is_label_value : String → Bool) → IncidentScope → Option String → Checked String
service_or_default is_label_value scope service =
    let target = target_or service scope.service in
    if not (is_label_value target)
    then refused invalid_query
    else if not (contains scope.allowed_services target)
    then refused scope_violation
    else granted target

pub record Timestamp : Type 0 where
  pub at : ℕ
  pub is_aware : Bool

abbrev pub is_naive : Option Timestamp → Bool
is_naive none = false
is_naive (some t) = not t.is_aware

abbrev pub end_or : Option Timestamp → ℕ → ℕ
end_or none now = now
end_or (some t) now = t.at

-- The checks of a window whose ends are known.
unfoldable pub check_window : IncidentScope → ℕ → ℕ → ℕ → Checked (ℕ × ℕ)
check_window scope max_length start end =
    if leb end start
    then refused invalid_query
    else if ltb max_length (end - start)
    then refused invalid_query
    else if ltb (end - start) min_window
    then refused invalid_query
    else if ltb scope.created_at max_lookback_before_incident
    then refused overflow
    else if ltb start (scope.created_at - max_lookback_before_incident)
    then refused scope_violation
    else granted (start, end)

-- The window from a given start, or from the default one.
unfoldable pub window_to :
    IncidentScope → Option Timestamp → (default max_length end : ℕ) → Checked (ℕ × ℕ)
window_to scope (some t) default max_length end = check_window scope max_length t.at end
window_to scope none default max_length end =
    if ltb end default || ltb scope.created_at max_lookback_before_incident
    then refused overflow
    else check_window scope max_length
        (max (end - default) (scope.created_at - max_lookback_before_incident)) end

unfoldable pub window :
    IncidentScope → (start end : Option Timestamp) → (now default max_length : ℕ) → Checked (ℕ × ℕ)
window scope start end now default max_length =
    if is_naive start || is_naive end
    then refused invalid_query
    else window_to scope start default max_length (min (end_or end now) now)

abbrev pub requested_or : Option ℕ → ℕ → ℕ
requested_or none default = default
requested_or (some n) default = n

-- A request below 1 is 0.
unfoldable pub bounded_limit : Option ℕ → (default maximum : ℕ) → Checked ℕ
bounded_limit requested default maximum =
    let value = requested_or requested default in
    if ltb value 1 then refused invalid_query else granted (min value maximum)
