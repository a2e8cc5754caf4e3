-- ===== src/Incident/Row.antt =====
-- packages/incident/db/models.py and packages/incident/repository.py: an incident's and an
-- alert's row, the guarded change of an incident's status, and the count of firing alerts. The
-- columns that the modelled commands neither read nor write are left out.
use incident_triage.Base.{
  ℕ, ◌+◌, String, Bool, Option, none, some, List, if◌then◌else◌, ◌==◌, nat_eq, filter, length,
}
use incident_triage.Incident.Status.{IncidentStatus}

pub record IncidentRow : Type 0 where
  pub id : ℕ
  pub status : IncidentStatus
  pub severity : String
  pub service : String
  pub environment : String
  pub attempt_count : ℕ
  pub version : ℕ
  pub updated_at : ℕ

-- An alert of the incident at hand.
pub record AlertRow : Type 0 where
  pub id : ℕ
  pub is_firing : Bool

-- `UPDATE ... WHERE id = :id AND version = :expected`: `stored` is the row in the database and
-- `seen` the object whose version is expected; `none` if no row was updated.
unfoldable pub transition_incident_status :
    (stored seen : IncidentRow) → IncidentStatus → ℕ → Option IncidentRow
transition_incident_status stored seen to_status now =
    if stored.version == seen.version
    then some (record stored { status = to_status; version = seen.version + 1; updated_at = now })
    else none

unfoldable pub count_firing_alerts : List AlertRow → ℕ
count_firing_alerts alerts = length (filter (λ a. a.is_firing) alerts)
