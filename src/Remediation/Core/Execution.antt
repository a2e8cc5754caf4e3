-- ===== src/Remediation/Core/Execution.antt =====
-- packages/incident/remediations.py: `claim_execution`, with `_execution_blocker`.
use incident_triage.Base.{
  ℕ, ◌+◌, ◌*◌, String, Bool, true, false, not, ◌&&◌, ◌||◌, Option, none, some, List, [], ◌∷◌,
  if◌then◌else◌, ◌==◌, nat_eq, string_eq, option_eq, contains, leb, ltb, is_some,
}
use Prim.Native.Nat.{max}
use incident_triage.Builtins.{Builtins}
use incident_triage.Errors.{unexpected, Result, ok, err, ◌>>=◌}
use incident_triage.Incident.Status.{escalated}
use incident_triage.Remediation.Status.{RemediationStatus, remediation_status_eq}
use incident_triage.Remediation.Catalog.{Validator, ActionCatalogEntry, validate, get_entry}
use incident_triage.Remediation.Rows.{
  ExecutionStatus, ApprovalDecision, Scope, Code, TimelineEvent, remediation_cancelled,
  remediation_started, RemediationRow, ApprovalRow, ExecutionRow, Db,
}
use incident_triage.Remediation.Core.{emit, note, transition, finish_failed, finish_cancelled}
use incident_triage.Policy.{catalog_version}

-- What the service is built with: the parameter models, the services of the topology, Python's
-- conversions, and the time scale of verifications in millionths.
pub record Environment : Type 0 where
  pub validator : Validator
  pub services : List String
  pub builtins : Builtins
  pub time_scale : ℕ

pub data Mode : Type 0 where
  execute reconcile : Mode

pub record ExecutionTicket : Type 0 where
  pub mode : Mode
  pub execution_id : ℕ
  pub attempt : ℕ
  pub deadline : ℕ

abbrev pub scope_beq : Scope → Scope → Bool
scope_beq Scope.global Scope.global = true
scope_beq (Scope.service s) (Scope.service t) = s == t
scope_beq _ _ = false

abbrev pub is_engaged : Scope → List Scope → Bool
is_engaged s [] = false
is_engaged s (t ∷ ts) = scope_beq s t || is_engaged s ts

-- `approval` is an approval of the row's exact proposal under its policy decision.
abbrev pub approval_binds : Option ApprovalRow → RemediationRow → Bool
approval_binds none row = false
approval_binds (some a) row =
    elim a.decision [ ApprovalDecision.approved ↦ true | _ ↦ false ]
    && (a.proposal_hash == row.proposal_hash)
    && (a.policy_decision_id == row.policy_decision_id)

-- `_execution_blocker`, after the switches and the approval.
abbrev pub entry_blocker : Environment → RemediationRow → Option ActionCatalogEntry → Option Code
entry_blocker env row none = some Code.catalog_changed
entry_blocker env row (some entry) =
    if not (row.catalog_version == catalog_version)
    then some Code.catalog_changed
    else if not (is_some (validate env.validator entry row.parameters))
    then some Code.invalid_parameters
    else if not (contains env.services row.target_service)
    then some Code.target_invalid
    else if leb entry.max_attempts row.execution_attempts
    then some Code.attempts_exhausted
    else none

unfoldable pub execution_blocker : Environment → Db → Option ActionCatalogEntry → Option Code
execution_blocker env db entry =
    if is_engaged Scope.global db.engaged_scopes
      || is_engaged (Scope.service db.row.target_service) db.engaged_scopes
    then some Code.kill_switch
    else if not (approval_binds db.approval db.row)
    then some Code.approval_invalid
    else entry_blocker env db.row entry

abbrev pub is_kill_switch : Code → Bool
is_kill_switch Code.kill_switch = true
is_kill_switch _ = false

abbrev pub is_running : ExecutionStatus → Bool
is_running ExecutionStatus.running = true
is_running _ = false

abbrev pub is_open : ExecutionStatus → Bool
is_open ExecutionStatus.running = true
is_open ExecutionStatus.unknown = true
is_open _ = false

abbrev pub is_claimable : RemediationStatus → Bool
is_claimable RemediationStatus.approved = true
is_claimable RemediationStatus.executing = true
is_claimable _ = false

abbrev pub lease_is_live : ℕ → RemediationRow → Bool
lease_is_live now row = elim row.lease_expires_at [ none ↦ false | some t ↦ ltb now t ]

abbrev pub ticket_of : Mode → ExecutionRow → ExecutionTicket
ticket_of mode e = record {
  mode = mode;
  execution_id = e.id;
  attempt = e.attempt_number;
  deadline = e.deadline_at;
}

-- The worker that held the latest execution died: its outcome is unknown.
unfoldable pub interrupt :
    String → ℕ → ℕ → ExecutionRow → List ExecutionRow → Db → Db × Option ExecutionTicket
interrupt owner lease now latest earlier db =
    let interrupted = record latest { status = ExecutionStatus.unknown; completed_at = some now } in
    (
      note TimelineEvent.execution_interrupted (some db.row.status) db.row.status (record db {
        executions = interrupted ∷ earlier;
        row = record (db.row) {
          execution_status = some ExecutionStatus.unknown;
          lease_owner = some owner;
          lease_expires_at = some (now + lease);
        };
      }),
      some (ticket_of reconcile interrupted),
    )

-- A new attempt, once nothing blocks it.
unfoldable pub begin_attempt :
    String → ℕ → ℕ → ActionCatalogEntry → Db → Result (Db × Option ExecutionTicket)
begin_attempt owner lease now entry db =
    let attempt = db.row.execution_attempts + 1 in
    let execution : ExecutionRow = record {
      id = db.next_id;
      attempt_number = attempt;
      status = ExecutionStatus.running;
      owner = owner;
      started_at = now;
      deadline_at = now + entry.timeout_seconds * 1000000;
      completed_at = none;
    } in
    let begun = record db {
      executions = execution ∷ db.executions;
      next_id = db.next_id + 1;
      row = record (db.row) {
        execution_attempts = attempt;
        execution_status = some ExecutionStatus.running;
        lease_owner = some owner;
        lease_expires_at = some (now + max lease ((entry.timeout_seconds + 30) * 1000000));
      };
    } in
    transition now RemediationStatus.executing TimelineEvent.execution_started begun >>= λ started.
    ok (emit remediation_started started, some (ticket_of execute execution))

abbrev pub no_ticket : Db → Result (Db × Option ExecutionTicket)
no_ticket db = ok (db, none)

unfoldable pub refuse_attempt : ℕ → Code → Db → Result (Db × Option ExecutionTicket)
refuse_attempt now code db =
    (if is_kill_switch code
      then finish_cancelled now TimelineEvent.cancelled Code.kill_switch escalated
          remediation_cancelled db
      else finish_failed now code db)
    >>= no_ticket

unfoldable pub attempt_execution :
    Environment
    → String
    → ℕ
    → ℕ
    → Option ActionCatalogEntry
    → Db
    → Result (Db × Option ExecutionTicket)
attempt_execution env owner lease now entry db = elim (execution_blocker env db entry) [
  | some code ↦ refuse_attempt now code db
  | none ↦ elim entry [ none ↦ err unexpected | some e ↦ begin_attempt owner lease now e db ]
]

-- `claim_execution`, on the executions, of which the latest stands first.
unfoldable pub claim_with :
    Environment → String → ℕ → ℕ → List ExecutionRow → Db → Result (Db × Option ExecutionTicket)
claim_with env owner lease now [] db =
    attempt_execution env owner lease now (get_entry db.row.action_id) db
claim_with env owner lease now (latest ∷ earlier) db =
    if is_running latest.status
    then if lease_is_live now db.row
      then no_ticket db
      else ok (interrupt owner lease now latest earlier db)
    else attempt_execution env owner lease now (get_entry db.row.action_id) db

unfoldable pub claim_execution :
    Environment → String → ℕ → ℕ → Db → Result (Db × Option ExecutionTicket)
claim_execution env owner lease now db =
    if is_claimable db.row.status
    then claim_with env owner lease now db.executions db
    else no_ticket db
