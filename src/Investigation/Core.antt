-- ===== src/Investigation/Core.antt =====
-- packages/incident/investigations.py: leases and the trace of one investigation. A command reads
-- the clock once, as `now`; metrics and logs are left out.
pub mod Updates
pub mod Outcome
pub mod Soundness
pub mod Commands
pub mod Completion
pub mod Fencing
pub mod Verdict
pub mod Progression
pub mod Starting
pub mod Tests
pub mod Reachable
use incident_triage.Base.{
  ℕ, ◌+◌, ◌*◌, String, Bool, true, false, not, ◌&&◌, ◌||◌, Option, none, some, List, [], ◌∷◌, ◌++◌,
  map, ◌==◌, nat_eq, string_eq, option_eq, contains, filter, ltb, leb, if◌then◌else◌, length,
}
use Prim.Native.Nat.{max}
use incident_triage.Errors.{Result, ok, err, ◌>>=◌, ◌>>◌, raise_if, lease_lost}
use incident_triage.Investigation.Rows.{
  InvestigationStatus, created, investigating, is_terminal, StepKind, Usage, InvestigationRow,
  StepRow, EvidenceRefRow, Db,
}

abbrev pub is_investigating : InvestigationStatus → Bool
is_investigating InvestigationStatus.investigating = true
is_investigating _ = false

abbrev pub lease_is_live : ℕ → InvestigationRow → Bool
lease_is_live now row = elim row.lease_expires_at [ none ↦ false | some t ↦ ltb now t ]

abbrev pub or_now : Option ℕ → ℕ → Option ℕ
or_now none now = some now
or_now (some t) now = some t

-- The assignments of `claim`.
abbrev pub take : String → ℕ → ℕ → Db → Db
take owner lease now db = record db {
  row = record (db.row) {
    status = InvestigationStatus.investigating;
    lease_owner = some owner;
    lease_expires_at = some (now + lease);
    started_at = or_now db.row.started_at now;
    updated_at = now;
  };
}

-- `claim`; with `true` the worker also gets the state.
unfoldable pub claim : String → ℕ → ℕ → Db → Result (Db × Bool)
claim owner lease now db =
    if is_terminal db.row.status
    then ok (db, false)
    else if lease_is_live now db.row && not (db.row.lease_owner == some owner)
    then ok (db, false)
    else ok (take owner lease now db, true)

unfoldable pub release : String → ℕ → Db → Result Db
release owner now db =
    if db.row.lease_owner == some owner
    then ok (record db { row = record (db.row) { lease_expires_at = some now } })
    else ok db

-- `resumable`, of one investigation.
unfoldable pub is_resumable : ℕ → InvestigationRow → Bool
is_resumable now row =
    not (is_terminal row.status) && elim row.lease_expires_at [ none ↦ true | some t ↦ leb t now ]

-- The test of `_fenced`.
abbrev pub holds : String → InvestigationRow → Bool
holds owner row = is_investigating row.status && (row.lease_owner == some owner)

abbrev pub max_sequence : List StepRow → ℕ
max_sequence [] = 0
max_sequence (s ∷ steps) = max s.sequence (max_sequence steps)

-- `_append_step`
unfoldable pub append_step : ℕ → StepKind → ℕ → Option String → List ℕ → Db → Db
append_step now kind iteration call_id evidence_ids db = record db {
  steps =
      record {
        sequence = max_sequence db.steps + 1;
        iteration = iteration;
        kind = kind;
        call_id = call_id;
        evidence_ids = evidence_ids;
        created_at = now;
      }
      ∷ db.steps;
}

-- The arguments of `record_step`.
pub record StepInput : Type 0 where
  pub kind : StepKind
  pub iteration : ℕ
  pub evidence_ids : List ℕ
  pub call_id : Option String
  pub usage : Option Usage
  pub tool_call : Bool
  pub new_evidence : ℕ

abbrev pub is_model_turn : StepKind → Bool
is_model_turn StepKind.model_turn = true
is_model_turn _ = false

abbrev pub add_usage : Option Usage → Usage → Usage
add_usage none u = u
add_usage (some d) u = record {
  input_tokens = u.input_tokens + d.input_tokens;
  output_tokens = u.output_tokens + d.output_tokens;
  cache_read_tokens = u.cache_read_tokens + d.cache_read_tokens;
  cache_creation_tokens = u.cache_creation_tokens + d.cache_creation_tokens;
}

abbrev pub count_step : StepInput → ℕ → ℕ → Db → Db
count_step input lease now db = record db {
  row = record (db.row) {
    iteration_count =
        if is_model_turn input.kind
        then max db.row.iteration_count input.iteration
        else db.row.iteration_count;
    usage = add_usage input.usage db.row.usage;
    tool_call_count = db.row.tool_call_count + (if input.tool_call then 1 else 0);
    evidence_count = db.row.evidence_count + input.new_evidence;
    lease_expires_at = some (now + lease);
    updated_at = now;
  };
}

unfoldable pub record_step : String → StepInput → ℕ → ℕ → Db → Result Db
record_step owner input lease now db = do
  raise_if (not (holds owner db.row)) lease_lost
  ok (
      count_step input lease now
        (append_step now input.kind input.iteration input.call_id input.evidence_ids db))

-- Steps that show evidence.
abbrev pub shows : StepKind → Bool
shows StepKind.context = true
shows StepKind.tool_call = true
shows _ = false

abbrev pub shown : List StepRow → List ℕ
shown [] = []
shown (s ∷ steps) = let rest = shown steps in if shows s.kind then s.evidence_ids ++ rest else rest

abbrev pub registered : List EvidenceRefRow → List ℕ
registered = map (λ r. r.id)

-- `_accessible_evidence`
unfoldable pub accessible_evidence : Db → List ℕ
accessible_evidence db = filter (contains (registered db.evidence_refs)) (shown db.steps)
