-- ===== src/Incident/Evidence.antt =====
-- packages/incident/service.py and packages/incident/repository.py: `register_evidence_ref`. A
-- command has the columns of the row that it inserts; of the incidents, only which exist matters.
pub mod Naming
pub mod Tests
use incident_triage.Base.{
  ℕ, String, Bool, true, false, not, ◌||◌, Option, none, some, List, [], ◌∷◌, ◌==◌, nat_eq,
  string_eq, contains, find,
}
use incident_triage.Errors.{
  Result, ok, err, ◌>>=◌, ◌>>◌, raise_if, incident_not_found, evidence_ref_conflict,
}

pub record EvidenceRefRow : Type 0 where
  pub id : ℕ
  pub incident_id : ℕ
  pub investigation_id : Option ℕ
  pub evidence_type : String
  pub content_hash : String
  pub source_system : String
  pub collected_at : ℕ

pub record Store : Type 0 where
  pub incidents : List ℕ
  pub evidence_refs : List EvidenceRefRow
  -- the references that `EvidenceRefRegistered` announced
  pub outbox : List EvidenceRefRow

pub record EvidenceRefRegisteredResult : Type 0 where
  pub evidence_id : ℕ
  pub incident_id : ℕ
  pub newly_registered : Bool

abbrev pub get_evidence_ref : ℕ → List EvidenceRefRow → Option EvidenceRefRow
get_evidence_ref id = find (λ r. r.id == id)

abbrev pub answer : EvidenceRefRow → Bool → EvidenceRefRegisteredResult
answer command fresh = record {
  evidence_id = command.id;
  incident_id = command.incident_id;
  newly_registered = fresh;
}

-- Another content, or another incident.
abbrev pub is_conflict : EvidenceRefRow → EvidenceRefRow → Bool
is_conflict existing command =
    not (existing.content_hash == command.content_hash)
    || not (existing.incident_id == command.incident_id)

-- With the row of that identifier, which keeps the insertion from having an effect.
unfoldable pub register_with :
    EvidenceRefRow → Option EvidenceRefRow → Store → Result (Store × EvidenceRefRegisteredResult)
register_with command (some existing) db = do
  raise_if (is_conflict existing command) evidence_ref_conflict
  ok (db, answer command false)
register_with command none db = ok (
  record db { evidence_refs = command ∷ db.evidence_refs; outbox = command ∷ db.outbox },
  answer command true,
)

unfoldable pub register_evidence_ref :
    EvidenceRefRow → Store → Result (Store × EvidenceRefRegisteredResult)
register_evidence_ref command db = do
  raise_if (not (contains db.incidents command.incident_id)) incident_not_found
  register_with command (get_evidence_ref command.id db.evidence_refs) db
