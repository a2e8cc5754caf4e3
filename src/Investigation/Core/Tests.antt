-- ===== src/Investigation/Core/Tests.antt =====
-- packages/incident/investigations.py: one investigation from its request to its report.
use incident_triage.Base.{
  ◌≡◌, ◌↔◌, refl, true, false, none, some, List, [], ◌∷◌, map, arith, string_eq, nat_eq, ◌==◌,
}
use incident_triage.Errors.{Result, ok, err, After}
use incident_triage.Incident.Status.{IncidentStatus, triaging}
use incident_triage.Incident.Row.{IncidentRow, transition_incident_status, count_firing_alerts}
use incident_triage.Investigation.Hypothesis.{
  HypothesisStatus, SettableStatus, HypothesisUpdate, check_hypothesis_update,
}
use incident_triage.Investigation.Conclusion.{
  default_criteria, unmet_criteria, evaluate_conclusion, evidence_ids,
}
use incident_triage.Investigation.Tests.{update, result}
use incident_triage.Investigation.Rows.{InvestigationStatus, StepKind, HypothesisRow, Relation, Db}
use incident_triage.Investigation.Core.{
  claim, take, record_step, append_step, StepInput, accessible_evidence, holds, is_resumable,
}
use incident_triage.Investigation.Core.Updates.{
  apply_hypothesis_updates, apply_updates, apply_update, settle_update, create_hypothesis,
  change_hypothesis, find_hypothesis, Progress, snapshot,
}
use incident_triage.Investigation.Core.Updates.Final.{apply_hypothesis_updates-final}
use incident_triage.Investigation.Core.Outcome.{
  complete, complete_with, accept, move_incident, objections, Objection,
}
use incident_triage.Investigation.Core.Soundness.{IsSound}
use incident_triage.Investigation.Core.Completion.{IsUnopposed, objections-IsUnopposed}
use incident_triage.Investigation.Core.Fencing.{IsFencedOff, claim-excludes, claim-resumable}
use incident_triage.Investigation.Core.Verdict.{IsVerdict, complete-IsVerdict}
use incident_triage.Investigation.Core.Progression.{may_become, Reach-may_become}
use incident_triage.Investigation.Core.Reachable.{
  Reach, here, next, claimed, recorded, updated, concluded, Reach-IsSound,
}
use incident_triage.Investigation.Core.Starting.{
  Store, StartedInvestigation, new_investigation, request_investigation, request_for,
}
use incident_triage.Investigation.Core.Starting.Attempts.{
  IsOrderly, request_investigation-IsOrderly, request_investigation-idempotent,
}

-- What a command commits, or else the other.
abbrev committed {ℓ} : {A : Type ℓ} → Result A → A → A
committed (ok a) other = a
committed (err e) other = other

abbrev incident : IncidentRow
incident = record {
  id = 7;
  status = IncidentStatus.investigating;
  severity = "critical";
  service = "checkout";
  environment = "production";
  attempt_count = 1;
  version = 2;
  updated_at = 100;
}

abbrev begun : Db
begun = record {
  row = new_investigation 1 7 1 100;
  steps = [];
  hypotheses = [];
  reports = [];
  evidence_refs =
      record { id = 1; evidence_type = "metrics" } ∷ record { id = 2; evidence_type = "logs" } ∷ [];
  incident = incident;
  outbox = [];
}

abbrev held : Db
held = take "worker" 60 110 begun

claims : claim "worker" 60 110 begun ≡ ok (held, true)
unfolding claim
claims = refl

abbrev input : StepInput
input = record {
  kind = StepKind.tool_call;
  iteration = 1;
  evidence_ids = 1 ∷ 2 ∷ [];
  call_id = some "call";
  usage = none;
  tool_call = true;
  new_evidence = 2;
}

abbrev informed : Db
informed = committed (record_step "worker" input 60 120 held) held

records : record_step "worker" input 60 120 held ≡ ok informed
unfolding record_step
records = refl

-- The other hypothesis is rejected.
abbrev rejection : HypothesisUpdate
rejection = record update {
  key = "H2";
  status = some SettableStatus.rejected;
  supporting_evidence_ids = [];
  contradicting_evidence_ids = 1 ∷ [];
}

abbrev updates : List HypothesisUpdate
updates = update ∷ rejection ∷ []

abbrev outcome : Db × Progress
outcome =
    committed (apply_hypothesis_updates (λ c. c) "worker" 1 "call" updates 130 informed)
      (informed, record { rows = []; applied = []; rejected = [] })

abbrev argued : Db
argued = outcome.0

argues : apply_hypothesis_updates (λ c. c) "worker" 1 "call" updates 130 informed ≡ ok outcome
unfolding record_step append_step accessible_evidence apply_hypothesis_updates apply_updates
    apply_update settle_update create_hypothesis change_hypothesis check_hypothesis_update
argues = refl

abbrev ended : Db × List Objection
ended =
    committed (complete incident default_criteria (λ c. c) "worker" 2 "end" result 140 argued)
      (argued, [])

concludes :
    complete incident default_criteria (λ c. c) "worker" 2 "end" result 140 argued ≡ ok ended
unfolding record_step append_step accessible_evidence apply_hypothesis_updates apply_updates
    apply_update settle_update create_hypothesis change_hypothesis check_hypothesis_update complete
    complete_with accept move_incident transition_incident_status objections evidence_ids
    evaluate_conclusion unmet_criteria default_criteria
concludes = refl

completes : (ended.0.row.status ≡ InvestigationStatus.completed) × (ended.1 ≡ [])
unfolding record_step append_step accessible_evidence apply_hypothesis_updates apply_updates
    apply_update settle_update create_hypothesis change_hypothesis check_hypothesis_update complete
    complete_with accept move_incident transition_incident_status objections evidence_ids
    evaluate_conclusion unmet_criteria default_criteria
completes = (refl, refl)

begun-IsSound : IsSound default_criteria begun
begun-IsSound = record { numbered = tt; grounded = tt; settled = refl }

run : Reach default_criteria (λ c. c) begun ended.0
run =
    next
      (next
        (next (next here (claimed "worker" 60 110 begun held true claims))
          (recorded "worker" input 60 120 held informed records))
        (updated "worker" 1 "call" updates 130 informed argued outcome.1 argues))
      (concluded incident "worker" 2 "end" result 140 argued ended.0 ended.1 concludes)

Reach-IsSound_example : IsSound default_criteria ended.0
Reach-IsSound_example = Reach-IsSound default_criteria (λ c. c) run begun-IsSound

claim-excludes_example :
    (holds "worker" held.row ≡ true)
    × (claim "other" 60 150 held ≡ ok (held, false))
    × IsFencedOff "other" held
claim-excludes_example =
    claim-excludes "worker" "other" 60 110 60 150 begun held claims refl (omega arith)

resumable : is_resumable 110 begun.row ≡ true
unfolding is_resumable
resumable = refl

claim-resumable_example :
    (db : Db) × (claim "worker" 60 110 begun ≡ ok (db, true)) × (holds "worker" db.row ≡ true)
claim-resumable_example = claim-resumable "worker" 60 110 begun resumable

objections-IsUnopposed_example :
    (objections default_criteria result argued ≡ [])
    ↔ ((h : HypothesisRow) × IsUnopposed default_criteria result h argued)
objections-IsUnopposed_example = objections-IsUnopposed default_criteria result argued

holding : holds "worker" argued.row ≡ true
unfolding record_step append_step accessible_evidence apply_hypothesis_updates apply_updates
    apply_update settle_update create_hypothesis change_hypothesis check_hypothesis_update
holding = refl

current : (incident.version == argued.incident.version) ≡ true
unfolding record_step append_step accessible_evidence apply_hypothesis_updates apply_updates
    apply_update settle_update create_hypothesis change_hypothesis check_hypothesis_update
current = refl

complete-IsVerdict_example :
    (db : Db) × (complete incident default_criteria (λ c. c) "worker" 2 "end" result 140 argued
      ≡ ok (db, objections default_criteria result argued))
    × IsVerdict argued (objections default_criteria result argued) db
complete-IsVerdict_example =
    complete-IsVerdict incident default_criteria (λ c. c) 2 "end" result 140 argued "worker" holding
      current

abbrev given_up : HypothesisRow
given_up = record {
  key = "H3";
  description = "a leak";
  status = HypothesisStatus.rejected;
  confidence = none;
  cause_category = some "memory";
  component = some "checkout";
  links = record { evidence_id = 1; relation = Relation.contradicts } ∷ [];
  created_at = 120;
  updated_at = 120;
}

abbrev doubted : Db
doubted = record held { hypotheses = given_up ∷ [] }

apply_hypothesis_updates-final_example :
    After
      (λ out. find_hypothesis "H3" out.0.hypotheses ≡ some given_up)
      (apply_hypothesis_updates
        (λ c. c)
        "worker"
        1
        "call"
        (record update { key = "H3" } ∷ rejection ∷ [])
        130
        doubted)
apply_hypothesis_updates-final_example =
    apply_hypothesis_updates-final (λ c. c) "worker" 1 "call"
      (record update { key = "H3" } ∷ rejection ∷ []) 130 doubted "H3" given_up refl refl

-- The request for the investigation.
abbrev store : Store
store = record {
  incident = some (record incident { status = triaging; attempt_count = 0 });
  alerts = record { id = 3; is_firing = true } ∷ [];
  investigations = [];
  outbox = [];
}

abbrev started : Store × StartedInvestigation
started =
    committed (request_investigation 1 100 store)
      (store, record { investigation_id = 0; created = false })

starts : request_investigation 1 100 store ≡ ok started
unfolding request_investigation request_for transition_incident_status count_firing_alerts
starts = refl

request_investigation-IsOrderly_example :
    After (λ out. IsOrderly out.0) (request_investigation 1 100 store)
request_investigation-IsOrderly_example =
    request_investigation-IsOrderly 1 100 store (record { attempts = tt; counted = refl })

request_investigation-idempotent_example :
    request_investigation 2 200 started.0
    ≡ ok (started.0, record { investigation_id = started.1.investigation_id; created = false })
request_investigation-idempotent_example =
    request_investigation-idempotent 1 100 2 200 store started.0 started.1 starts

-- An update that rejects a hypothesis on evidence that supports it already: the problems see new
-- evidence, the links keep the old relation, so nothing contradicts what is rejected.
abbrev turned : Progress
turned =
    apply_updates (λ c. c) 130 (1 ∷ 2 ∷ [])
      (update
        ∷ record update {
          status = some SettableStatus.rejected;
          supporting_evidence_ids = [];
          contradicting_evidence_ids = 1 ∷ [];
        }
        ∷ [])
      (record { rows = []; applied = []; rejected = [] })

rejects_supported :
    (turned.rejected ≡ [])
    × (map (λ h. h.status) turned.rows ≡ HypothesisStatus.rejected ∷ [])
    × (map (λ h. (snapshot h).contradicting) turned.rows ≡ [] ∷ [])
unfolding apply_updates apply_update settle_update create_hypothesis change_hypothesis
    check_hypothesis_update
rejects_supported = (refl, refl, refl)

Reach-may_become_example : may_become begun.row.status ended.0.row.status ≡ true
Reach-may_become_example = Reach-may_become default_criteria (λ c. c) run
