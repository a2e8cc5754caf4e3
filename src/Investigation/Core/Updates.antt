-- ===== src/Investigation/Core/Updates.antt =====
-- packages/incident/investigations.py: `apply_hypothesis_updates`. A confidence is rounded as
-- `_decimal` does, by an argument.
pub mod Linking
pub mod Keeping
pub mod Final
use incident_triage.Base.{
  ℕ, ◌+◌, String, Bool, true, false, not, ◌&&◌, Option, none, some, List, [], ◌∷◌, ◌++◌, map, ◌==◌,
  nat_eq, string_eq, any, filter, is_empty, if◌then◌else◌,
}
use incident_triage.Errors.{Result, ok, err, ◌>>=◌, ◌>>◌, raise_if, lease_lost}
use incident_triage.Investigation.Hypothesis.{
  HypothesisStatus, SettableStatus, HypothesisUpdate, HypothesisSnapshot, Problem,
  check_hypothesis_update,
}
use incident_triage.Investigation.Conclusion.{Hypotheses}
use incident_triage.Investigation.Rows.{
  StepKind, Relation, supports, contradicts, LinkRow, HypothesisRow, Db,
}
use incident_triage.Investigation.Core.{holds, append_step, accessible_evidence}

abbrev pub is_support : LinkRow → Bool
is_support l = elim l.relation [ supports ↦ true | contradicts ↦ false ]

abbrev pub link_ids : List LinkRow → List ℕ
link_ids = map (λ l. l.evidence_id)

-- `_snapshots`, of one hypothesis and of all.
abbrev pub snapshot : HypothesisRow → HypothesisSnapshot
snapshot h = record {
  key = h.key;
  description = h.description;
  status = h.status;
  confidence = h.confidence;
  supporting = link_ids (filter is_support h.links);
  contradicting = link_ids (filter (λ l. not (is_support l)) h.links);
  cause_category = h.cause_category;
  component = h.component;
}

abbrev pub snapshots : List HypothesisRow → Hypotheses
snapshots = map (λ h. (h.key, snapshot h))

abbrev pub find_hypothesis : String → List HypothesisRow → Option HypothesisRow
find_hypothesis key [] = none
find_hypothesis key (h ∷ rows) =
    let rest = find_hypothesis key rows in if h.key == key then some h else rest

-- The row of a key is replaced, or else added.
abbrev pub put_hypothesis : HypothesisRow → List HypothesisRow → List HypothesisRow
put_hypothesis h [] = h ∷ []
put_hypothesis h (g ∷ rows) =
    let rest = put_hypothesis h rows in if g.key == h.key then h ∷ rows else g ∷ rest

-- `INSERT ... ON CONFLICT (hypothesis_id, evidence_id) DO NOTHING`
abbrev pub add_link : Relation → ℕ → List LinkRow → List LinkRow
add_link relation e links =
    if any (λ l. l.evidence_id == e) links
    then links
    else links ++ (record { evidence_id = e; relation = relation } ∷ [])

abbrev pub add_links : Relation → List ℕ → List LinkRow → List LinkRow
add_links relation [] links = links
add_links relation (e ∷ ids) links = add_links relation ids (add_link relation e links)

abbrev pub link_all : HypothesisUpdate → List LinkRow → List LinkRow
link_all u links =
    add_links contradicts u.contradicting_evidence_ids
      (add_links supports u.supporting_evidence_ids links)

abbrev pub status_of : SettableStatus → HypothesisStatus
status_of SettableStatus.active = HypothesisStatus.active
status_of SettableStatus.supported = HypothesisStatus.supported
status_of SettableStatus.weakened = HypothesisStatus.weakened
status_of SettableStatus.rejected = HypothesisStatus.rejected

abbrev pub status_or : Option SettableStatus → HypothesisStatus → HypothesisStatus
status_or none s = s
status_or (some t) s = status_of t

abbrev pub round : (ℕ → ℕ) → Option ℕ → Option ℕ
round decimal none = none
round decimal (some c) = some (decimal c)

-- `update.description or ""`, and the description that a change leaves.
abbrev pub text_or : Option String → String → String
text_or none s = s
text_or (some t) s = if t == "" then s else t

abbrev pub confidence_or : Option ℕ → Option ℕ → Option ℕ
confidence_or none c = c
confidence_or (some d) c = some d

unfoldable pub create_hypothesis : (ℕ → ℕ) → ℕ → HypothesisUpdate → HypothesisRow
create_hypothesis decimal now u = record {
  key = u.key;
  description = text_or u.description "";
  status = status_or u.status HypothesisStatus.active;
  confidence = round decimal u.confidence;
  cause_category = u.cause_category;
  component = u.component;
  links = link_all u [];
  created_at = now;
  updated_at = now;
}

unfoldable pub change_hypothesis : (ℕ → ℕ) → ℕ → HypothesisUpdate → HypothesisRow → HypothesisRow
change_hypothesis decimal now u h = record h {
  description = text_or u.description h.description;
  status = status_or u.status h.status;
  confidence = confidence_or (round decimal u.confidence) h.confidence;
  links = link_all u h.links;
  updated_at = now;
}

abbrev pub snapshot_of : Option HypothesisRow → Option HypothesisSnapshot
snapshot_of none = none
snapshot_of (some h) = some (snapshot h)

abbrev pub next_hypothesis : (ℕ → ℕ) → ℕ → HypothesisUpdate → Option HypothesisRow → HypothesisRow
next_hypothesis decimal now u none = create_hypothesis decimal now u
next_hypothesis decimal now u (some h) = change_hypothesis decimal now u h

abbrev pub status_before : Option HypothesisRow → Option HypothesisStatus
status_before none = none
status_before (some h) = some h.status

pub record Transition : Type 0 where
  pub key : String
  pub from_status : Option HypothesisStatus
  pub to_status : HypothesisStatus

pub record Rejection : Type 0 where
  pub key : String
  pub problems : List Problem

-- The variables of the loop over the updates; `HypothesisUpdateOutcome` is the last two.
pub record Progress : Type 0 where
  pub rows : List HypothesisRow
  pub applied : List Transition
  pub rejected : List Rejection

-- The body of the loop, once the problems and the existing row are known.
unfoldable pub settle_update :
    (ℕ → ℕ) → ℕ → HypothesisUpdate → Option HypothesisRow → List Problem → Progress → Progress
settle_update decimal now u existing (p ∷ ps) progress = record progress {
  rejected = progress.rejected ++ (record { key = u.key; problems = p ∷ ps } ∷ []);
}
settle_update decimal now u existing [] progress =
    let h = next_hypothesis decimal now u existing in
    record progress {
      rows = put_hypothesis h progress.rows;
      applied =
          progress.applied
          ++ (record { key = u.key; from_status = status_before existing; to_status = h.status }
              ∷ []);
    }

unfoldable pub apply_update : (ℕ → ℕ) → ℕ → List ℕ → HypothesisUpdate → Progress → Progress
apply_update decimal now accessible u progress =
    let existing = find_hypothesis u.key progress.rows in
    settle_update decimal now u existing
      (check_hypothesis_update u (snapshot_of existing) accessible) progress

unfoldable pub apply_updates : (ℕ → ℕ) → ℕ → List ℕ → List HypothesisUpdate → Progress → Progress
apply_updates decimal now accessible [] progress = progress
apply_updates decimal now accessible (u ∷ updates) progress =
    apply_updates decimal now accessible updates (apply_update decimal now accessible u progress)

unfoldable pub apply_hypothesis_updates :
    (ℕ → ℕ) → String → ℕ → String → List HypothesisUpdate → ℕ → Db → Result (Db × Progress)
apply_hypothesis_updates decimal owner iteration call_id updates now db = do
  raise_if (not (holds owner db.row)) lease_lost
  let progress =
      apply_updates decimal now (accessible_evidence db) updates
        (record { rows = db.hypotheses; applied = []; rejected = [] })
  let stepped =
      append_step now StepKind.hypothesis_update iteration (some call_id) []
        (record db { hypotheses = progress.rows; row = record (db.row) { updated_at = now } })
  ok (stepped, progress)
