-- ===== src/Incident/Evidence/Naming.antt =====
-- packages/incident/service.py: an evidence identifier names one observation.
use incident_triage.Base.{
  ℕ, ◌≡◌, refl, Bool, true, false, not, ◌||◌, Option, none, some, ◌==◌, nat_eq, string_eq, contains,
  ==_refl, ==→eq, Bool-cases, inl, inr, arith, subst,
}
use incident_triage.Errors.{After, ok}
use incident_triage.Incident.Evidence.{
  EvidenceRefRow, EvidenceRefRegisteredResult, Store, get_evidence_ref, is_conflict, register_with,
  register_evidence_ref,
}

-- The identifier names the content and the incident of the command.
pub record IsNamed (command : EvidenceRefRow) (db : Store) : Type 0 where
  pub row : EvidenceRefRow
  pub found : get_evidence_ref command.id db.evidence_refs ≡ some row
  pub content : row.content_hash ≡ command.content_hash
  pub incident : row.incident_id ≡ command.incident_id

-- What is found of an identifier is found afterwards.
abbrev pub IsStillNamed : ℕ → EvidenceRefRow → Store → Type 0
IsStillNamed id row db = get_evidence_ref id db.evidence_refs ≡ some row

no_conflict :
    (existing command : EvidenceRefRow)
    → is_conflict existing command ≡ false
    → (existing.content_hash ≡ command.content_hash) × (existing.incident_id ≡ command.incident_id)
no_conflict existing command h =
    let (a, b) =
      both (existing.content_hash == command.content_hash)
        (existing.incident_id == command.incident_id) h in
    (
      ==→eq existing.content_hash command.content_hash a,
      ==→eq existing.incident_id command.incident_id b,
    )
  where
    both : (a b : Bool) → (not a || not b) ≡ false → (a ≡ true) × (b ≡ true)
    both a b e = ground (arith, e)

register_with-IsNamed :
    (command : EvidenceRefRow) (existing : Option EvidenceRefRow) (db : Store) (id : ℕ)
    (row : EvidenceRefRow)
    → get_evidence_ref command.id db.evidence_refs ≡ existing
    → get_evidence_ref id db.evidence_refs ≡ some row
    → After
        (λ out. IsNamed command out.0 × IsStillNamed id row out.0)
        (register_with command existing db)
unfolding register_with
register_with-IsNamed command (some existing) db id row e found =
    elim (Bool-cases (is_conflict existing command)) [
      | inl conflict ↦ rw (conflict, After) tt
      | inr agrees ↦
          let (content, incident) = no_conflict existing command agrees in
          rw (agrees, After)
            (record { row = existing; found = e; content = content; incident = incident }, found)
    ]
register_with-IsNamed command none db id row e found = (
  record { row = command; found = rw (==_refl command.id) refl; content = refl; incident = refl },
  elim (Bool-cases (command.id == id)) [
    | inl same ↦ cc (
      subst (λ k. get_evidence_ref k db.evidence_refs ≡ none) (==→eq command.id id same) e,
      found,
    )
    | inr other ↦ rw other found
  ],
)

-- A registration that succeeds, the first or a later one, leaves the identifier naming the
-- command's content and incident, and every identifier naming the row that it named before.
pub register_evidence_ref-IsNamed :
    (command : EvidenceRefRow) (db db' : Store) (result : EvidenceRefRegisteredResult) (id : ℕ)
    (row : EvidenceRefRow)
    → register_evidence_ref command db ≡ ok (db', result)
    → get_evidence_ref id db.evidence_refs ≡ some row
    → IsNamed command db' × IsStillNamed id row db'
unfolding register_evidence_ref
register_evidence_ref-IsNamed command db db' result id row e found =
    elim (Bool-cases (contains db.incidents command.incident_id)) [
      | inl known ↦
          subst (After (λ out. IsNamed command out.0 × IsStillNamed id row out.0)) (rw known at e)
            (register_with-IsNamed command _ db id row refl found)
      | inr unknown ↦ cc (rw unknown at e)
    ]
