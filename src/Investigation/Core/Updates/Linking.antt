-- ===== src/Investigation/Core/Updates/Linking.antt =====
-- packages/incident/investigations.py: the links of a hypothesis to evidence.
use incident_triage.Base.{
  ℕ, ◌≡◌, refl, Bool, true, false, not, ◌&&◌, ◌||◌, List, [], ◌∷◌, ◌++◌, ◌==◌, nat_eq, any,
  contains, arith, All, All-append, All-append_left, All-append_right, Bool-cases, inl, inr,
}
use incident_triage.Investigation.Hypothesis.{HypothesisUpdate}
use incident_triage.Investigation.Rows.{Relation, supports, contradicts, LinkRow}
use incident_triage.Investigation.Core.Updates.{link_ids, add_link, add_links, link_all}

-- No evidence is linked twice, whatever the relation.
abbrev pub distinct : List ℕ → Bool
distinct [] = true
distinct (e ∷ ids) = not (contains ids e) && distinct ids

==_sym : (a b : ℕ) → (a == b) ≡ (b == a)
==_sym a b = ground arith

contains-add_link :
    (relation : Relation) (e a : ℕ) (links : List LinkRow)
    → contains (link_ids (links ++ (record { evidence_id = e; relation = relation } ∷ []))) a
      ≡ (contains (link_ids links) a || (a == e))
contains-add_link relation e a [] = ground arith
contains-add_link relation e a (l ∷ links) = ground (arith, contains-add_link relation e a links)

distinct-append :
    (relation : Relation) (e : ℕ) (links : List LinkRow)
    → any (λ l. l.evidence_id == e) links ≡ false
    → distinct (link_ids links) ≡ true
    → distinct (link_ids (links ++ (record { evidence_id = e; relation = relation } ∷ []))) ≡ true
distinct-append relation e [] h d = refl
distinct-append relation e (l ∷ links) h d =
    ground
      (arith, distinct-append relation e links, contains-add_link relation e l.evidence_id links)

distinct-add_link :
    (relation : Relation) (e : ℕ) (links : List LinkRow)
    → distinct (link_ids links) ≡ true
    → distinct (link_ids (add_link relation e links)) ≡ true
distinct-add_link relation e links d = elim (Bool-cases (any (λ l. l.evidence_id == e) links)) [
  | inl there ↦ rw there d
  | inr absent ↦ rw absent (distinct-append relation e links absent d)
]

distinct-add_links :
    (relation : Relation) (ids : List ℕ) (links : List LinkRow)
    → distinct (link_ids links) ≡ true
    → distinct (link_ids (add_links relation ids links)) ≡ true
distinct-add_links relation [] links d = d
distinct-add_links relation (e ∷ ids) links d =
    distinct-add_links relation ids (add_link relation e links)
      (distinct-add_link relation e links d)

pub distinct-link_all :
    (u : HypothesisUpdate) (links : List LinkRow)
    → distinct (link_ids links) ≡ true
    → distinct (link_ids (link_all u links)) ≡ true
distinct-link_all u links d =
    distinct-add_links contradicts u.contradicting_evidence_ids _
      (distinct-add_links supports u.supporting_evidence_ids links d)

-- What holds of the evidence that is linked and of that which is added holds afterwards.
module _ (P : ℕ → Type 0) where
  abbrev pub Linked : List LinkRow → Type 0
  Linked = All (λ l. P l.evidence_id)

  add_link-Linked :
      (relation : Relation) (e : ℕ) (links : List LinkRow)
      → P e
      → Linked links
      → Linked (add_link relation e links)
  add_link-Linked relation e links p h = elim (Bool-cases (any (λ l. l.evidence_id == e) links)) [
    | inl there ↦ rw there h
    | inr absent ↦ rw absent (All-append (λ l. P l.evidence_id) links _ h (p, tt))
  ]

  add_links-Linked :
      (relation : Relation) (ids : List ℕ) (links : List LinkRow)
      → All P ids
      → Linked links
      → Linked (add_links relation ids links)
  add_links-Linked relation [] links p h = h
  add_links-Linked relation (e ∷ ids) links p h =
      add_links-Linked relation ids (add_link relation e links) p.1
        (add_link-Linked relation e links p.0 h)

  pub link_all-Linked :
      (u : HypothesisUpdate) (links : List LinkRow)
      → All P (u.supporting_evidence_ids ++ u.contradicting_evidence_ids)
      → Linked links
      → Linked (link_all u links)
  link_all-Linked u links p h =
      add_links-Linked contradicts u.contradicting_evidence_ids _
        (All-append_right P u.supporting_evidence_ids u.contradicting_evidence_ids p)
        (add_links-Linked supports u.supporting_evidence_ids links
          (All-append_left P u.supporting_evidence_ids u.contradicting_evidence_ids p) h)
