-- ===== src/Incident/Ingestion/Numbering.antt =====
-- packages/incident/repository.py: rows that are found by their identifier, and written back.
use incident_triage.Base.{
  ℕ, ◌≡◌, ◌<◌, refl, suc, Bool, true, false, ◌&&◌, Option, none, some, ltb, List, [], ◌∷◌, ◌==◌,
  nat_eq, option_eq, length, find, Bool-cases, inl, inr, arith, ==→eq, ==_refl, subst, sym, ap, ◌∙◌,
  ◌+◌, if◌then◌else◌,
}
use incident_triage.Incident.Ingestion.{
  is_firing, later, newest, AlertRow, StoredIncident, get_incident, put_incident, put_alert,
  belongs_to, count_firing_alerts,
}

-- The newest row first: the identifiers are n - 1, ..., 1, 0.
abbrev pub HaveNumbers : List AlertRow → Type 0
HaveNumbers [] = Unit
HaveNumbers (a ∷ alerts) = (a.id ≡ length alerts) × HaveNumbers alerts

same_number : (a b : ℕ) → a ≡ b → (a == b) ≡ true
same_number a b e = ground (arith, e)

other_number : (a b : ℕ) → b < a → (a == b) ≡ false
other_number a b l = ground arith

-- Whether a row counts among the firing alerts of an incident, as a number.
abbrev pub weight : ℕ → AlertRow → ℕ
weight id a = if belongs_to id a && is_firing a.status then 1 else 0

pub count_cons :
    (id : ℕ) (a : AlertRow) (alerts : List AlertRow)
    → count_firing_alerts id (a ∷ alerts) ≡ weight id a + count_firing_alerts id alerts
unfolding count_firing_alerts
count_cons id a alerts = elim (Bool-cases (belongs_to id a && is_firing a.status)) [
  | inl counts ↦ rw counts (omega arith)
  | inr apart ↦ rw apart (omega arith)
]

find-below :
    (p : AlertRow → Bool) (alerts : List AlertRow) (a : AlertRow)
    → HaveNumbers alerts
    → find p alerts ≡ some a
    → a.id < length alerts
find-below p [] a n e = cc
find-below p (b ∷ alerts) a n e = elim (Bool-cases (p b)) [
  | inl here ↦
      let same : b ≡ a = cc (rw here at e) in
      subst (λ (c : AlertRow). c.id < suc (length alerts)) same (omega (arith, n.0))
  | inr later ↦ omega (arith, find-below p alerts a n.1 (rw later at e))
]

-- The row can be found by its identifier.
abbrev pub IsFound : Option AlertRow → List AlertRow → Type 0
IsFound none alerts = Unit
IsFound (some a) alerts = find (λ b. b.id == a.id) alerts ≡ some a

first-IsFound : (b a : AlertRow) (alerts : List AlertRow) → b ≡ a → IsFound (some a) (b ∷ alerts)
first-IsFound b a alerts same =
    rw (same_number b.id a.id (ap (λ (x : AlertRow). x.id) same)) (ap (λ x. some x) same)

later-IsFound :
    (b a : AlertRow) (alerts : List AlertRow)
    → HaveNumbers (b ∷ alerts)
    → IsFound (some a) alerts
    → IsFound (some a) (b ∷ alerts)
later-IsFound b a alerts n found =
    let below = find-below (λ c. c.id == a.id) alerts a n.1 found in
    rw (other_number b.id a.id (omega (arith, n.0, below))) found

pub find-IsFound :
    (p : AlertRow → Bool) (alerts : List AlertRow) (o : Option AlertRow)
    → HaveNumbers alerts
    → find p alerts ≡ o
    → IsFound o alerts
find-IsFound p alerts none n e = tt
find-IsFound p [] (some a) n e = cc
find-IsFound p (b ∷ alerts) (some a) n e = elim (Bool-cases (p b)) [
  | inl here ↦ first-IsFound b a alerts (cc (rw here at e))
  | inr apart ↦ later-IsFound b a alerts n (find-IsFound p alerts (some a) n.1 (rw apart at e))
]

pub newest-IsFound :
    (p : AlertRow → Bool) (alerts : List AlertRow) (o : Option AlertRow)
    → HaveNumbers alerts
    → newest p alerts ≡ o
    → IsFound o alerts
newest-IsFound p alerts none n e = tt
newest-IsFound p [] (some a) n e = cc
newest-IsFound p (b ∷ alerts) (some a) n e = elim (Bool-cases (p b)) [
  | inr apart ↦ later-IsFound b a alerts n (newest-IsFound p alerts (some a) n.1 (rw apart at e))
  | inl here ↦
      choice (newest p alerts) (λ is. newest-IsFound p alerts (some a) n.1 is) refl (rw here at e)
]
  where
    choice :
        (rest : Option AlertRow)
        → (newest p alerts ≡ some a → IsFound (some a) alerts)
        → newest p alerts ≡ rest
        → later b rest ≡ some a
        → IsFound (some a) (b ∷ alerts)
    choice none below is chosen = first-IsFound b a alerts (cc chosen)
    choice (some c) below is chosen = elim (Bool-cases (ltb b.received_at c.received_at)) [
      | inl newer ↦ later-IsFound b a alerts n (below (is ∙ (rw newer at chosen)))
      | inr older ↦ first-IsFound b a alerts (cc (rw older at chosen))
    ]

-- Writing a found row back with its identifier changes the count by what it changes of its weight.
pub count-put_alert :
    (id : ℕ) (p : AlertRow → Bool) (alerts : List AlertRow) (a b : AlertRow)
    → HaveNumbers alerts
    → find p alerts ≡ some a
    → b.id ≡ a.id
    → weight id a + count_firing_alerts id (put_alert b alerts)
      ≡ weight id b + count_firing_alerts id alerts
count-put_alert id p [] a b n e same = cc
count-put_alert id p (c ∷ alerts) a b n e same = elim (Bool-cases (p c)) [
  | inl here ↦
      let is : c ≡ a = cc (rw here at e) in
      let first : (c.id == b.id) ≡ true =
        same_number c.id b.id (ap (λ (x : AlertRow). x.id) is ∙ sym same) in
      rw (first, count_cons id b alerts, count_cons id c alerts, is) (omega arith)
  | inr later ↦
      let below : a.id < length alerts = find-below p alerts a n.1 (rw later at e) in
      let other : (c.id == b.id) ≡ false =
        other_number c.id b.id (omega (arith, n.0, below, same)) in
      rw (other, count_cons id c (put_alert b alerts), count_cons id c alerts)
        (omega (arith, count-put_alert id p alerts a b n.1 (rw later at e) same))
]

length-put_alert :
    (b : AlertRow) (alerts : List AlertRow) → length (put_alert b alerts) ≡ length alerts
length-put_alert b [] = refl
length-put_alert b (c ∷ alerts) = elim (Bool-cases (c.id == b.id)) [
  | inl here ↦ rw here refl
  | inr later ↦ rw later (ap suc (length-put_alert b alerts))
]

pub put_alert-HaveNumbers :
    (b : AlertRow) (alerts : List AlertRow) → HaveNumbers alerts → HaveNumbers (put_alert b alerts)
put_alert-HaveNumbers b [] n = tt
put_alert-HaveNumbers b (c ∷ alerts) n = elim (Bool-cases (c.id == b.id)) [
  | inl here ↦ rw here (sym (==→eq c.id b.id here) ∙ n.0, n.1)
  | inr later ↦ rw later (n.0 ∙ sym (length-put_alert b alerts), put_alert-HaveNumbers b alerts n.1)
]

-- The row that is written back is found, and the others as before.
pub get-put_incident :
    (i : StoredIncident) (incidents : List StoredIncident) {old : StoredIncident}
    → get_incident i.row.id incidents ≡ some old
    → get_incident i.row.id (put_incident i incidents) ≡ some i
get-put_incident i [] e = cc
get-put_incident i (j ∷ incidents) e = elim (Bool-cases (j.row.id == i.row.id)) [
  | inl here ↦ rw (here, ==_refl i.row.id) refl
  | inr later ↦ rw (later, get-put_incident i incidents (rw later at e), later) refl
]

pub get-put_incident_other :
    (id : ℕ) (i : StoredIncident) (incidents : List StoredIncident)
    → (i.row.id == id) ≡ false
    → get_incident id (put_incident i incidents) ≡ get_incident id incidents
get-put_incident_other id i [] other = refl
get-put_incident_other id i (j ∷ incidents) other = elim (Bool-cases (j.row.id == i.row.id)) [
  | inl here ↦
      let same : j.row.id ≡ i.row.id = ==→eq j.row.id i.row.id here in
      rw (here, other, same, other) refl
  | inr later ↦ rw (later, get-put_incident_other id i incidents other) refl
]

pub get_incident-id :
    (id : ℕ) (incidents : List StoredIncident) {i : StoredIncident}
    → get_incident id incidents ≡ some i
    → i.row.id ≡ id
get_incident-id id [] e = cc
get_incident-id id (j ∷ incidents) {i} e = elim (Bool-cases (j.row.id == id)) [
  | inl here ↦
      let same : j ≡ i = cc (rw here at e) in
      subst (λ (r : StoredIncident). r.row.id ≡ id) same (==→eq j.row.id id here)
  | inr later ↦ get_incident-id id incidents (rw later at e)
]
