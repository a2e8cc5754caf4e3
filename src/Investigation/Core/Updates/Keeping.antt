-- ===== src/Investigation/Core/Updates/Keeping.antt =====
-- packages/incident/investigations.py: what updates keep true of the hypotheses, and which they
-- leave alone.
use incident_triage.Base.{
  ℕ, ◌≡◌, refl, inl, inr, true, false, String, some, List, [], ◌∷◌, ◌++◌, ◌==◌, nat_eq, string_eq,
  contains, All, All-to_set, Bool-cases, Option-cases, ==→eq, ==_refl, subst,
}
use incident_triage.Investigation.Hypothesis.{HypothesisUpdate, Problem, check_hypothesis_update}
use incident_triage.Investigation.Hypothesis.Acceptance.{check_hypothesis_update-IsAcceptable}
use incident_triage.Investigation.Rows.{HypothesisRow}
use incident_triage.Investigation.Core.Updates.{
  link_ids, find_hypothesis, put_hypothesis, create_hypothesis, change_hypothesis, snapshot_of,
  next_hypothesis, Progress, settle_update, apply_update, apply_updates,
}
use incident_triage.Investigation.Core.Updates.Linking.{
  distinct, distinct-link_all, Linked, link_all-Linked,
}

pub put_hypothesis-All {κ} :
    (P : HypothesisRow → Type κ) (h : HypothesisRow) (rows : List HypothesisRow)
    → P h
    → All P rows
    → All P (put_hypothesis h rows)
put_hypothesis-All P h [] p a = (p, tt)
put_hypothesis-All P h (g ∷ rows) p a = elim (Bool-cases (g.key == h.key)) [
  | inl here ↦ rw here (p, a.1)
  | inr later ↦ rw later (a.0, put_hypothesis-All P h rows p a.1)
]

pub find_hypothesis-All {κ} :
    (P : HypothesisRow → Type κ) (key : String) (rows : List HypothesisRow) {h : HypothesisRow}
    → All P rows
    → find_hypothesis key rows ≡ some h
    → P h
find_hypothesis-All P key [] a e = cc
find_hypothesis-All P key (g ∷ rows) a e = elim (Bool-cases (g.key == key)) [
  | inl here ↦ subst P (cc (rw here at e)) a.0
  | inr later ↦ find_hypothesis-All P key rows a.1 (rw later at e)
]

pub find_hypothesis-key :
    (key : String) (rows : List HypothesisRow) {h : HypothesisRow}
    → find_hypothesis key rows ≡ some h
    → h.key ≡ key
find_hypothesis-key key [] e = cc
find_hypothesis-key key (g ∷ rows) {h} e = elim (Bool-cases (g.key == key)) [
  | inl here ↦
      let same : g ≡ h = cc (rw here at e) in
      subst (λ (r : HypothesisRow). r.key ≡ key) same (==→eq g.key key here)
  | inr later ↦ find_hypothesis-key key rows (rw later at e)
]

pub find-put_hypothesis :
    (h : HypothesisRow) (rows : List HypothesisRow)
    → find_hypothesis h.key (put_hypothesis h rows) ≡ some h
find-put_hypothesis h [] = rw (==_refl h.key) refl
find-put_hypothesis h (g ∷ rows) = elim (Bool-cases (g.key == h.key)) [
  | inl here ↦ rw (here, ==_refl h.key) refl
  | inr later ↦ rw (later, find-put_hypothesis h rows, later) refl
]

-- Another key is found as before.
pub find-put_hypothesis_other :
    (key : String) (h : HypothesisRow) (rows : List HypothesisRow)
    → (h.key == key) ≡ false
    → find_hypothesis key (put_hypothesis h rows) ≡ find_hypothesis key rows
find-put_hypothesis_other key h [] other = rw other refl
find-put_hypothesis_other key h (g ∷ rows) other = elim (Bool-cases (g.key == h.key)) [
  | inl here ↦
      let same : g.key ≡ h.key = ==→eq g.key h.key here in rw (here, other, same, other) refl
  | inr later ↦ rw (later, find-put_hypothesis_other key h rows other) refl
]

-- Every link of every hypothesis is to evidence in `accessible`, none twice.
abbrev pub IsGrounded : (ℕ → Type 0) → HypothesisRow → Type 0
IsGrounded P h = Linked P h.links × (distinct (link_ids h.links) ≡ true)

next_hypothesis-IsGrounded :
    (P : ℕ → Type 0) (decimal : ℕ → ℕ) (now : ℕ) (u : HypothesisUpdate) (rows : List HypothesisRow)
    → All P (u.supporting_evidence_ids ++ u.contradicting_evidence_ids)
    → All (IsGrounded P) rows
    → IsGrounded P (next_hypothesis decimal now u (find_hypothesis u.key rows))
unfolding create_hypothesis change_hypothesis
next_hypothesis-IsGrounded P decimal now u rows p a =
    elim (Option-cases (find_hypothesis u.key rows)) [
      | inl absent ↦ rw absent (link_all-Linked P u [] p tt, distinct-link_all u [] refl)
      | inr (h, found) ↦
          let (l, d) = find_hypothesis-All (IsGrounded P) u.key rows a found in
          rw found (link_all-Linked P u h.links p l, distinct-link_all u h.links d)
    ]

settle_update-IsGrounded :
    (decimal : ℕ → ℕ) (now : ℕ) (accessible : List ℕ) (u : HypothesisUpdate)
    (problems : List Problem) (progress : Progress)
    → check_hypothesis_update u (snapshot_of (find_hypothesis u.key progress.rows)) accessible
      ≡ problems
    → All (IsGrounded (λ e. contains accessible e ≡ true)) progress.rows
    → All
        (IsGrounded (λ e. contains accessible e ≡ true))
        (settle_update decimal now u (find_hypothesis u.key progress.rows) problems progress).rows
unfolding settle_update
settle_update-IsGrounded decimal now accessible u (p ∷ ps) progress e a = a
settle_update-IsGrounded decimal now accessible u [] progress e a =
    put_hypothesis-All (IsGrounded (λ e. contains accessible e ≡ true)) _ progress.rows
      (next_hypothesis-IsGrounded (λ e. contains accessible e ≡ true) decimal now u progress.rows
        (All-to_set (λ e. contains accessible e ≡ true) _
          ((check_hypothesis_update-IsAcceptable u _ accessible).0 e).grounded)
        a)
      a

pub apply_updates-IsGrounded :
    (decimal : ℕ → ℕ) (now : ℕ) (accessible : List ℕ) (updates : List HypothesisUpdate)
    (progress : Progress)
    → All (IsGrounded (λ e. contains accessible e ≡ true)) progress.rows
    → All
        (IsGrounded (λ e. contains accessible e ≡ true))
        (apply_updates decimal now accessible updates progress).rows
unfolding apply_updates apply_update
apply_updates-IsGrounded decimal now accessible [] progress a = a
apply_updates-IsGrounded decimal now accessible (u ∷ updates) progress a =
    apply_updates-IsGrounded decimal now accessible updates _
      (settle_update-IsGrounded decimal now accessible u _ progress refl a)
