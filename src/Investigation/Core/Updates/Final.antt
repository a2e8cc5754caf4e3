-- ===== src/Investigation/Core/Updates/Final.antt =====
-- packages/incident/investigations.py: hypotheses that no update changes.
use incident_triage.Base.{
  ℕ, ◌≡◌, refl, inl, inr, true, String, some, List, [], ◌∷◌, ◌==◌, string_eq, Bool-cases, ==→eq,
  sym, subst, ◌∙◌, true-false-apart, Option-cases,
}
use incident_triage.Errors.{After}
use incident_triage.Investigation.Hypothesis.{
  HypothesisUpdate, Problem, check_hypothesis_update, is_final,
}
use incident_triage.Investigation.Hypothesis.Acceptance.{
  check_hypothesis_update-IsAcceptable, IsAllowed, is_final_iff,
}
use incident_triage.Investigation.Rows.{HypothesisRow, Db}
use incident_triage.Investigation.Core.{append_step}
use incident_triage.Investigation.Core.Updates.{
  find_hypothesis, snapshot_of, next_hypothesis, Progress, settle_update, apply_update,
  apply_updates, create_hypothesis, change_hypothesis, apply_hypothesis_updates,
}
use incident_triage.Investigation.Core.Commands.{After-fenced}
use incident_triage.Investigation.Core.Updates.Keeping.{
  find-put_hypothesis_other, find_hypothesis-key,
}

next_hypothesis-key :
    (decimal : ℕ → ℕ) (now : ℕ) (u : HypothesisUpdate) (rows : List HypothesisRow)
    → (next_hypothesis decimal now u (find_hypothesis u.key rows)).key ≡ u.key
unfolding create_hypothesis change_hypothesis
next_hypothesis-key decimal now u rows = elim (Option-cases (find_hypothesis u.key rows)) [
  | inl absent ↦ rw absent refl
  | inr (h, found) ↦ rw found (find_hypothesis-key u.key rows found)
]

-- The update of a final hypothesis has a problem, and another leaves it where it is.
settle_update-final :
    (decimal : ℕ → ℕ) (now : ℕ) (accessible : List ℕ) (u : HypothesisUpdate)
    (problems : List Problem) (progress : Progress) (key : String) (h : HypothesisRow)
    → check_hypothesis_update u (snapshot_of (find_hypothesis u.key progress.rows)) accessible
      ≡ problems
    → find_hypothesis key progress.rows ≡ some h
    → is_final h.status ≡ true
    → find_hypothesis key
        (settle_update decimal now u (find_hypothesis u.key progress.rows) problems progress).rows
      ≡ some h
unfolding settle_update
settle_update-final decimal now accessible u (p ∷ ps) progress key h e found final = found
settle_update-final decimal now accessible u [] progress key h e found final =
    elim (Bool-cases (u.key == key)) [
      | inl same ↦
          let here : find_hypothesis u.key progress.rows ≡ some h =
            subst (λ k. find_hypothesis k progress.rows ≡ some h) (sym (==→eq u.key key same))
              found in
          let allowed : IsAllowed u (snapshot_of (find_hypothesis u.key progress.rows)) =
            ((check_hypothesis_update-IsAcceptable u _ accessible).0 e).allowed in
          absurd (true-false-apart _ final ((is_final_iff _).1 (rw here at allowed).2))
      | inr other ↦
          find-put_hypothesis_other key _ progress.rows
            (rw (next_hypothesis-key decimal now u progress.rows) other)
          ∙ found
    ]

pub apply_updates-final :
    (decimal : ℕ → ℕ) (now : ℕ) (accessible : List ℕ) (updates : List HypothesisUpdate)
    (progress : Progress) (key : String) (h : HypothesisRow)
    → find_hypothesis key progress.rows ≡ some h
    → is_final h.status ≡ true
    → find_hypothesis key (apply_updates decimal now accessible updates progress).rows ≡ some h
unfolding apply_updates apply_update
apply_updates-final decimal now accessible [] progress key h found final = found
apply_updates-final decimal now accessible (u ∷ updates) progress key h found final =
    apply_updates-final decimal now accessible updates _ key h
      (settle_update-final decimal now accessible u _ progress key h refl found final) final

-- A hypothesis that was rejected or selected keeps its row, links included, whatever updates a
-- worker sends.
pub apply_hypothesis_updates-final :
    (decimal : ℕ → ℕ) (owner : String) (iteration : ℕ) (call_id : String)
    (updates : List HypothesisUpdate) (now : ℕ) (db : Db) (key : String) (h : HypothesisRow)
    → find_hypothesis key db.hypotheses ≡ some h
    → is_final h.status ≡ true
    → After
        (λ out. find_hypothesis key out.0.hypotheses ≡ some h)
        (apply_hypothesis_updates decimal owner iteration call_id updates now db)
unfolding apply_hypothesis_updates append_step
apply_hypothesis_updates-final decimal owner iteration call_id updates now db key h found final =
    After-fenced (λ out. find_hypothesis key out.0.hypotheses ≡ some h) owner db _
      (λ runs own. apply_updates-final decimal now _ updates _ key h found final)
