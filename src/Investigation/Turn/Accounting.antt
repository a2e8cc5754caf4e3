-- ===== src/Investigation/Turn/Accounting.antt =====
-- packages/domain/investigation.py: that every call of a turn is read, once and for what it is.
use mathlib.Core.List.{append_assoc, append-nil}
use incident_triage.Base.{
  ◌≡◌, refl, sym, ap, subst, ◌∙◌, inl, inr, String, Bool, Option, none, some, List, [], ◌∷◌, ◌++◌,
  map, ◌==◌, string_eq, contains, arith, Bool-cases, ==→eq,
}
use incident_triage.Investigation.Turn.Calls.{
  count, Call, call_of, accounted, request_of, requests_in, update_of, updates_in, Ending,
  ending_of, or_else, first_ending, HasEnding,
}
use incident_triage.Investigation.Turn.{
  ModelAction, ArgumentModels, InvestigationDecision, read_action, read_actions, no_calls,
  interpret_turn,
}
use incident_triage.Investigation.Turn.Adding.{
  Adds, rejected, updates-Adds, conclude-Adds, give_up-Adds, request-Adds, or_else-none,
}

module _ (models : ArgumentModels) (names : List String) where
  read_action-Adds :
      (action : ModelAction) (d : InvestigationDecision)
      → Adds
          (call_of action ∷ [])
          (request_of names action)
          (update_of models action)
          (ending_of models action)
          d
          (read_action models names action d)
  unfolding read_action
  read_action-Adds action d = elim (Bool-cases (action.name == "update_hypotheses")) [
    | inl here ↦ rw (==→eq action.name _ here) (
        updates-Adds (record action { name = "update_hypotheses" }) (models.batch action.arguments)
          d refl)
    | inr p ↦ elim (Bool-cases (action.name == "conclude_investigation")) [
      | inl here ↦ rw (==→eq action.name _ here) (
          conclude-Adds (record action { name = "conclude_investigation" })
            (models.result action.arguments) d refl)
      | inr q ↦ elim (Bool-cases (action.name == "declare_inconclusive")) [
        | inl here ↦ rw (==→eq action.name _ here) (
            give_up-Adds (record action { name = "declare_inconclusive" })
              (models.declaration action.arguments) d refl)
        | inr s ↦ elim (Bool-cases (contains names action.name)) [
          | inl known ↦ rw (p, q, s, known) (request-Adds action d)
          | inr other ↦
              rw (p, q, s, other) (rejected action _ none d (λ before h. or_else-none before))
        ]
      ]
    ]
  ]

  or_else_assoc : (a b c : Option Ending) → or_else (or_else a b) c ≡ or_else a (or_else b c)
  or_else_assoc none b c = refl
  or_else_assoc (some e) b c = refl

  read_actions-Adds :
      (actions : List ModelAction) (d : InvestigationDecision)
      → Adds
          (map call_of actions)
          (requests_in names actions)
          (updates_in models actions)
          (first_ending models actions)
          d
          (read_actions models names actions d)
  unfolding read_actions
  read_actions-Adds [] d = record {
    counts = λ p. omega arith;
    requested = sym (append-nil d.tool_requests);
    updated = sym (append-nil d.hypothesis_updates);
    ends = λ before h. rw (or_else-none before) h;
  }
  read_actions-Adds (action ∷ rest) d =
      let one = read_action-Adds action d in
      let later = read_actions-Adds rest (read_action models names action d) in
      record {
        counts = λ p. omega (arith, one.counts p, later.counts p);
        requested =
            later.requested
            ∙ ap (λ rs. rs ++ requests_in names rest) one.requested
            ∙ append_assoc d.tool_requests (request_of names action) (requests_in names rest);
        updated =
            later.updated
            ∙ ap (λ us. us ++ updates_in models rest) one.updated
            ∙ append_assoc d.hypothesis_updates (update_of models action) (updates_in models rest);
        ends = λ before h.
            subst (λ e. HasEnding e (read_actions models names (action ∷ rest) d))
              (or_else_assoc before (ending_of models action) (first_ending models rest))
              (later.ends (or_else before (ending_of models action)) (one.ends before h));
      }

-- Whatever test on call ids and tool names is taken, as many calls of a turn pass it as entries of
-- the decision do, its updates, requests, ending and invalid calls together: no call is lost, read
-- twice or put under another id or tool. The requests are the calls of evidence tools, the updates
-- are the valid calls of the update tool, both in the order of the calls, and the ending is the
-- first valid call of either ending tool, if there is one.
pub interpret_turn-accounts :
    (models : ArgumentModels) (actions : List ModelAction) (names : List String) (p : Call → Bool)
    → let d = interpret_turn models actions names in
      (accounted p d ≡ count p (map call_of actions))
      × (d.tool_requests ≡ requests_in names actions)
      × (d.hypothesis_updates ≡ updates_in models actions)
      × HasEnding (first_ending models actions) d
unfolding interpret_turn
interpret_turn-accounts models actions names p =
    let r = read_actions-Adds models names actions no_calls in
    (omega (arith, r.counts p), r.requested, r.updated, r.ends none (refl, refl))
