-- ===== src/Investigation/Turn/Adding.antt =====
-- packages/domain/investigation.py: what each branch of the loop over a turn's calls adds.
use mathlib.Core.List.{append-nil}
use incident_triage.Base.{
  ◌+◌, ◌≡◌, refl, sym, ap, inl, inr, String, Bool, true, false, Option, none, some, List, [], ◌∷◌,
  ◌++◌, string_eq, is_some, arith, Bool-cases,
}
use incident_triage.Investigation.Hypothesis.{HypothesisUpdate}
use incident_triage.Investigation.Conclusion.{FinalInvestigationResult}
use incident_triage.Investigation.Turn.Calls.{
  count, Call, call_of, update_call, request_call, invalid_call, accounted, valid_update, Ending,
  concluded, declared, valid_result, valid_declaration, or_else, HasEnding,
}
use incident_triage.Investigation.Turn.{
  ModelAction, InconclusiveDeclaration, ToolRequest, InvestigationDecision, reject, add_updates,
  is_closed, conclude, give_up, request_tool, CallError,
}

pub count-append {ℓ} :
    {A : Type ℓ} (p : A → Bool) (xs ys : List A) → count p (xs ++ ys) ≡ count p xs + count p ys
count-append p [] ys = omega arith
count-append p (x ∷ xs) ys = omega (arith, count-append p xs ys)

-- What reading calls adds to a decision.
pub record Adds (calls : List Call) (requests : List ToolRequest)
    (updates : List (String × List HypothesisUpdate)) (ending : Option Ending)
    (d d' : InvestigationDecision) : Type 0 where
  pub counts : (p : Call → Bool) → accounted p d' ≡ accounted p d + count p calls
  pub requested : d'.tool_requests ≡ d.tool_requests ++ requests
  pub updated : d'.hypothesis_updates ≡ d.hypothesis_updates ++ updates
  pub ends : (before : Option Ending) → HasEnding before d → HasEnding (or_else before ending) d'

pub or_else-none : (o : Option Ending) → or_else o none ≡ o
or_else-none none = refl
or_else-none (some e) = refl

pub rejected :
    (action : ModelAction) (e : CallError) (ending : Option Ending) (d : InvestigationDecision)
    → ((before : Option Ending) → HasEnding before d → or_else before ending ≡ before)
    → Adds (call_of action ∷ []) [] [] ending d (reject action e d)
rejected action e ending d same = record {
  counts = λ p. omega (arith, count-append (λ c. p (invalid_call c)) d.invalid_calls (_ ∷ []));
  requested = sym (append-nil d.tool_requests);
  updated = sym (append-nil d.hypothesis_updates);
  ends = λ before h. rw (same before h) (keeps before h);
}
  where
    keeps : (before : Option Ending) → HasEnding before d → HasEnding before (reject action e d)
    keeps none h = h
    keeps (some (concluded id result)) h = h
    keeps (some (declared id declaration)) h = h

pub updates-Adds :
    (action : ModelAction) (batch : Option (List HypothesisUpdate)) (d : InvestigationDecision)
    → action.name ≡ "update_hypotheses"
    → Adds
        (call_of action ∷ [])
        []
        (valid_update action.call_id batch)
        none
        d
        (add_updates action batch d)
updates-Adds action none d named = rejected action _ none d (λ before h. or_else-none before)
updates-Adds action (some batch) d named = record {
  counts = λ p. rw named (
      omega (
        arith,
        count-append (λ u. p (update_call u)) d.hypothesis_updates ((action.call_id, batch) ∷ []),
      ));
  requested = sym (append-nil d.tool_requests);
  updated = refl;
  ends = λ before h. rw (or_else-none before) (keeps before h);
}
  where
    keeps :
        (before : Option Ending)
        → HasEnding before d
        → HasEnding before (add_updates action (some batch) d)
    keeps none h = h
    keeps (some (concluded id result)) h = h
    keeps (some (declared id declaration)) h = h

closed-or_else :
    (before ending : Option Ending) (d : InvestigationDecision)
    → is_closed d ≡ true
    → HasEnding before d
    → or_else before ending ≡ before
closed-or_else none ending d closed h = cc (closed, ap is_some (h.0), ap is_some (h.1))
closed-or_else (some e) ending d closed h = refl

pub conclude-Adds :
    (action : ModelAction) (result : Option FinalInvestigationResult) (d : InvestigationDecision)
    → action.name ≡ "conclude_investigation"
    → Adds
        (call_of action ∷ [])
        []
        []
        (valid_result action.call_id result)
        d
        (conclude action result d)
conclude-Adds action none d named = rejected action _ none d (λ before h. or_else-none before)
conclude-Adds action (some result) d named = elim (Bool-cases (is_closed d)) [
  | inl closed ↦ rw closed (rejected action _ _ d (λ before h. closed-or_else before _ d closed h))
  | inr open_ ↦ rw open_ (record {
    counts = λ p. rw named (ground arith);
    requested = sym (append-nil d.tool_requests);
    updated = sym (append-nil d.hypothesis_updates);
    ends = ends open_;
  })
]
  where
    ends :
        is_closed d ≡ false
        → (before : Option Ending) → HasEnding before d
        → HasEnding
            (or_else before (some (concluded action.call_id result)))
            (record d { conclusion = some (action.call_id, result) })
    ends open_ none h = (refl, h.1)
    ends open_ (some (concluded id r)) h = cc (open_, ap is_some h.0)
    ends open_ (some (declared id r)) h = cc (open_, ap is_some h.0, ap is_some h.1)

pub give_up-Adds :
    (action : ModelAction) (declaration : Option InconclusiveDeclaration)
    (d : InvestigationDecision)
    → action.name ≡ "declare_inconclusive"
    → Adds
        (call_of action ∷ [])
        []
        []
        (valid_declaration action.call_id declaration)
        d
        (give_up action declaration d)
give_up-Adds action none d named = rejected action _ none d (λ before h. or_else-none before)
give_up-Adds action (some declaration) d named = elim (Bool-cases (is_closed d)) [
  | inl closed ↦ rw closed (rejected action _ _ d (λ before h. closed-or_else before _ d closed h))
  | inr open_ ↦ rw open_ (record {
    counts = λ p. rw named (ground arith);
    requested = sym (append-nil d.tool_requests);
    updated = sym (append-nil d.hypothesis_updates);
    ends = ends open_;
  })
]
  where
    ends :
        is_closed d ≡ false
        → (before : Option Ending) → HasEnding before d
        → HasEnding
            (or_else before (some (declared action.call_id declaration)))
            (record d { inconclusive = some (action.call_id, declaration) })
    ends open_ none h = (h.0, refl)
    ends open_ (some (concluded id r)) h = cc (open_, ap is_some h.0)
    ends open_ (some (declared id r)) h = cc (open_, ap is_some h.0, ap is_some h.1)

pub request-Adds :
    (action : ModelAction) (d : InvestigationDecision)
    → Adds
        (call_of action ∷ [])
        (record { call_id = action.call_id; tool = action.name; arguments = action.arguments } ∷ [])
        []
        none
        d
        (request_tool action d)
request-Adds action d = record {
  counts = λ p. omega (arith, count-append (λ r. p (request_call r)) d.tool_requests (_ ∷ []));
  requested = refl;
  updated = sym (append-nil d.hypothesis_updates);
  ends = λ before h. rw (or_else-none before) (keeps before h);
}
  where
    keeps : (before : Option Ending) → HasEnding before d → HasEnding before (request_tool action d)
    keeps none h = h
    keeps (some (concluded id result)) h = h
    keeps (some (declared id declaration)) h = h
