-- ===== src/Investigation/Turn.antt =====
-- packages/domain/investigation.py: `interpret_turn`, which reads the calls of one model turn. The
-- models of the arguments are pydantic's, so their validation is a parameter. The visible text is
-- left out.
pub mod Calls
pub mod Adding
pub mod Accounting
use incident_triage.Base.{
  ℕ, String, Bool, true, false, not, ◌&&◌, ◌||◌, Option, none, some, List, [], ◌∷◌, ◌++◌, ◌==◌,
  string_eq, is_empty, is_some, contains, if◌then◌else◌, Document,
}
use incident_triage.Investigation.Hypothesis.{HypothesisUpdate}
use incident_triage.Investigation.Conclusion.{FinalInvestigationResult}

pub record ModelAction : Type 0 where
  pub call_id : String
  pub name : String
  pub arguments : Document

pub record InconclusiveDeclaration : Type 0 where
  pub reason : String
  pub evidence_gaps : List String
  pub leading_hypothesis_key : Option String

pub record ArgumentModels : Type 0 where
  pub batch : Document → Option (List HypothesisUpdate)
  pub result : Document → Option FinalInvestigationResult
  pub declaration : Document → Option InconclusiveDeclaration

pub record ToolRequest : Type 0 where
  pub call_id : String
  pub tool : String
  pub arguments : Document

pub data CallError : Type 0 where
  invalid_arguments second_terminal_call unknown_tool : CallError

pub record InvalidCall : Type 0 where
  pub call_id : String
  pub name : String
  pub error : CallError

pub record InvestigationDecision : Type 0 where
  pub hypothesis_updates : List (String × List HypothesisUpdate)
  pub tool_requests : List ToolRequest
  pub conclusion : Option (String × FinalInvestigationResult)
  pub inconclusive : Option (String × InconclusiveDeclaration)
  pub invalid_calls : List InvalidCall

abbrev pub has_actions : InvestigationDecision → Bool
has_actions d =
    not (is_empty d.hypothesis_updates)
    || not (is_empty d.tool_requests)
    || is_some d.conclusion
    || is_some d.inconclusive
    || not (is_empty d.invalid_calls)

-- The branches of the loop, on the decision so far.
abbrev pub reject : ModelAction → CallError → InvestigationDecision → InvestigationDecision
reject action error d = record d {
  invalid_calls =
      d.invalid_calls
      ++ (record { call_id = action.call_id; name = action.name; error = error } ∷ []);
}

abbrev pub add_updates :
    ModelAction → Option (List HypothesisUpdate) → InvestigationDecision → InvestigationDecision
add_updates action none d = reject action invalid_arguments d
add_updates action (some batch) d = record d {
  hypothesis_updates = d.hypothesis_updates ++ ((action.call_id, batch) ∷ []);
}

-- `conclusion is not None or inconclusive is not None`
abbrev pub is_closed : InvestigationDecision → Bool
is_closed d = is_some d.conclusion || is_some d.inconclusive

abbrev pub conclude :
    ModelAction → Option FinalInvestigationResult → InvestigationDecision → InvestigationDecision
conclude action none d = reject action invalid_arguments d
conclude action (some result) d =
    if is_closed d
    then reject action second_terminal_call d
    else record d { conclusion = some (action.call_id, result) }

abbrev pub give_up :
    ModelAction → Option InconclusiveDeclaration → InvestigationDecision → InvestigationDecision
give_up action none d = reject action invalid_arguments d
give_up action (some declaration) d =
    if is_closed d
    then reject action second_terminal_call d
    else record d { inconclusive = some (action.call_id, declaration) }

abbrev pub request_tool : ModelAction → InvestigationDecision → InvestigationDecision
request_tool action d = record d {
  tool_requests =
      d.tool_requests
      ++ (record { call_id = action.call_id; tool = action.name; arguments = action.arguments }
          ∷ []);
}

unfoldable pub read_action :
    ArgumentModels → List String → ModelAction → InvestigationDecision → InvestigationDecision
read_action models evidence_tool_names action d =
    if action.name == "update_hypotheses"
    then add_updates action (models.batch action.arguments) d
    else if action.name == "conclude_investigation"
    then conclude action (models.result action.arguments) d
    else if action.name == "declare_inconclusive"
    then give_up action (models.declaration action.arguments) d
    else if contains evidence_tool_names action.name
    then request_tool action d
    else reject action unknown_tool d

unfoldable pub read_actions :
    ArgumentModels → List String → List ModelAction → InvestigationDecision → InvestigationDecision
read_actions models evidence_tool_names [] d = d
read_actions models evidence_tool_names (action ∷ actions) d =
    read_actions models evidence_tool_names actions
      (read_action models evidence_tool_names action d)

abbrev pub no_calls : InvestigationDecision
no_calls = record {
  hypothesis_updates = [];
  tool_requests = [];
  conclusion = none;
  inconclusive = none;
  invalid_calls = [];
}

unfoldable pub interpret_turn :
    ArgumentModels → List ModelAction → List String → InvestigationDecision
interpret_turn models actions evidence_tool_names =
    read_actions models evidence_tool_names actions no_calls
