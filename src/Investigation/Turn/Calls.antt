-- ===== src/Investigation/Turn/Calls.antt =====
-- packages/domain/investigation.py: what a turn's calls come to, described apart from the loop that
-- reads them.
use incident_triage.Base.{
  ℕ, ◌+◌, ◌≡◌, String, Bool, not, ◌&&◌, Option, none, some, List, [], ◌∷◌, ◌++◌, ◌==◌, string_eq,
  contains, if◌then◌else◌,
}
use incident_triage.Investigation.Hypothesis.{HypothesisUpdate}
use incident_triage.Investigation.Conclusion.{FinalInvestigationResult}
use incident_triage.Investigation.Turn.{
  ModelAction, ArgumentModels, InconclusiveDeclaration, ToolRequest, InvalidCall,
  InvestigationDecision,
}

-- How many elements pass the test.
abbrev pub count {ℓ} : {A : Type ℓ} → (A → Bool) → List A → ℕ
count p [] = 0
count p (x ∷ xs) = count p xs + (if p x then 1 else 0)

abbrev pub count_one {ℓ} : {A : Type ℓ} → (A → Bool) → Option A → ℕ
count_one p none = 0
count_one p (some a) = if p a then 1 else 0

-- A call by its id and its tool.
abbrev pub Call : Type 0
Call = String × String

abbrev pub call_of : ModelAction → Call
call_of a = (a.call_id, a.name)

abbrev pub update_call : String × List HypothesisUpdate → Call
update_call u = (u.0, "update_hypotheses")

abbrev pub request_call : ToolRequest → Call
request_call r = (r.call_id, r.tool)

abbrev pub conclusion_call : String × FinalInvestigationResult → Call
conclusion_call c = (c.0, "conclude_investigation")

abbrev pub declaration_call : String × InconclusiveDeclaration → Call
declaration_call c = (c.0, "declare_inconclusive")

abbrev pub invalid_call : InvalidCall → Call
invalid_call c = (c.call_id, c.name)

-- The calls that a decision accounts for and that pass the test.
abbrev pub accounted : (Call → Bool) → InvestigationDecision → ℕ
accounted p d =
    count (λ u. p (update_call u)) d.hypothesis_updates
    + count (λ r. p (request_call r)) d.tool_requests
    + count_one (λ c. p (conclusion_call c)) d.conclusion
    + count_one (λ c. p (declaration_call c)) d.inconclusive
    + count (λ c. p (invalid_call c)) d.invalid_calls

abbrev pub is_decision_tool : String → Bool
is_decision_tool name =
    contains ("update_hypotheses" ∷ "conclude_investigation" ∷ "declare_inconclusive" ∷ []) name

-- The requests for evidence among the calls, in their order.
abbrev pub request_of : List String → ModelAction → List ToolRequest
request_of names a =
    if not (is_decision_tool a.name) && contains names a.name
    then record { call_id = a.call_id; tool = a.name; arguments = a.arguments } ∷ []
    else []

abbrev pub requests_in : List String → List ModelAction → List ToolRequest
requests_in names [] = []
requests_in names (a ∷ rest) = request_of names a ++ requests_in names rest

-- The updates with valid arguments among the calls, in their order.
abbrev pub valid_update :
    String → Option (List HypothesisUpdate) → List (String × List HypothesisUpdate)
valid_update id none = []
valid_update id (some batch) = (id, batch) ∷ []

abbrev pub update_of : ArgumentModels → ModelAction → List (String × List HypothesisUpdate)
update_of models a =
    if a.name == "update_hypotheses" then valid_update a.call_id (models.batch a.arguments) else []

abbrev pub updates_in : ArgumentModels → List ModelAction → List (String × List HypothesisUpdate)
updates_in models [] = []
updates_in models (a ∷ rest) = update_of models a ++ updates_in models rest

-- A valid call that ends the investigation.
pub data Ending : Type 0 where
  concluded : String → FinalInvestigationResult → Ending
  declared : String → InconclusiveDeclaration → Ending

abbrev pub valid_result : String → Option FinalInvestigationResult → Option Ending
valid_result id none = none
valid_result id (some result) = some (concluded id result)

abbrev pub valid_declaration : String → Option InconclusiveDeclaration → Option Ending
valid_declaration id none = none
valid_declaration id (some declaration) = some (declared id declaration)

abbrev pub ending_of : ArgumentModels → ModelAction → Option Ending
ending_of models a =
    if a.name == "conclude_investigation"
    then valid_result a.call_id (models.result a.arguments)
    else if a.name == "declare_inconclusive"
    then valid_declaration a.call_id (models.declaration a.arguments)
    else none

abbrev pub or_else : Option Ending → Option Ending → Option Ending
or_else none later = later
or_else (some e) later = some e

abbrev pub first_ending : ArgumentModels → List ModelAction → Option Ending
first_ending models [] = none
first_ending models (a ∷ rest) = or_else (ending_of models a) (first_ending models rest)

abbrev pub HasEnding : Option Ending → InvestigationDecision → Type 0
HasEnding none d = (d.conclusion ≡ none) × (d.inconclusive ≡ none)
HasEnding (some (concluded id result)) d =
    (d.conclusion ≡ some (id, result)) × (d.inconclusive ≡ none)
HasEnding (some (declared id declaration)) d =
    (d.conclusion ≡ none) × (d.inconclusive ≡ some (id, declaration))
