-- ===== src/Lib.antt =====
-- The incident triage service: alerts are correlated into incidents, a remediation is proposed
-- for an incident's root cause, judged by policy, approved by a human and executed by a worker,
-- and a verification observes whether it worked and resolves, escalates or reopens the incident.
--
-- The parts and the files that model them:
--  * Correlation (packages/domain/correlation_engine.py): which open incident a new alert joins.
--    Rules has the rule classes as constructors, Engine the two loops of
--    `CorrelationEngine.decide`.
--  * Investigation (packages/domain/investigation.py): the rules on a language model's findings:
--    `check_hypothesis_update` in Hypothesis, `evaluate_conclusion` in Conclusion, and
--    `interpret_turn` in Turn. The root cause that they accept is what a remediation rests on.
--  * Investigation.Core (packages/incident/investigations.py): the commands on one investigation:
--    `claim`, `release`, `record_step` in Core, `apply_hypothesis_updates` in Updates, `complete`
--    and `escalate` in Outcome; `request_investigation`, which starts one for an incident, in
--    Starting. They apply the rules of Investigation to the trace and the evidence that the
--    database holds.
--  * Evidence (packages/evidence/scope.py, limits.py, errors.py): the scope of an incident, which
--    decides the services, windows and limits of a query for evidence.
--  * Remediation.Catalog (packages/remediation/catalog.py): the actions that can be proposed.
--  * Policy (packages/policy/engine.py): `evaluate`, the rules on a proposal, its catalog entry
--    and the facts of the context.
--  * Remediation.Status, Remediation.Proposal (packages/domain/remediation.py): the data of both.
--  * Remediation.Core (packages/incident/remediations.py): the commands on one remediation:
--    `propose` in Proposing, which has Policy judge the facts that Context reads,
--    `decide_approval`, `expire_approvals`, `cancel` in Approval, `revise` in Revising,
--    `claim_execution` in Execution, `complete_execution` and `record_baseline` in Report,
--    `set_kill_switch` in KillSwitch. A succeeded attempt creates the verification from the
--    catalog entry's policy in the same step.
--  * Verification (packages/domain/verification.py): policies, specifications, the evaluation of
--    an observation in Sample and the verdict in Decision.
--  * Verification.Core (packages/incident/verifications.py): the commands on one verification:
--    `start` and what a verdict does to the incident, and in Polling `claim_due` and
--    `record_observation`.
--  * Incident (packages/incident/repository.py, packages/domain/enums.py): the incident's row and
--    the guarded change of its status, which both groups of commands use.
--  * Incident.Ingestion (packages/incident/service.py, packages/incident/repository.py):
--    `handle_alert_received`, which records an alert that fires, asks Correlation which incident
--    it joins, and cancels an incident in triage when its last alert is resolved; its ledger of
--    commands and retries are in Ledger. Incident.Evidence: `register_evidence_ref`.
--  * Errors (packages/domain/errors.py), Base, Floats and Builtins: shared by all of these.
--
-- How state and operations correspond. A record `Db` holds the rows
-- (packages/incident/db/models.py) of one remediation, verification or investigation, with its
-- incident. A command is a function from `Db` to a `Result`: a command that raises leaves its
-- transaction uncommitted, so it returns no state. Each command holds row locks, so commands
-- follow one another; interleavings of workers, approvers and operators are the step relations
-- `Step` and `Reach` of Remediation.Core.Lifecycle, Verification.Core.Reachable and
-- Investigation.Core.Reachable, in which others may change the incident, its alerts and its
-- evidence at any point. `complete` and `escalate` read the incident without a lock: the row that
-- the guarded update then finds is their argument `stored`. `handle_alert_received`, `propose` and
-- `request_investigation` read more than one such unit and have states of their own (`Db` of
-- Incident.Ingestion, `World`, `Store`). A query over all rows
-- (`expire_approvals`, `pending_executions`, `due`, `resumable`, `due_for_investigation`) is its
-- test of one row. A constraint of the database that a command can break is a test that raises: the
-- foreign key of a proposal's investigation and the keys of a report's evidence links.
--
-- Representation. Times are microseconds as natural numbers, identifiers are natural numbers and
-- a new one is a counter; a command reads the clock once, but for an
-- alert's time of receipt, which is the database's. The time scale of verifications is in
-- millionths. Metric limits and measured values are the bit patterns of doubles that are not
-- negative, whose order is the numbers'. Scores of correlation are an interface of floats with
-- its order laws, which exact decimals fill. Python's `int`, `str`, `str.lower` and pydantic's
-- `model_validate` are parameters (Builtins, `Validator`), with what the code relies on as named
-- records. Every loop is a recursion on a list, but for the three tries of
-- `handle_alert_received`, which count down. A try is given the databases that its transaction
-- and the reading after a lost race find; the lock on service and environment makes its
-- transaction one step.
--
-- Not modelled: explanations and other free texts, which are dropped or kept as the data that
-- they are printed from; logs, metrics and actors; evidence links of a baseline; the result
-- document and the printed summary of an investigation, and the read views; the hashes that are
-- an alert's idempotency key and fingerprint; event delivery and the queries for evidence
-- themselves; adapters, HTTP services, the dashboard and the simulator.
pub mod Base
pub mod Errors
pub mod Evidence
pub mod Investigation
pub mod Floats
pub mod Builtins
pub mod Correlation
pub mod Incident
pub mod Remediation
pub mod Policy
pub mod Verification
