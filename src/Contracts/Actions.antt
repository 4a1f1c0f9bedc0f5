-- ===== src/Contracts/Actions.antt =====
-- contracts/actions.py
use penny_core.Prelude.{String, Bool, true, false, Option, Eq, ◌≡◌, ◌↔◌, arith}
use penny_core.Contracts.Json.{Payload}
use penny_core.Prelude.{ℕ}

pub data ActionType : Type 0 where
  send_borrower_message notify_loan_officer schedule_call : ActionType
  request_document update_status no_op : ActionType

-- `ActionType.value`
unfoldable pub action_value : ActionType → String
action_value send_borrower_message = "send_borrower_message"
action_value notify_loan_officer = "notify_loan_officer"
action_value schedule_call = "schedule_call"
action_value request_document = "request_document"
action_value update_status = "update_status"
action_value no_op = "no_op"

unfoldable pub action_type_beq : ActionType → ActionType → Bool
action_type_beq send_borrower_message send_borrower_message = true
action_type_beq notify_loan_officer notify_loan_officer = true
action_type_beq schedule_call schedule_call = true
action_type_beq request_document request_document = true
action_type_beq update_status update_status = true
action_type_beq no_op no_op = true
action_type_beq _ _ = false

pub action_type_beq_iff : (a b : ActionType) → (action_type_beq a b ≡ true) ↔ (a ≡ b)
unfolding action_type_beq
action_type_beq_iff a b = ground arith

instance abbrev pub action_type_eq : Eq ActionType
action_type_eq = record { same = action_type_beq; same_iff = action_type_beq_iff }

pub data ActionStatus : Type 0 where
  pending_policy pending_approval pending_exec : ActionStatus
  executed execution_failed rejected : ActionStatus

-- `ActionStatus.value`
unfoldable pub status_value : ActionStatus → String
status_value pending_policy = "pending_policy"
status_value pending_approval = "pending_approval"
status_value pending_exec = "pending_exec"
status_value executed = "executed"
status_value execution_failed = "execution_failed"
status_value rejected = "rejected"

pub data ProposedBy : Type 0 where
  llm fallback : ProposedBy

unfoldable pub proposer_value : ProposedBy → String
proposer_value llm = "llm"
proposer_value fallback = "fallback"

pub record ActionProposal : Type 0 where
  pub id : String
  pub tenant_id : String
  pub event_id : String
  pub customer_id : Option String
  pub action_type : ActionType
  pub proposed_by : ProposedBy
  pub payload : Payload
  pub created_at : ℕ

pub record Action : Type 0 where
  pub id : String
  pub tenant_id : String
  pub proposal_id : String
  pub event_id : String
  pub customer_id : Option String
  pub action_type : ActionType
  pub status : ActionStatus
  pub payload : Payload
  pub created_at : ℕ
  pub updated_at : ℕ
  pub executed_at : Option ℕ
