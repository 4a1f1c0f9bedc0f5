-- ===== src/Orchestrator/Pipeline/Views.antt =====
-- What the pipeline knows of one action: the stored action, its audit trail and its queue row.
use penny_core.Prelude.{
  ◌≡◌, Option, some, List, [], ◌∷◌, ◌++◌, ◌==◌, String, string_eq, arith, if◌then◌else◌,
}
use penny_core.Dict
use penny_core.Dict.{get-put, get_list-push}
use penny_core.Contracts.Actions.{Action}
use penny_core.Contracts.Audit.{AuditLogEntry}
use penny_core.Contracts.Policies.{ApprovalRule}
use penny_core.Orchestrator.Approval.{find}
use penny_core.Orchestrator.Audit.{write, push_optional, assign_id}
use penny_core.Orchestrator.Pipeline.Store.{put}
use penny_core.Orchestrator.Pipeline.Defs.{Pipeline, put_action, log_entry}

unfoldable pub stored : String → Pipeline → Option Action
stored a s = Dict.get s.actions.by_id a

unfoldable pub trail : String → Pipeline → List AuditLogEntry
trail a s = Dict.get_list s.audit.by_action a

unfoldable pub row : String → Pipeline → Option ApprovalRule
unfolding find
row a s = find a s.queue

module _ (a : String) (s : Pipeline) where
  pub stored-put_action :
      (action : Action)
      → stored a (put_action action s) ≡ (if action.id == a then some action else stored a s)
  unfolding stored put_action put
  stored-put_action action = get-put s.actions.by_id action.id a action

  pub trail-log_entry :
      (entry : AuditLogEntry) (b : String)
      → entry.action_id ≡ some b
      → trail a (log_entry entry s)
        ≡ (if b == a then trail a s ++ assign_id s.audit.next_id entry ∷ [] else trail a s)
  unfolding trail log_entry write push_optional assign_id
  trail-log_entry entry b h =
      ground (arith, get_list-push s.audit.by_action b a (assign_id s.audit.next_id entry))
