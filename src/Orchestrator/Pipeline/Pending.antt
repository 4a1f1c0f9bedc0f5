-- ===== src/Orchestrator/Pipeline/Pending.antt =====
-- `list_pending_actions` against the queue's own listing.
use penny_core.Prelude.{
  ◌≡◌, refl, sym, ap, ap₂, subst, ◌∙◌, true, String, some, List, [], ◌∷◌, map, string_eq,
  Option-cases, inl, inr, arith,
}
use penny_core.Contracts.Actions.{Action, pending_approval}
use penny_core.Contracts.Policies.{ApprovalRule}
use penny_core.Orchestrator.Approval.{find, list_pending}
use penny_core.Orchestrator.Approval.Invariant.{waits_for}
use penny_core.Orchestrator.Approval.Listing.{All, listed, mem-listed, waiting_of_mem}
use penny_core.Orchestrator.Pipeline.Defs.{Pipeline}
use penny_core.Orchestrator.Pipeline.Store.{get}
use penny_core.Orchestrator.Pipeline.Methods.{actions_of, list_pending_actions}
use penny_core.Orchestrator.Pipeline.Views.{stored, row}
use penny_core.Orchestrator.Pipeline.Running.{agrees}
use penny_core.Orchestrator.Pipeline.Voting.{waiting-status}
use penny_core.Orchestrator.Pipeline.Sound.{IsSound}
use penny_core.Orchestrator.Pipeline.History.{Reachable, reachable-IsSound}

module _ (s : Pipeline) (sound : IsSound s) where
  -- The action of a row that waits.
  waiting_action :
      (t a : String)
      → waits_for t (find a s.queue) ≡ true
      → (action : Action) × (stored a s ≡ some action)
        × (action.status ≡ pending_approval)
        × (action.id ≡ a)
  unfolding waits_for row
  waiting_action t a h = elim (Option-cases (find a s.queue)) [
    | inl missing ↦ ground (arith, h, missing)
    | inr (rule, there) ↦ elim (Option-cases (stored a s)) [
      | inl absent ↦ cc (sound.unqueued a absent, there)
      | inr (action, held) ↦
          let known = sound.known a action held in
          (
            action,
            held,
            waiting-status action.status rule
                (ap (agrees action.status) (sym there) ∙ known.coherent) (ground (arith, h, there)),
            known.keyed,
          )
    ]
  ]

  actions_of-cons :
      (rule : ApprovalRule) (rules : List ApprovalRule) (action : Action)
      → stored rule.action_id s ≡ some action
      → actions_of s.actions (rule ∷ rules) ≡ action ∷ actions_of s.actions rules
  unfolding actions_of get stored
  actions_of-cons rule rules action h = ground (arith, h)

  found-All :
      (t : String) (rules : List ApprovalRule)
      → All
          (λ a. waits_for t (find a s.queue) ≡ true)
          (map (λ (r : ApprovalRule). r.action_id) rules)
      → (map (λ (x : Action). x.id) (actions_of s.actions rules)
          ≡ map (λ (r : ApprovalRule). r.action_id) rules)
        × All (λ (x : Action). x.status ≡ pending_approval) (actions_of s.actions rules)
  unfolding actions_of
  found-All t [] h = (refl, tt)
  found-All t (rule ∷ rules) (h, more) =
      let (action, held, status, id) = waiting_action t rule.action_id h in
      let rest = found-All t rules more in
      subst
        (λ actions.
          (map (λ (x : Action). x.id) actions
            ≡ map (λ (r : ApprovalRule). r.action_id) (rule ∷ rules))
          × All (λ (x : Action). x.status ≡ pending_approval) actions)
        (sym (actions_of-cons rule rules action held))
        (ap₂ (λ x xs. x ∷ xs) id rest.0, (status, rest.1))

-- After any history of the calls of Step, a tenant's pending actions are exactly the actions of the
-- rows that the queue lists for it, in the queue's order: none is skipped, and each of them has
-- status pending_approval.
pub list_pending_actions_complete :
    (s : Pipeline) (history : Reachable s) (t : String)
    → (map (λ (x : Action). x.id) (list_pending_actions t s) ≡ listed t s.queue)
      × All (λ (x : Action). x.status ≡ pending_approval) (list_pending_actions t s)
unfolding list_pending_actions listed find
list_pending_actions_complete s history t =
    let sound = reachable-IsSound history in
    let waits =
      waiting_of_mem t s.queue sound.queue_valid (listed t s.queue)
        (λ a m. sym (mem-listed t s.queue sound.queue_valid a) ∙ m) in
    found-All s sound t (list_pending t s.queue) waits
