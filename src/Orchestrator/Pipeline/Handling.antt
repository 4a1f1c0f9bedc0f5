-- ===== src/Orchestrator/Pipeline/Handling.antt =====
-- `handle_proposal`: a new event's action settles, and a redelivered event gives it back.
use penny_core.Prelude.{
  ◌≡◌, refl, sym, ap, ◌∙◌, subst, true, String, some, none, inl, inr, List, [], ◌∷◌, string_eq,
  pair_eq, ◌⊎◌, Option-cases, eq_iff, arith,
}
use penny_core.Dict
use penny_core.Dict.{get-put, get-put_self}
use penny_core.Exec.{Exn, Result, ok, continue, modify, pure, ◌>>◌}
use penny_core.Contracts.{fits, fits_optional}
use penny_core.Contracts.Actions.{Action, ActionProposal}
use penny_core.Orchestrator.Pipeline.Defs.{
  Config, Env, Pipeline, action_fits, fresh_action, put_action, log_entry, write_audit, entry_fits,
  proposal_entry, decision_entry, row_for, materialize_action,
}
use penny_core.Orchestrator.Pipeline.Methods.{
  handle_new, handle_proposal, apply_decision, remember, fetch_all,
}
use penny_core.Orchestrator.Pipeline.Store.{get}
use penny_core.Orchestrator.Quorum.Rules
use penny_core.Orchestrator.Pipeline.Views.{stored, trail, row}
use penny_core.Orchestrator.Pipeline.Trail.{advance, advance_by, decided_phase}
use penny_core.Contracts.Json.{text}
use penny_core.Contracts.Policies.{PolicyDecision, decision_value}
use penny_core.Orchestrator.Pipeline.Local.{
  IsSeen, IsLocal-refl, put_action-IsSeen, log_entry-IsSeen,
}
use penny_core.Orchestrator.Pipeline.Running.{IsSettled, row_for-fits}
use penny_core.Orchestrator.Pipeline.Deciding.{apply_decision-IsSettled}
use penny_core.Orchestrator.Pipeline.Sound.{IsSound, IsRemembered, settled-IsSound}

-- The proposal and the new ids fit the contracts, and the action's id is new.
pub record IsReady (env : Env) (proposal : ActionProposal) (s : Pipeline) : Type 0 where
  pub fit : action_fits (fresh_action env proposal) ≡ true
  pub queue_id : fits 64 env.new_queue_id ≡ true
  pub unused : stored env.new_action_id s ≡ none

module _ (config : Config) (env : Env) (proposal : ActionProposal) (s : Pipeline) where
  abbrev action : Action
  action = fresh_action env proposal

  abbrev decision : PolicyDecision
  decision = config.decide proposal.tenant_id proposal.action_type

  -- The state when the policy's decision is applied.
  unfoldable pub decided_state : Pipeline
  decided_state =
      log_entry (decision_entry env decision action)
        (log_entry (proposal_entry env proposal action) (put_action action s))

  proposal_entry-fits :
      action_fits action ≡ true → entry_fits (proposal_entry env proposal action) ≡ true
  unfolding proposal_entry fits_optional
  proposal_entry-fits fit = row_for-fits action _ _ _ none _ fit refl

  decision_entry-fits :
      action_fits action ≡ true → entry_fits (decision_entry env decision action) ≡ true
  unfolding decision_entry fits_optional
  decision_entry-fits fit = row_for-fits action _ _ _ none _ fit refl

  handle_new_result :
      action_fits action ≡ true
      → handle_new config env proposal s ≡ (
          let (r, s') = apply_decision config env action decision decided_state in
          continue r (λ resolved. modify (remember proposal resolved) >> pure (resolved ∷ [])) s')
  unfolding handle_new materialize_action write_audit decided_state
  handle_new_result fit = ground (arith, fit, proposal_entry-fits fit, decision_entry-fits fit)

  module _ (sound : IsSound s) (ready : IsReady env proposal s) where
    decided-IsSeen :
        IsSeen action.id s action
          (decided_phase (some (text (decision_value decision))))
          none
          decided_state
    unfolding decided_state proposal_entry decision_entry advance advance_by row_for fresh_action
        decision_value Dict.get
    decided-IsSeen = log_entry-IsSeen (decision_entry env decision action) refl (
        log_entry-IsSeen (proposal_entry env proposal action) refl (
          put_action-IsSeen (IsLocal-refl env.new_action_id s sound.queue_valid)
            (sound.untold env.new_action_id ready.unused)
            (sound.unqueued env.new_action_id ready.unused) refl))

    pub decided-IsSettled :
        IsSettled s action (apply_decision config env action decision decided_state)
    decided-IsSettled =
        let seen = decided-IsSeen in
        apply_decision-IsSettled config env s action decided_state seen.rest seen.queued ready.fit
          (subst Rules.IsValid (sym seen.rest.quorum_same) sound.quorum_valid) ready.queue_id
          decision seen.told

    abbrev done : Action
    done = decided-IsSettled.done

    abbrev settled_state : Pipeline
    settled_state = (apply_decision config env action decision decided_state).1

    handled :
        handle_new config env proposal s ≡ (ok (done ∷ []), remember proposal done settled_state)
    handled =
        handle_new_result ready.fit
        ∙ ap
            (λ r.
              continue r (λ resolved. modify (remember proposal resolved) >> pure (resolved ∷ []))
                settled_state)
            decided-IsSettled.returned

    outcome-IsSound : IsSound settled_state
    unfolding fresh_action
    outcome-IsSound =
        settled-IsSound s sound action ready.fit (λ old h. cc (h, ready.unused)) _ decided-IsSettled

    ids_from :
        (t e : String) (ids : List String)
        → Dict.get (remember proposal done settled_state).dedup (t, e) ≡ some ids
        → ((done.id ∷ [] ≡ ids) × (proposal.tenant_id ≡ t) × (proposal.event_id ≡ e))
          ⊎ (Dict.get settled_state.dedup (t, e) ≡ some ids)
    unfolding remember
    ids_from t e ids h = ground (
      arith,
      get-put settled_state.dedup (proposal.tenant_id, proposal.event_id) (t, e) (done.id ∷ []),
      eq_iff proposal.tenant_id t,
      eq_iff proposal.event_id e,
      h,
    )

    IsRemembered-new :
        (t e : String) (ids : List String)
        → Dict.get (remember proposal done settled_state).dedup (t, e) ≡ some ids
        → IsRemembered t e ids (remember proposal done settled_state)
    unfolding remember stored fresh_action
    IsRemembered-new t e ids h = elim (ids_from t e ids h) [
      | inl (single, tenant, event) ↦ record {
        action = done;
        single = sym single;
        holds =
            ap (λ a. stored a settled_state) decided-IsSettled.version.id_same
            ∙ decided-IsSettled.seen.holds;
        of_tenant = decided-IsSettled.version.tenant_same ∙ tenant;
        of_event = decided-IsSettled.version.event_same ∙ event;
      }
      | inr old ↦
          let held = outcome-IsSound.remembered t e ids old in
          record {
            action = held.action;
            single = held.single;
            holds = held.holds;
            of_tenant = held.of_tenant;
            of_event = held.of_event;
          }
    ]

    remember-IsSound : IsSound (remember proposal done settled_state)
    unfolding remember stored trail row
    remember-IsSound = record {
      queue_valid = outcome-IsSound.queue_valid;
      quorum_valid = outcome-IsSound.quorum_valid;
      untold = outcome-IsSound.untold;
      unqueued = outcome-IsSound.unqueued;
      known = λ a act h. record {
        keyed = (outcome-IsSound.known a act h).keyed;
        fit = (outcome-IsSound.known a act h).fit;
        told = (outcome-IsSound.known a act h).told;
        coherent = (outcome-IsSound.known a act h).coherent;
      };
      remembered = IsRemembered-new;
    }

-- How a call of `handle_proposal` ends: it returns the one action of the event, as it is stored.
pub record IsHandled (proposal : ActionProposal) (result : Result Exn (List Action) × Pipeline)
    : Type 0 where
  pub action : Action
  pub returned : result.0 ≡ ok (action ∷ [])
  pub holds : stored action.id result.1 ≡ some action
  pub of_tenant : action.tenant_id ≡ proposal.tenant_id
  pub of_event : action.event_id ≡ proposal.event_id
  pub sound : IsSound result.1
  pub indexed :
      Dict.get result.1.dedup (proposal.tenant_id, proposal.event_id) ≡ some (action.id ∷ [])

module _ (config : Config) (env : Env) (proposal : ActionProposal) (s : Pipeline)
    (sound : IsSound s) (ready : IsReady env proposal s) where
  handle_new-IsHandled : IsHandled proposal (handle_new config env proposal s)
  unfolding remember fresh_action stored
  handle_new-IsHandled =
      let settled = decided-IsSettled config env proposal s sound ready in
      subst (IsHandled proposal) (sym (handled config env proposal s sound ready)) (record {
        action = settled.done;
        returned = refl;
        holds =
            ap (λ a. Dict.get (settled_state config env proposal s sound ready).actions.by_id a)
              settled.version.id_same
            ∙ settled.seen.holds;
        of_tenant = settled.version.tenant_same;
        of_event = settled.version.event_same;
        sound = remember-IsSound config env proposal s sound ready;
        indexed =
            get-put_self (settled_state config env proposal s sound ready).dedup
              (proposal.tenant_id, proposal.event_id) (settled.done.id ∷ []);
      })

  handle_proposal_new :
      Dict.get s.dedup (proposal.tenant_id, proposal.event_id) ≡ none
      → handle_proposal config env proposal s ≡ handle_new config env proposal s
  unfolding handle_proposal
  handle_proposal_new new = ground (arith, new)

module _ (config : Config) (env : Env) (proposal : ActionProposal) (s : Pipeline)
    (sound : IsSound s) where
  -- An event that has its action gets it back, in its present state, and nothing changes.
  pub redelivery_result :
      (ids : List String)
      → Dict.get s.dedup (proposal.tenant_id, proposal.event_id) ≡ some ids
      → (action : Action) × (ids ≡ action.id ∷ [])
        × (handle_proposal config env proposal s ≡ (ok (action ∷ []), s))
        × (stored action.id s ≡ some action)
        × (action.tenant_id ≡ proposal.tenant_id)
        × (action.event_id ≡ proposal.event_id)
  unfolding handle_proposal fetch_all get stored
  redelivery_result ids h =
      let held = sound.remembered proposal.tenant_id proposal.event_id ids h in
      (
        held.action,
        held.single,
        ground (arith, h, held.single, held.holds),
        held.holds,
        held.of_tenant,
        held.of_event,
      )

  -- In a sound state, a proposal that fits its contract, with new ids that fit and an unused action
  -- id, always returns its event's one action, as it is stored then, and leaves the pipeline sound
  -- and the event indexed.
  pub handle_proposal-IsHandled :
      IsReady env proposal s → IsHandled proposal (handle_proposal config env proposal s)
  handle_proposal-IsHandled ready =
      elim (Option-cases (Dict.get s.dedup (proposal.tenant_id, proposal.event_id))) [
        | inl new ↦
            subst (IsHandled proposal)
              (sym (handle_proposal_new config env proposal s sound ready new))
              (handle_new-IsHandled config env proposal s sound ready)
        | inr (ids, h) ↦
            let (action, single, result, holds, of_tenant, of_event) = redelivery_result ids h in
            subst (IsHandled proposal) (sym result) (record {
              action = action;
              returned = refl;
              holds = holds;
              of_tenant = of_tenant;
              of_event = of_event;
              sound = sound;
              indexed = h ∙ ap some single;
            })
      ]

-- When a proposal that fits its contract is handled in a sound state, with new ids that fit and an
-- unused action id, a second delivery of its event, under whatever policies, executors, clock and
-- new ids, returns what the first one returned and changes nothing at all.
pub redelivery_idempotent :
    (config again : Config) (env later : Env) (proposal redelivered : ActionProposal) (s : Pipeline)
    → IsSound s
    → IsReady env proposal s
    → redelivered.tenant_id ≡ proposal.tenant_id
    → redelivered.event_id ≡ proposal.event_id
    → handle_proposal again later redelivered (handle_proposal config env proposal s).1
      ≡ handle_proposal config env proposal s
redelivery_idempotent config again env later proposal redelivered s sound ready tenant event =
    let first = handle_proposal-IsHandled config env proposal s sound ready in
    let (action, single, result, holds, of_tenant, of_event) =
      redelivery_result again later redelivered (handle_proposal config env proposal s).1
        first.sound (first.action.id ∷ []) (cc (first.indexed, tenant, event)) in
    let same : action ≡ first.action = cc (single, holds, first.holds) in
    let answer : ok (action ∷ []) ≡ (handle_proposal config env proposal s).0 =
      cc (same, first.returned) in
    result ∙ ap (λ r. (r, (handle_proposal config env proposal s).1)) answer
