-- ===== src/Orchestrator/Pipeline/Sound.antt =====
-- The invariant of the pipeline between calls.
use penny_core.Prelude.{
  ◌≡◌, sym, ap, ◌∙◌, subst, true, String, some, none, inl, inr, List, [], ◌∷◌, string_eq, pair_eq,
}
use penny_core.Dict
use penny_core.Exec.{Exn, Result}
use penny_core.Contracts.Actions.{Action}
use penny_core.Orchestrator.Approval.Invariant
use penny_core.Orchestrator.Approval.Calls.{same_or_not}
use penny_core.Orchestrator.Quorum.Rules
use penny_core.Orchestrator.Pipeline.Defs.{Pipeline, action_fits}
use penny_core.Orchestrator.Pipeline.Views.{stored, trail, row}
use penny_core.Orchestrator.Pipeline.Trail.{unborn, at, replay}
use penny_core.Orchestrator.Pipeline.Running.{IsSettled, agrees}

-- A stored action: its trail tells its status, and its status and its queue row agree.
pub record IsKnown (a : String) (action : Action) (s : Pipeline) : Type 0 where
  pub keyed : action.id ≡ a
  pub fit : action_fits action ≡ true
  pub told : replay unborn (trail a s) ≡ at action.status
  pub coherent : agrees action.status (row a s) ≡ true

-- What the dedup index holds for an event: the one action that it caused.
pub record IsRemembered (t e : String) (ids : List String) (s : Pipeline) : Type 0 where
  pub action : Action
  pub single : ids ≡ action.id ∷ []
  pub holds : stored action.id s ≡ some action
  pub of_tenant : action.tenant_id ≡ t
  pub of_event : action.event_id ≡ e

pub record IsSound (s : Pipeline) : Type 0 where
  pub queue_valid : Invariant.IsValid s.queue
  pub quorum_valid : Rules.IsValid s.quorum
  pub untold : (a : String) → stored a s ≡ none → replay unborn (trail a s) ≡ unborn
  pub unqueued : (a : String) → stored a s ≡ none → row a s ≡ none
  pub known : (a : String) (action : Action) → stored a s ≡ some action → IsKnown a action s
  pub remembered :
      (t e : String) (ids : List String)
      → Dict.get s.dedup (t, e) ≡ some ids
      → IsRemembered t e ids s

module _ (start : Pipeline) (sound : IsSound start) (action : Action)
    (fit : action_fits action ≡ true)
    (before : (old : Action)
      → stored action.id start ≡ some old
      → (old.tenant_id ≡ action.tenant_id) × (old.event_id ≡ action.event_id))
    (result : Result Exn Action × Pipeline) (settled : IsSettled start action result) where
  done-IsKnown : IsKnown action.id settled.done result.1
  done-IsKnown = record {
    keyed = settled.version.id_same;
    fit = settled.version.fit_same ∙ fit;
    told = settled.seen.told;
    coherent = ap (agrees settled.done.status) settled.seen.queued ∙ settled.coherent;
  }

  IsKnown-self :
      (now : Action) → stored action.id result.1 ≡ some now → IsKnown action.id now result.1
  IsKnown-self now h =
      let same : settled.done ≡ now = cc (settled.seen.holds, h) in
      subst (λ n. IsKnown action.id n result.1) same done-IsKnown

  IsRemembered-self :
      (t e : String) (ids : List String) (old : IsRemembered t e ids start)
      → action.id ≡ old.action.id
      → IsRemembered t e ids result.1
  IsRemembered-self t e ids old same =
      let (tenant, event) = before old.action (ap (λ b. stored b start) same ∙ old.holds) in
      record {
        action = settled.done;
        single = cc (old.single, same, settled.version.id_same);
        holds = ap (λ b. stored b result.1) settled.version.id_same ∙ settled.seen.holds;
        of_tenant = settled.version.tenant_same ∙ sym tenant ∙ old.of_tenant;
        of_event = settled.version.event_same ∙ sym event ∙ old.of_event;
      }

  settled-IsKnown :
      (a : String) (now : Action) → stored a result.1 ≡ some now → IsKnown a now result.1
  settled-IsKnown a now h = elim (same_or_not a action.id) [
    | inl same ↦
        subst (λ b. (n : Action) → stored b result.1 ≡ some n → IsKnown b n result.1) same
          IsKnown-self now h
    | inr other ↦
        let old = sound.known a now (sym (settled.seen.rest.stored_other a other) ∙ h) in
        record {
          keyed = old.keyed;
          fit = old.fit;
          told = ap (replay unborn) (settled.seen.rest.trail_other a other) ∙ old.told;
          coherent = ap (agrees now.status) (settled.seen.rest.row_other a other) ∙ old.coherent;
        }
  ]

  settled-IsRemembered :
      (t e : String) (ids : List String)
      → Dict.get result.1.dedup (t, e) ≡ some ids
      → IsRemembered t e ids result.1
  settled-IsRemembered t e ids h =
      let old =
        sound.remembered t e ids
          (ap (λ d. Dict.get d (t, e)) (sym settled.seen.rest.dedup_same) ∙ h) in
      elim (same_or_not old.action.id action.id) [
        | inl same ↦ IsRemembered-self t e ids old same
        | inr other ↦ record {
          action = old.action;
          single = old.single;
          holds = settled.seen.rest.stored_other old.action.id other ∙ old.holds;
          of_tenant = old.of_tenant;
          of_event = old.of_event;
        }
      ]

  pub settled-IsSound : IsSound result.1
  settled-IsSound = record {
    queue_valid = settled.seen.rest.queue_valid;
    quorum_valid = subst Rules.IsValid (sym settled.seen.rest.quorum_same) sound.quorum_valid;
    untold = λ a h. elim (same_or_not a action.id) [
      | inl same ↦ cc (same, h, settled.seen.holds)
      | inr other ↦
          ap (replay unborn) (settled.seen.rest.trail_other a other)
          ∙ sound.untold a (sym (settled.seen.rest.stored_other a other) ∙ h)
    ];
    unqueued = λ a h. elim (same_or_not a action.id) [
      | inl same ↦ cc (same, h, settled.seen.holds)
      | inr other ↦
          settled.seen.rest.row_other a other
          ∙ sound.unqueued a (sym (settled.seen.rest.stored_other a other) ∙ h)
    ];
    known = settled-IsKnown;
    remembered = settled-IsRemembered;
  }
