-- ===== src/Orchestrator/Pipeline/Local.antt =====
-- The steps of a method on one action, and what they leave alone.
use penny_core.Prelude.{
  ◌≡◌, ◌≢◌, refl, ◌∙◌, true, String, Option, some, [], ◌∷◌, string_eq, beq_refl, beq_ne, arith,
}
use penny_core.Exec.{ok}
use penny_core.Contracts.Actions.{Action}
use penny_core.Contracts.Audit.{AuditLogEntry}
use penny_core.Contracts.Policies.{ApprovalRule}
use penny_core.Orchestrator.Approval.{Queue, find}
use penny_core.Orchestrator.Approval.Invariant
use penny_core.Orchestrator.Audit.{assign_id}
use penny_core.Orchestrator.Pipeline.Defs.{Pipeline, put_action, log_entry, write_audit, entry_fits}
use penny_core.Orchestrator.Pipeline.Views.{stored, trail, row, stored-put_action, trail-log_entry}
use penny_core.Orchestrator.Pipeline.Trail.{Phase, unborn, advance, replay, replay-append}

-- Nothing but what concerns the action differs.
pub record IsLocal (b : String) (s s' : Pipeline) : Type 0 where
  pub stored_other : (a : String) → b ≢ a → stored a s' ≡ stored a s
  pub trail_other : (a : String) → b ≢ a → trail a s' ≡ trail a s
  pub row_other : (a : String) → b ≢ a → row a s' ≡ row a s
  pub quorum_same : s'.quorum ≡ s.quorum
  pub dedup_same : s'.dedup ≡ s.dedup
  pub queue_valid : Invariant.IsValid s'.queue

-- What the pipeline shows of an action after local steps: its value, its phase and its row.
pub record IsSeen (b : String) (start : Pipeline) (action : Action) (phase : Phase)
    (rule : Option ApprovalRule) (s : Pipeline) : Type 0 where
  pub holds : stored b s ≡ some action
  pub told : replay unborn (trail b s) ≡ phase
  pub queued : row b s ≡ rule
  pub rest : IsLocal b start s

pub IsLocal-refl : (b : String) (s : Pipeline) → Invariant.IsValid s.queue → IsLocal b s s
IsLocal-refl b s v = record {
  stored_other = λ a n. refl;
  trail_other = λ a n. refl;
  row_other = λ a n. refl;
  quorum_same = refl;
  dedup_same = refl;
  queue_valid = v;
}

module _ {b : String} {start : Pipeline} {action : Action} {phase : Phase}
    {rule : Option ApprovalRule} {s : Pipeline} where
  pub put_action-IsSeen :
      (rest : IsLocal b start s)
      → replay unborn (trail b s) ≡ phase
      → row b s ≡ rule
      → action.id ≡ b
      → IsSeen b start action phase rule (put_action action s)
  unfolding put_action row trail
  put_action-IsSeen rest told queued same = record {
    holds = ground (arith, stored-put_action b s action, same, beq_refl b);
    told = told;
    queued = queued;
    rest = record {
      stored_other = λ a n.
          ground (arith, stored-put_action a s action, same, beq_ne b a n, rest.stored_other a n);
      trail_other = rest.trail_other;
      row_other = rest.row_other;
      quorum_same = rest.quorum_same;
      dedup_same = rest.dedup_same;
      queue_valid = rest.queue_valid;
    };
  }

  pub log_entry-IsSeen :
      (entry : AuditLogEntry)
      → entry.action_id ≡ some b
      → IsSeen b start action phase rule s
      → IsSeen b start action (advance phase entry) rule (log_entry entry s)
  unfolding log_entry row stored advance assign_id replay
  log_entry-IsSeen entry same seen = record {
    holds = seen.holds;
    told = ground (
      arith,
      trail-log_entry b s entry b same,
      beq_refl b,
      replay-append unborn (trail b s) (assign_id s.audit.next_id entry ∷ []),
      seen.told,
    );
    queued = seen.queued;
    rest = record {
      stored_other = seen.rest.stored_other;
      trail_other = λ a n.
          ground (arith, trail-log_entry a s entry b same, beq_ne b a n, seen.rest.trail_other a n);
      row_other = seen.rest.row_other;
      quorum_same = seen.rest.quorum_same;
      dedup_same = seen.rest.dedup_same;
      queue_valid = seen.rest.queue_valid;
    };
  }

  pub queue-IsSeen :
      (q : Queue) (rule' : Option ApprovalRule)
      → Invariant.IsValid q
      → find b q ≡ rule'
      → ((a : String) → b ≢ a → find a q ≡ find a s.queue)
      → IsSeen b start action phase rule s
      → IsSeen b start action phase rule' (record s { queue = q })
  unfolding row stored trail
  queue-IsSeen q rule' v found other seen = record {
    holds = seen.holds;
    told = seen.told;
    queued = found;
    rest = record {
      stored_other = seen.rest.stored_other;
      trail_other = seen.rest.trail_other;
      row_other = λ a n. other a n ∙ seen.rest.row_other a n;
      quorum_same = seen.rest.quorum_same;
      dedup_same = seen.rest.dedup_same;
      queue_valid = v;
    };
  }

pub write_audit-ok :
    (entry : AuditLogEntry) (s : Pipeline)
    → entry_fits entry ≡ true
    → write_audit entry s ≡ (ok tt, log_entry entry s)
unfolding write_audit
write_audit-ok entry s h = ground arith
