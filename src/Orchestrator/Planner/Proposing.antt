-- ===== src/Orchestrator/Planner/Proposing.antt =====
-- A call of `propose_action` ends in one of the ways of Outcomes.
mod Tests
use penny_core.Prelude.{
  ℕ, ◌≡◌, refl, ap, subst, sym, String, Bool, true, false, Option, none, some, List, [], ◌∷◌, ◌⊎◌,
  inl, inr, arith, Bool-cases, Option-cases, string_eq, eq_iff, beq_sym, if◌then◌else◌, ◌&&◌, ◌||◌,
  not, ◌==◌, get_or,
}
use penny_core.Dict
use penny_core.Dict.{Dict, get-put}
use penny_core.Exec.{Exn, Result, ok, err, Result-cases}
use penny_core.Contracts.{fits, fits_optional}
use penny_core.Contracts.Json.{Payload, Value, Fields, text, number, bool, null, obj, arr, truthy}
use penny_core.Contracts.Texts.{is_blank}
use penny_core.Contracts.Actions.{
  ActionType, send_borrower_message, notify_loan_officer, update_status, no_op, ActionProposal,
  ProposedBy, llm, fallback,
}
use penny_core.Orchestrator.Planner.{
  PlanRequest, Client, Prompts, value_at, as_optional_text, rule_for_event, lookup_rule, or_default,
  with_flags, text_items, new_proposal, fallback_reason, fallback_proposal, from_answer,
  format_user_prompt, propose_action,
}
use penny_core.Orchestrator.Planner.Parsing.{
  Answers, clean, of_fields, read_answer, is_decode_error, read_loaded, parse_llm_response,
}
use penny_core.Orchestrator.Planner.Reading.{
  first_of, IsNoDict, IsUnusable, IsRead, read_answer-cases,
}
use penny_core.Orchestrator.Planner.Outcomes.{
  IsEnvelope, documented_rules, flags_value, IsFor, IsFallback, IsStated, IsRefused, Escapes,
  FallsBack, FollowsModel, Follows, Proposes,
}
use penny_core.Orchestrator.Planner.Answering.{
  fits-nonempty, rule_for_event-documented, get-with_flags, parse-cases,
}

module _ (prompts : Prompts) (new_id : String) (now : ℕ) (id_fits : fits 64 new_id ≡ true)
    (envelope : Payload) (t e : String) (c : Option String) (event_type : String)
    (v : IsEnvelope envelope t e c event_type) where
  new_proposal_fits :
      (kind : ActionType) (by : ProposedBy) (payload : Payload)
      → (p : ActionProposal) × (new_proposal new_id now envelope kind by payload ≡ ok p)
        × IsFor new_id now t e c by p
        × (p.action_type ≡ kind)
        × (p.payload ≡ payload)
  unfolding new_proposal
  new_proposal_fits kind by payload = (
    record {
      id = new_id;
      tenant_id = t;
      event_id = e;
      customer_id = c;
      action_type = kind;
      proposed_by = by;
      payload = payload;
      created_at = now;
    },
    ground (
      arith, v.tenant, v.event, v.customer, id_fits, v.tenant_fits, v.event_fits, v.customer_fits,
    ),
    record {
      id = refl;
      tenant_id = refl;
      event_id = refl;
      customer_id = refl;
      created_at = refl;
      proposed_by = refl;
    },
    refl,
    refl,
  )

  fallback_proposal-FallsBack :
      (flags : List String)
      → FallsBack new_id now t e c event_type flags
          (fallback_proposal prompts new_id now envelope flags)
  unfolding fallback_proposal lookup_rule Dict.get
  fallback_proposal-FallsBack flags =
      let rule = rule_for_event event_type in
      let why : String = fallback_reason prompts new_id now (text event_type) rule in
      let start : Payload = ("_planner_reasoning", text why) ∷ [] in
      let (p, made, who, action, payload) =
        new_proposal_fits (or_default rule) fallback (with_flags flags start) in
      (
        p,
        ground (arith, v.typed, made),
        who,
        record {
          action = cc (action, rule_for_event-documented event_type);
          flagged = ground (
            arith,
            ap (λ (d : Payload). Dict.get d "_injection_flags") payload,
            get-with_flags flags start "_injection_flags",
          );
          reason = why;
          reasoned = ground (
            arith,
            ap (λ (d : Payload). Dict.get d "_planner_reasoning") payload,
            get-with_flags flags start "_planner_reasoning",
          );
        },
      )

  module _ (answers : Answers) where
    from_answer-Follows :
        (flags : List String) (raw : Result Exn String)
        → Follows new_id now t e c event_type answers flags raw
            (from_answer prompts new_id now answers envelope flags raw)
    unfolding from_answer
    from_answer-Follows flags (err x) = fallback_proposal-FallsBack flags
    from_answer-Follows flags (ok raw) = elim (parse-cases answers raw) [
      | inl (refused, nothing) ↦
          inl (refused, rw (nothing, from_answer) (fallback_proposal-FallsBack flags))
      | inr (inl (x, escapes, raised)) ↦ inr (inl (x, escapes, ground (arith, raised)))
      | inr (inr (fields, kind, payload, loaded, parsed, read)) ↦
          let (p, made, who, action, flagged) =
            new_proposal_fits kind llm (with_flags flags payload) in
          inr (
            inr (
              fields,
              p,
              ground (arith, parsed, made),
              loaded,
              who,
              record {
                payload = payload;
                read = subst (λ k. IsRead (of_fields fields []) k payload) (sym action) read;
                flagged = λ k.
                    subst
                      (λ (d : Payload). Dict.get d k ≡ (
                        if "_injection_flags" == k
                        then first_of (flags_value flags) (Dict.get payload k)
                        else Dict.get payload k))
                      (sym flagged) (get-with_flags flags payload k);
              },
            ))
    ]

    module _ {W : Type 0} (client : Client W) (brief : String) (w : W) where
      propose_action-eq :
          propose_action prompts new_id now answers client
            (record { envelope = envelope; brief_text = brief })
            w
          ≡ (if client.is_mock
              then (
                fallback_proposal prompts new_id now envelope (prompts.sanitize_for_prompt brief).1,
                w,
              )
              else (
                from_answer prompts new_id now answers envelope
                    (prompts.sanitize_for_prompt brief).1
                    (client.call
                      (format_user_prompt prompts envelope (prompts.sanitize_for_prompt brief).0)
                      w).0,
                (client.call
                    (format_user_prompt prompts envelope (prompts.sanitize_for_prompt brief).0)
                    w).1,
              ))
      unfolding propose_action
      propose_action-eq = ground (
        arith,
        v.tenant,
        v.event,
        fits-nonempty 64 t v.tenant_fits,
        fits-nonempty 64 e v.event_fits,
      )

      -- For an envelope whose fields fit a proposal and whose event type is a text, with a new id
      -- that fits: a mock client is not asked, and the rule table proposes the documented action
      -- for the event type. Another client is asked once. If its call raises, or its answer is
      -- empty, no JSON, no object, or an object with an unknown action type or a payload that is no
      -- object, the rule table proposes too. If `json.loads` raises something else than a
      -- JSONDecodeError, so does the call. Otherwise the proposal is the model's, with the action
      -- type and the payload that the answer states and, unless the payload has one, its reasoning.
      -- Each proposal is for the event's tenant, event and customer, and the sanitiser's flags, if
      -- there are any, are in its payload.
      pub propose_action_lem :
          Proposes new_id now t e c event_type answers
            (prompts.sanitize_for_prompt brief).1
            client.is_mock
            w
            (client.call
              (format_user_prompt prompts envelope (prompts.sanitize_for_prompt brief).0)
              w)
            (propose_action prompts new_id now answers client
              (record { envelope = envelope; brief_text = brief })
              w)
      propose_action_lem =
          let flags = (prompts.sanitize_for_prompt brief).1 in
          elim (Bool-cases client.is_mock) [
            | inl mock ↦ inl (
              mock,
              rw (propose_action-eq, mock) (fallback_proposal-FallsBack flags),
              rw (propose_action-eq, mock) refl,
            )
            | inr real ↦ inr (
              real,
              rw (propose_action-eq, real)
                  (from_answer-Follows flags
                    (client.call
                      (format_user_prompt prompts envelope (prompts.sanitize_for_prompt brief).0)
                      w).0),
              rw (propose_action-eq, real) refl,
            )
          ]
