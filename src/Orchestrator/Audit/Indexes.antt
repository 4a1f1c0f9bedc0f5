-- ===== src/Orchestrator/Audit/Indexes.antt =====
-- The log's three indexes are filters of its one list of entries, the ids count them from 1, and
-- what is written is never changed.
use penny_core.Prelude.{
  ℕ, suc, ◌+◌, ◌≡◌, refl, sym, ap, ◌∙◌, Bool, false, String, Option, none, some, List, [], ◌∷◌,
  ◌++◌, arith, ◌==◌, string_eq, select, select-append, length, length-append, append-nil,
  append_assoc, if◌then◌else◌,
}
use penny_core.Dict
use penny_core.Dict.{Dict, get_list-push}
use penny_core.Contracts.Audit.{AuditLogEntry}
use penny_core.Orchestrator.Audit.{
  AuditLog, empty_log, push_optional, assign_id, write, entries_for_tenant, entries_for_action,
  entries_for_event, all_entries,
}

-- The log after a sequence of writes.
pub write_all : List AuditLogEntry → AuditLog → AuditLog
write_all [] log = log
write_all (entry ∷ more) log = write_all more (write entry log).1

abbrev pub about : Option String → String → Bool
about none k = false
about (some j) k = j == k

abbrev pub has_tenant : String → AuditLogEntry → Bool
has_tenant t entry = entry.tenant_id == t

abbrev pub has_action : String → AuditLogEntry → Bool
has_action a entry = about entry.action_id a

abbrev pub has_event : String → AuditLogEntry → Bool
has_event e entry = about entry.caused_by_event_id e

-- The entries carry the ids n, n + 1, … in order.
abbrev pub IsNumbered : ℕ → List AuditLogEntry → Type 0
IsNumbered n [] = Unit
IsNumbered n (entry ∷ more) = (entry.id ≡ some n) × IsNumbered (suc n) more

pub record IsIndexed (log : AuditLog) : Type 0 where
  pub tenants : (t : String) → Dict.get_list log.by_tenant t ≡ select (has_tenant t) log.entries
  pub actions : (a : String) → Dict.get_list log.by_action a ≡ select (has_action a) log.entries
  pub events : (e : String) → Dict.get_list log.by_event e ≡ select (has_event e) log.entries
  pub numbered : IsNumbered 1 log.entries
  pub next : log.next_id ≡ suc (length log.entries)

IsNumbered-snoc :
    (n : ℕ) (entries : List AuditLogEntry) (entry : AuditLogEntry)
    → IsNumbered n entries
    → entry.id ≡ some (n + length entries)
    → IsNumbered n (entries ++ entry ∷ [])
IsNumbered-snoc n [] entry h e = (e ∙ ap some (omega arith), tt)
IsNumbered-snoc n (x ∷ entries) entry h e =
    (h.0, IsNumbered-snoc (suc n) entries entry h.1 (e ∙ ap some (omega arith)))

get_list-push_optional :
    (d : Dict String (List AuditLogEntry)) (key : Option String) (k : String)
    (entry : AuditLogEntry)
    → Dict.get_list (push_optional d key entry) k
      ≡ (if about key k then Dict.get_list d k ++ entry ∷ [] else Dict.get_list d k)
unfolding push_optional
get_list-push_optional d none k entry = refl
get_list-push_optional d (some j) k entry = get_list-push d j k entry

pub write-IsIndexed :
    (entry : AuditLogEntry) (log : AuditLog) → IsIndexed log → IsIndexed (write entry log).1
unfolding write
write-IsIndexed entry log v =
    let assigned = assign_id log.next_id entry in
    let added : (p : AuditLogEntry → Bool)
        → select p (log.entries ++ assigned ∷ [])
          ≡ select p log.entries ++ select p (assigned ∷ []) =
      λ p. select-append p log.entries (assigned ∷ []) in
    record {
      tenants = λ t. ground (
        arith,
        v.tenants t,
        added (has_tenant t),
        get_list-push log.by_tenant entry.tenant_id t assigned,
        append-nil (select (has_tenant t) log.entries),
      );
      actions = λ a. ground (
        arith,
        v.actions a,
        added (has_action a),
        get_list-push_optional log.by_action entry.action_id a assigned,
        append-nil (select (has_action a) log.entries),
      );
      events = λ e. ground (
        arith,
        v.events e,
        added (has_event e),
        get_list-push_optional log.by_event entry.caused_by_event_id e assigned,
        append-nil (select (has_event e) log.entries),
      );
      numbered =
          IsNumbered-snoc 1 log.entries assigned v.numbered (ap some (omega (arith, v.next)));
      next = omega (arith, v.next, length-append log.entries (assigned ∷ []));
    }

pub empty_log-IsIndexed : IsIndexed empty_log
unfolding Dict.get
empty_log-IsIndexed = record {
  tenants = λ t. refl;
  actions = λ a. refl;
  events = λ e. refl;
  numbered = tt;
  next = refl;
}

pub write_all-IsIndexed :
    (ws : List AuditLogEntry) (log : AuditLog) → IsIndexed log → IsIndexed (write_all ws log)
unfolding write_all
write_all-IsIndexed [] log v = v
write_all-IsIndexed (w ∷ ws) log v =
    write_all-IsIndexed ws (write w log).1 (write-IsIndexed w log v)

abbrev pub both : (AuditLogEntry → Bool) → (AuditLogEntry → Bool) → AuditLogEntry → Bool
both p q entry = if p entry then q entry else false

select-select :
    (p q : AuditLogEntry → Bool) (rows : List AuditLogEntry)
    → select q (select p rows) ≡ select (both p q) rows
select-select p q [] = refl
select-select p q (x ∷ rows) = ground (arith, select-select p q rows)

module _ (ws : List AuditLogEntry) where
  abbrev written : AuditLog
  written = write_all ws empty_log

  -- After any writes, a read for a tenant gives the log's rows of that tenant in order, and a read
  -- for an action or event within a tenant gives those of both.
  pub readers_are_filters :
      (t a : String)
      → (entries_for_tenant t written ≡ select (has_tenant t) (all_entries written))
        × (entries_for_action a none written ≡ select (has_action a) (all_entries written))
        × (entries_for_event a none written ≡ select (has_event a) (all_entries written))
        × (entries_for_action a (some t) written
            ≡ select (both (has_action a) (has_tenant t)) (all_entries written))
        × (entries_for_event a (some t) written
            ≡ select (both (has_event a) (has_tenant t)) (all_entries written))
  unfolding entries_for_tenant entries_for_action entries_for_event all_entries
  readers_are_filters t a =
      let v = write_all-IsIndexed ws empty_log empty_log-IsIndexed in
      (
        v.tenants t,
        v.actions a,
        v.events a,
        rw (v.actions a) (select-select (has_action a) (has_tenant t) written.entries),
        rw (v.events a) (select-select (has_event a) (has_tenant t) written.entries),
      )

-- The rows as written, numbered from n.
abbrev pub number_from : ℕ → List AuditLogEntry → List AuditLogEntry
number_from n [] = []
number_from n (w ∷ ws) = record w { id = some n } ∷ number_from (suc n) ws

entries-write_all :
    (ws : List AuditLogEntry) (log : AuditLog)
    → (write_all ws log).entries ≡ log.entries ++ number_from log.next_id ws
unfolding write_all write
entries-write_all [] log = sym (append-nil log.entries)
entries-write_all (w ∷ ws) log =
    let counts_on : number_from (log.next_id + 1) ws ≡ number_from (suc log.next_id) ws =
      ap (λ n. number_from n ws) (omega arith) in
    entries-write_all ws (write w log).1
    ∙ append_assoc log.entries (assign_id log.next_id w ∷ []) (number_from (log.next_id + 1) ws)
    ∙ ap (λ l. log.entries ++ assign_id log.next_id w ∷ l) counts_on

-- Writes only append: the old rows stay first and unchanged, and behind them come the new rows in
-- order, each changed in its id alone, which counts on from the rows before it.
pub writes_append :
    (ws : List AuditLogEntry) (log : AuditLog)
    → IsIndexed log
    → all_entries (write_all ws log)
      ≡ all_entries log ++ number_from (suc (length (all_entries log))) ws
unfolding all_entries
writes_append ws log v = entries-write_all ws log ∙ ap (λ n. log.entries ++ number_from n ws) v.next
