-- ===== src/Events/Store.antt =====
-- The tables of the event stream, and the operations of `EventStore` that write to them
-- (app/services/event_store.py). A transaction that raises is rolled back, so it returns no tables.
-- Time stamps are ticks: their ISO texts are ordered alike.
use test_gpt_local.Prelude.{
  ◌||◌, ℕ, ◌+◌, String, Bool, true, false, not, List, [], ◌∷◌, ◌++◌, ltb, if◌then◌else◌, Option,
  none, some, max,
}
use test_gpt_local.Prelude.Int.{ℤ, pos, lebℤ, ltbℤ}
use test_gpt_local.Prelude.Text.{◌==◌, mem}
use test_gpt_local.Prelude.Dict.{Dict, or_else}
use test_gpt_local.Prelude.Result.{Result, ok, err, raise_if, ◌>>◌}
use test_gpt_local.Events.Payload.{Fields, TextRules, encoded_size, find_sensitive_key}

pub record Event : Type 0 where
  pub event_id : ℕ
  pub request_id : Option String
  pub workspace_id : String
  pub process_id : Option String
  pub event_type : String
  pub sequence : Option ℕ
  pub created_at : ℕ
  pub payload : Fields

pub record Process : Type 0 where
  pub workspace_id : String
  pub status : String
  pub exit_code : Option ℤ
  pub pid : Option ℕ
  pub recovery_status : Option String
  pub started_at : Option ℕ
  pub completed_at : Option ℕ

-- `last_id` is SQLite's counter of the AUTOINCREMENT column, which no deletion takes back.
pub record Tables : Type 0 where
  pub events : List Event
  pub last_id : ℕ
  pub retention : Dict ℕ
  pub processes : Dict Process
  pub generation : ℕ
  pub shutting_down : Bool

pub data EventError : Type 0 where
  unknown_event_type workspace_required empty_process_id : EventError
  sensitive_key : String → EventError
  payload_too_large not_terminal process_not_found : EventError
  unknown_filter invalid_cursor invalid_retention : EventError
  cursor_expired : (recovery : ℕ) → EventError

-- The arguments of the store; the longest wait is counted in ticks.
pub record StoreLimits : Type 0 where
  pub max_payload_bytes : ℤ
  pub max_page_size : ℤ
  pub max_wait : ℤ
  pub max_waiters : ℤ

pub data LimitError : Type 0 where
  limits_not_positive max_wait_not_positive : LimitError

-- The checks of `EventStore.__init__`.
unfoldable pub make_store_limits : StoreLimits → Result LimitError StoreLimits
make_store_limits l = do
  raise_if
      (ltbℤ l.max_payload_bytes (pos 1)
        || ltbℤ l.max_page_size (pos 1)
        || ltbℤ l.max_waiters (pos 1))
      limits_not_positive
  raise_if (lebℤ l.max_wait (pos 0)) max_wait_not_positive
  ok l

unfoldable pub event_types : List String
event_types =
    "tool.queued" ∷ "tool.started" ∷ "process.output" ∷ "process.exited" ∷ "artifact.created"
    ∷ "check.completed" ∷ "change_set.begun" ∷ "change_set.staged" ∷ "change_set.validated"
    ∷ "change_set.validation_failed" ∷ "change_set.committed" ∷ "change_set.rolled_back"
    ∷ "change_set.recovery_required" ∷ []

unfoldable pub terminal_statuses : List String
terminal_statuses =
    "passed" ∷ "failed" ∷ "timed_out" ∷ "cancelled" ∷ "resource_exhausted" ∷ "interrupted" ∷ "lost"
    ∷ "recovery_required" ∷ []

unfoldable pub is_terminal : String → Bool
unfolding mem terminal_statuses
is_terminal status = mem status terminal_statuses

-- `process_id = ?`, which no NULL meets
abbrev pub of_process : String → Event → Bool
of_process process_id e = elim e.process_id [ none ↦ false | some p ↦ p == process_id ]

-- `COALESCE(MAX(sequence), 0)` over the events of a process
unfoldable pub max_sequence : String → List Event → ℕ
max_sequence process_id [] = 0
max_sequence process_id (e ∷ es) =
    let rest = max_sequence process_id es in
    if of_process process_id e then max (or_else e.sequence 0) rest else rest

abbrev pub next_sequence : Option String → List Event → Option ℕ
next_sequence none es = none
next_sequence (some process_id) es = some (max_sequence process_id es + 1)

unfoldable pub insert_locked :
    String → Option String → String → Option String → Fields → (now : ℕ) → Tables → Event × Tables
unfolding max_sequence
insert_locked event_type request_id workspace_id process_id payload now t =
    let event =
      let e : Event = record {
        event_id = t.last_id + 1;
        request_id = request_id;
        workspace_id = workspace_id;
        process_id = process_id;
        event_type = event_type;
        sequence = next_sequence process_id t.events;
        created_at = now;
        payload = payload;
      } in
      e in
    (event, record t { events = t.events ++ event ∷ []; last_id = t.last_id + 1 })

abbrev pub notify : Tables → Tables
notify t = record t { generation = t.generation + 1 }

-- The events of `shutdown`, which only wakes the readers.
unfoldable pub shutdown : Tables → Tables
shutdown t = notify (record t { shutting_down = true })

unfoldable pub validate_event :
    TextRules → ℕ → String → String → Option String → Fields → Result EventError Unit
unfolding mem event_types find_sensitive_key encoded_size
validate_event rules max_payload_bytes event_type workspace_id process_id body = do
  raise_if (not (mem event_type event_types)) unknown_event_type
  raise_if (workspace_id == "") workspace_required
  raise_if (elim process_id [ none ↦ false | some p ↦ p == "" ]) empty_process_id
  elim (find_sensitive_key rules body) [ none ↦ ok tt | some k ↦ err (sensitive_key k) ]
  raise_if (ltb max_payload_bytes (encoded_size body)) payload_too_large

unfoldable pub append :
    TextRules
    → ℕ
    → String
    → Option String
    → String
    → Option String
    → Fields
    → (now : ℕ) → Tables
    → Result EventError (Event × Tables)
unfolding validate_event insert_locked
append rules max_payload_bytes event_type request_id workspace_id process_id payload now t = do
  validate_event rules max_payload_bytes event_type workspace_id process_id payload
  let (event, t') = insert_locked event_type request_id workspace_id process_id payload now t
  ok (event, notify t')
