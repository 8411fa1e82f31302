-- ===== src/Events/Process.antt =====
-- `transition_process` and `start_process` of app/services/event_store.py.
pub mod Later
pub mod Once
use test_gpt_local.Prelude.{
  ℕ, zero, suc, ◌≤◌, ◌<◌, ◌+◌, ◌≡◌, String, refl, ap, Bool, true, false, ◌&&◌, ◌||◌, not, List, [],
  ◌∷◌, ◌++◌, arith, ltb, leb, if◌then◌else◌, Option, none, some, inl, inr, Option-cases, Bool-cases,
}
use test_gpt_local.Prelude.Int.{ℤ, pos, negsuc}
use test_gpt_local.Prelude.Text.{◌==◌, mem, eq_iff}
use test_gpt_local.Prelude.Dict
use test_gpt_local.Prelude.Dict.{Dict, or_else, get-put}
use test_gpt_local.Prelude.Result.{Result, ok, err, raise_if, ◌>>=◌, ◌>>◌}
use test_gpt_local.Events.Payload.{Json, null, boolean, number, text, Fields, end, field}
use test_gpt_local.Events.Store.{
  Event, Process, Tables, EventError, not_terminal, process_not_found, is_terminal, of_process,
  insert_locked, notify,
}

-- The arguments of a transition but the process and its status.
pub record Exit : Type 0 where
  pub exit_code : Option ℤ
  pub completed_at : Option ℕ
  pub recovery_status : Option String
  pub reason : Option String
  pub request_id : Option String
  pub output_offsets : Dict ℤ

-- The event that is returned, or the bare answer where the process ended without one.
pub data Answer : Type 0 where
  event : Event → Answer
  ended : (process_id status : String) → Answer

is_exit : String → Event → Bool
is_exit process_id e = of_process process_id e && (e.event_type == "process.exited")

-- `_last_terminal_event`: the newest event is the last one.
unfoldable pub last_terminal_event : String → List Event → Option Event
unfolding is_exit
last_terminal_event process_id [] = none
last_terminal_event process_id (e ∷ es) = elim (last_terminal_event process_id es) [
  | none ↦ if is_exit process_id e then some e else none
  | some later ↦ some later
]

answer : String → String → Option Event → Answer
answer process_id status none = ended process_id status
answer process_id status (some e) = event e

abbrev json_text : Option String → Json
json_text none = null
json_text (some s) = text s

-- `reason or recovery_status`: an empty reason counts as none.
reason_text : Option String → Option String → Json
reason_text none recovery = json_text recovery
reason_text (some r) recovery = if r == "" then json_text recovery else text r

offset_fields : Dict ℤ → Fields
offset_fields [] = end
offset_fields (o ∷ os) =
    field "stdout_offset" (number (or_else (Dict.get "stdout" (o ∷ os)) (pos 0)))
      (field "stderr_offset" (number (or_else (Dict.get "stderr" (o ∷ os)) (pos 0))) end)

exit_payload : String → Exit → Fields
unfolding reason_text offset_fields
exit_payload status x = field "status" (text status) (
    field "exit_code" (elim x.exit_code [ none ↦ null | some c ↦ number c ])
      (field "reason" (reason_text x.reason x.recovery_status) (offset_fields x.output_offsets)))

abbrev first_of : {A : Type 0} → Option A → Option A → Option A
first_of none o = o
first_of (some a) o = some a

-- The row of the process after `UPDATE processes`.
unfoldable pub exited : String → Exit → ℕ → Process → Process
exited status x now p = record p {
  status = status;
  completed_at = some (or_else x.completed_at now);
  exit_code = first_of x.exit_code p.exit_code;
  recovery_status = first_of x.recovery_status p.recovery_status;
}

-- The transition of a process that has not ended.
unfoldable pub end_process : String → String → Exit → ℕ → Process → Tables → Answer × Tables
unfolding exited exit_payload insert_locked
end_process process_id status x now p t =
    let t' =
      let u : Tables = record t {
        processes = Dict.put process_id (exited status x now p) t.processes;
      } in
      u in
    let (e, t'') =
      insert_locked "process.exited" x.request_id p.workspace_id (some process_id)
        (exit_payload status x) now t' in
    (event e, notify t'')

unfoldable pub change :
    String → String → Exit → ℕ → Tables → Option Process → Result EventError (Answer × Tables)
unfolding end_process last_terminal_event answer is_terminal
change process_id status x now t none = err process_not_found
change process_id status x now t (some p) =
    if is_terminal p.status
    then ok (answer process_id p.status (last_terminal_event process_id t.events), t)
    else ok (end_process process_id status x now p t)

unfoldable pub transition_process :
    String → String → Exit → (now : ℕ) → Tables → Result EventError (Answer × Tables)
unfolding change
transition_process process_id status x now t = do
  raise_if (not (is_terminal status)) not_terminal
  change process_id status x now t (Dict.get process_id t.processes)

unfoldable pub begin :
    String
    → ℕ
    → String
    → Option String
    → Bool
    → ℕ
    → Tables
    → Option Process
    → Result EventError (Event × Tables)
unfolding insert_locked
begin process_id pid tool_name request_id recovered now t none = err process_not_found
begin process_id pid tool_name request_id recovered now t (some p) =
    let running =
      let q : Process = record p { status = "running"; pid = some pid; started_at = some now } in
      q in
    let t' =
      let u : Tables = record t { processes = Dict.put process_id running t.processes } in u in
    let payload = field "tool_name" (text tool_name) (
      field "pid" (number (pos pid)) (
        field "working_directory_redacted" (text ".")
          (field "recovered" (boolean recovered) end))) in
    let (e, t'') =
      insert_locked "tool.started" request_id p.workspace_id (some process_id) payload now t' in
    ok (e, notify t'')

unfoldable pub start_process :
    String
    → ℕ
    → String
    → Option String
    → Bool
    → (now : ℕ) → Tables
    → Result EventError (Event × Tables)
unfolding begin
start_process process_id pid tool_name request_id recovered now t =
    begin process_id pid tool_name request_id recovered now t (Dict.get process_id t.processes)

-- The status of a process, if it is in the table.
abbrev pub status_of : String → Tables → Option String
status_of process_id t = elim (Dict.get process_id t.processes) [
  | none ↦ none
  | some p ↦ some p.status
]
