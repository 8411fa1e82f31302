-- ===== src/Events/Process/Once.antt =====
-- A process ends once: `transition_process` of app/services/event_store.py.
use test_gpt_local.Prelude.{
  ℕ, ◌≡◌, String, refl, ap, sym, ◌∙◌, true, false, List, [], ◌∷◌, ◌++◌, arith, if◌then◌else◌, some,
}
use test_gpt_local.Prelude.Text.{◌==◌, eq_refl}
use test_gpt_local.Prelude.Dict
use test_gpt_local.Prelude.Dict.{Dict, or_else, get-put}
use test_gpt_local.Prelude.Result.{ok}
use test_gpt_local.Events.Store.{Event, Process, Tables, is_terminal, insert_locked}
use test_gpt_local.Events.Process.{
  Exit, Answer, event, is_exit, last_terminal_event, exited, exit_payload, end_process, change,
  transition_process,
}
use test_gpt_local.Events.Process.Later.{IsOver, Later, Later-IsOver}

last_terminal_event-append :
    (process_id : String) (es : List Event) (e : Event)
    → is_exit process_id e ≡ true
    → last_terminal_event process_id (es ++ e ∷ []) ≡ some e
unfolding last_terminal_event
last_terminal_event-append process_id [] e h = ground arith
last_terminal_event-append process_id (x ∷ es) e h =
    ground (arith, last_terminal_event-append process_id es e h)

-- The event and the tables of a process's end.
exit_event : String → String → Exit → ℕ → Process → Tables → Event
unfolding insert_locked
exit_event process_id status x now p t =
    (insert_locked "process.exited" x.request_id p.workspace_id (some process_id)
      (exit_payload status x) now t).0

pub record Ends (process_id status : String) (x : Exit) (now : ℕ) (p : Process) (t : Tables)
    (a : Answer) (t' : Tables) : Type 0 where
  pub exit : Event
  pub answered : a ≡ event exit
  pub logged : t'.events ≡ t.events ++ exit ∷ []
  pub is_exit_of :
      (exit.event_type ≡ "process.exited")
      × (exit.process_id ≡ some process_id)
      × (exit.workspace_id ≡ p.workspace_id)
  pub stored :
      (j : String)
      → Dict.get j t'.processes
        ≡ (if process_id == j then some (exited status x now p) else Dict.get j t.processes)

end_process-Ends :
    (process_id status : String) (x : Exit) (now : ℕ) (p : Process) (t : Tables)
    → Ends process_id status x now p t
        (end_process process_id status x now p t).0
        (end_process process_id status x now p t).1
unfolding end_process
end_process-Ends process_id status x now p t = record {
  exit = exit_event process_id status x now p t;
  answered = unfold exit_event in refl;
  logged = unfold exit_event in refl;
  is_exit_of = (unfold exit_event in refl, unfold exit_event in refl, unfold exit_event in refl);
  stored = λ j. get-put process_id j (exited status x now p) t.processes;
}

is_exit_of_exit :
    (process_id : String) (e : Event)
    → e.process_id ≡ some process_id
    → e.event_type ≡ "process.exited"
    → is_exit process_id e ≡ true
unfolding is_exit
is_exit_of_exit process_id e h k = rw (h, k) (rw eq_refl refl)

change_ended :
    (process_id status : String) (x : Exit) (now : ℕ) (t : Tables) (p : Process) (e : Event)
    → is_terminal p.status ≡ true
    → last_terminal_event process_id t.events ≡ some e
    → change process_id status x now t (some p) ≡ ok (event e, t)
unfolding change
change_ended process_id status x now t p e h k = rw (h, k) refl

-- Once it has ended, a further transition answers with the same event and changes nothing, in whatever
-- tables the calls between leave.
end_process-final :
    (process_id status : String) (x : Exit) (now : ℕ) (p : Process) (t : Tables) (a : Answer)
    (t' : Tables)
    → is_terminal status ≡ true
    → Ends process_id status x now p t a t'
    → (status' : String) (x' : Exit) (now' : ℕ) (t'' : Tables) → is_terminal status' ≡ true
    → Later process_id t' t''
    → transition_process process_id status' x' now' t'' ≡ ok (a, t'')
unfolding transition_process
end_process-final process_id status x now p t a t' h e status' x' now' t'' h' later =
    let over : IsOver process_id e.exit t' = record {
      process = exited status x now p;
      row = e.stored process_id ∙ rw eq_refl;
      terminal = unfold exited in h;
      last = rw e.logged (
          last_terminal_event-append process_id t.events e.exit
            (is_exit_of_exit process_id e.exit e.is_exit_of.1 e.is_exit_of.0));
    } in
    let still = Later-IsOver later over in
    rw (h', still.row)
      (change_ended process_id status' x' now' t'' still.process e.exit still.terminal still.last
        ∙ ap (λ b. ok (b, t'')) (sym e.answered))

-- The first transition of a process that is in the table and has not ended succeeds: it stores the
-- process's exit, and that of no other, and logs one exit event. Any later transition of the process
-- answers with that event and changes nothing, whatever transitions, starts of other processes,
-- shutdowns, and appends other than of an exit of this process lie between.
pub transition_process_once :
    (process_id status : String) (x : Exit) (now : ℕ) (p : Process) (t : Tables)
    → Dict.get process_id t.processes ≡ some p
    → is_terminal p.status ≡ false
    → is_terminal status ≡ true
    → (a : Answer) × (t' : Tables) × (transition_process process_id status x now t ≡ ok (a, t'))
      × Ends process_id status x now p t a t'
      × ((status' : String) (x' : Exit) (now' : ℕ) (t'' : Tables)
          → is_terminal status' ≡ true
          → Later process_id t' t''
          → transition_process process_id status' x' now' t'' ≡ ok (a, t''))
unfolding transition_process
transition_process_once process_id status x now p t h live terminal =
    let (a, t') = end_process process_id status x now p t in
    let e = end_process-Ends process_id status x now p t in
    (
      a,
      t',
      rw (terminal, h, live) refl,
      e,
      end_process-final process_id status x now p t a t' terminal e,
    )
