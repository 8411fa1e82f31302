-- ===== src/Events/Process/Later.antt =====
-- What leaves an ended process as it is in the tables of app/services/event_store.py.
use test_gpt_local.Prelude.{
  ℕ, ◌≡◌, ◌≢◌, String, refl, ap, subst, ◌∙◌, Bool, true, false, not, List, [], ◌∷◌, ◌++◌, arith,
  Option, none, some, inl, inr, Bool-cases,
}
use test_gpt_local.Prelude.Text.{◌==◌, eq_iff}
use test_gpt_local.Prelude.Dict
use test_gpt_local.Prelude.Dict.{Dict, get-put}
use test_gpt_local.Prelude.Result.{Result, ok, raise_if, >>=-eq-ok}
use test_gpt_local.Events.Payload.{Fields, TextRules}
use test_gpt_local.Events.Store.{
  Event, Process, Tables, EventError, not_terminal, is_terminal, insert_locked, notify, append,
  validate_event, shutdown,
}
use test_gpt_local.Events.Process.{
  Exit, Answer, is_exit, last_terminal_event, end_process, change, transition_process, begin,
  start_process,
}

-- The process is in the table with a terminal status, and `e` is its newest exit.
pub record IsOver (process_id : String) (e : Event) (t : Tables) : Type 0 where
  pub process : Process
  pub row : Dict.get process_id t.processes ≡ some process
  pub terminal : is_terminal process.status ≡ true
  pub last : last_terminal_event process_id t.events ≡ some e

-- Calls that write, other than a start of the process, a cleanup, and an append of another exit of the
-- process.
pub data Later (process_id : String) (t : Tables) : Tables → Type 0 where
  now_then : Later process_id t t
  appended :
      (rules : TextRules) (max_bytes : ℕ) (event_type : String) (request : Option String)
      (workspace : String) (process : Option String) (payload : Fields) (now : ℕ) (e : Event)
      {u v : Tables}
      → (process ≡ some process_id → event_type ≢ "process.exited")
      → Later process_id t u
      → append rules max_bytes event_type request workspace process payload now u ≡ ok (e, v)
      → Later process_id t v
  ended :
      (process status : String) (x : Exit) (now : ℕ) (a : Answer) {u v : Tables}
      → Later process_id t u
      → transition_process process status x now u ≡ ok (a, v)
      → Later process_id t v
  began :
      (process : String) (pid : ℕ) (tool : String) (request : Option String) (recovered : Bool)
      (now : ℕ) (e : Event) {u v : Tables}
      → process ≢ process_id
      → Later process_id t u
      → start_process process pid tool request recovered now u ≡ ok (e, v)
      → Later process_id t v
  stopped : {u : Tables} → Later process_id t u → Later process_id t (shutdown u)

last_terminal_event-other :
    (process_id : String) (es : List Event) (e : Event)
    → is_exit process_id e ≡ false
    → last_terminal_event process_id (es ++ e ∷ []) ≡ last_terminal_event process_id es
unfolding last_terminal_event
last_terminal_event-other process_id [] e h = ground arith
last_terminal_event-other process_id (x ∷ es) e h =
    rw (last_terminal_event-other process_id es e h) refl

is_exit-false :
    (process_id : String) (e : Event)
    → (e.process_id ≡ some process_id → e.event_type ≢ "process.exited")
    → is_exit process_id e ≡ false
unfolding is_exit
is_exit-false process_id e h = by_process e.process_id refl
  where
    by_process : (o : Option String) → e.process_id ≡ o → is_exit process_id e ≡ false
    by_process none f = rw f refl
    by_process (some q) f = elim (Bool-cases (q == process_id)) [
      | inr b ↦ rw (f, b) refl
      | inl b ↦ elim (Bool-cases (e.event_type == "process.exited")) [
        | inr c ↦ rw (f, b, c) refl
        | inl c ↦ absurd (
            h (f ∙ ap some ((eq_iff q process_id).0 b))
              ((eq_iff e.event_type "process.exited").0 c))
      ]
    ]

IsOver-insert :
    (process_id : String) (last : Event) (event_type : String) (request : Option String)
    (workspace : String) (process : Option String) (payload : Fields) (now : ℕ) (t : Tables)
    → (process ≡ some process_id → event_type ≢ "process.exited")
    → IsOver process_id last t
    → IsOver process_id last
        (notify (insert_locked event_type request workspace process payload now t).1)
unfolding insert_locked
IsOver-insert process_id last event_type request workspace process payload now t h i = record {
  process = i.process;
  row = i.row;
  terminal = i.terminal;
  last = last_terminal_event-other process_id t.events _ (is_exit-false process_id _ h) ∙ i.last;
}

-- The row of another process is changed, and an event of that process is logged.
IsOver-other :
    (process_id : String) (last : Event) (event_type : String) (request : Option String)
    (workspace other : String) (payload : Fields) (now : ℕ) (p : Process) (t : Tables)
    → other == process_id ≡ false
    → IsOver process_id last t
    → IsOver process_id last (
        notify
          (insert_locked event_type request workspace
            (some other)
            payload
            now
            (record t { processes = Dict.put other p t.processes })).1)
IsOver-other process_id last event_type request workspace other payload now p t n i =
    IsOver-insert process_id last event_type request workspace (some other) payload now
      (record t { processes = Dict.put other p t.processes }) (λ h. absurd (differs h))
      (record {
        process = i.process;
        row = get-put other process_id p t.processes ∙ rw n i.row;
        terminal = i.terminal;
        last = i.last;
      })
  where
    differs : some other ≡ some process_id → ⊥
    differs h = let same : other ≡ process_id = cc in cc (n, (eq_iff other process_id).1 same)

ok_tables :
    {A : Type 0} {a b : A} {t u : Tables}
    → ◌≡◌ {A = Result EventError (A × Tables)} (ok (a, t)) (ok (b, u))
    → t ≡ u
ok_tables h = cc

change-IsOver :
    (process_id : String) (last : Event) (process status : String) (x : Exit) (now : ℕ)
    (t u : Tables) (a : Answer) (o : Option Process)
    → Dict.get process t.processes ≡ o
    → change process status x now t o ≡ ok (a, u)
    → IsOver process_id last t
    → IsOver process_id last u
unfolding change
change-IsOver process_id last process status x now t u a none g h i = cc
change-IsOver process_id last process status x now t u a (some p) g h i =
    elim (Bool-cases (is_terminal p.status)) [
      | inl b ↦ subst (IsOver process_id last) (ok_tables (rw b at h)) i
      | inr b ↦ elim (Bool-cases (process == process_id)) [
        | inl c ↦ absurd (still b ((eq_iff process process_id).0 c))
        | inr c ↦ subst (IsOver process_id last) (ok_tables (rw b at h)) (
            unfold end_process in
            IsOver-other process_id last "process.exited" _ _ process _ now _ t c i)
      ]
    ]
  where
    still : is_terminal p.status ≡ false → process ≡ process_id → ⊥
    still b c =
        let there : Dict.get process t.processes ≡ some i.process =
          ap (λ k. Dict.get k t.processes) c ∙ i.row in
        let same : p ≡ i.process = cc (g, there) in
        cc (b, ap (λ q. is_terminal q.status) same, i.terminal)

begin-IsOver :
    (process_id : String) (last : Event) (process : String) (pid : ℕ) (tool : String)
    (request : Option String) (recovered : Bool) (now : ℕ) (t u : Tables) (e : Event)
    (o : Option Process)
    → process == process_id ≡ false
    → begin process pid tool request recovered now t o ≡ ok (e, u)
    → IsOver process_id last t
    → IsOver process_id last u
unfolding begin
begin-IsOver process_id last process pid tool request recovered now t u e none n h i = cc
begin-IsOver process_id last process pid tool request recovered now t u e (some p) n h i =
    subst (IsOver process_id last) (ok_tables h)
      (IsOver-other process_id last "tool.started" _ _ process _ now _ t n i)

pub Later-IsOver :
    {process_id : String} {last : Event} {t u : Tables}
    → Later process_id t u
    → IsOver process_id last t
    → IsOver process_id last u
unfolding append transition_process start_process shutdown
Later-IsOver now_then i = i
Later-IsOver {process_id} {last} (appended rules m y r w p b now e {u} {v} n k h) i =
    let (_, _, done) = >>=-eq-ok (validate_event rules m y w p b) _ h in
    subst (IsOver process_id last) (ok_tables done)
      (IsOver-insert process_id last y r w p b now u n (Later-IsOver k i))
Later-IsOver {process_id} {last} (ended p s x now a {u} {v} k h) i =
    let (_, _, done) = >>=-eq-ok (raise_if (not (is_terminal s)) not_terminal) _ h in
    change-IsOver process_id last p s x now u v a _ refl done (Later-IsOver k i)
Later-IsOver {process_id} {last} (began p pid tool r rec now e {u} {v} n k h) i =
    begin-IsOver process_id last p pid tool r rec now u v e _ (differs _ refl) h (Later-IsOver k i)
  where
    differs : (b : Bool) → p == process_id ≡ b → p == process_id ≡ false
    differs true c = absurd (n ((eq_iff p process_id).0 c))
    differs false c = c
Later-IsOver {process_id} {last} (stopped k) i =
    let j = Later-IsOver {last = last} k i in
    record { process = j.process; row = j.row; terminal = j.terminal; last = j.last }
