-- ===== src/Events/Tests.antt =====
-- Runs of the event store at small inputs, and the theorems at those inputs.
use test_gpt_local.Prelude.{
  ℕ, ◌≤◌, ◌≡◌, String, refl, true, false, List, [], ◌∷◌, arith, none, some,
}
use test_gpt_local.Prelude.Int.{pos}
use test_gpt_local.Prelude.Text.{codes}
use test_gpt_local.Prelude.Dict
use test_gpt_local.Prelude.Dict.{or_else}
use test_gpt_local.Prelude.Result.{ok, err}
use test_gpt_local.Events.Cursor.{
  encode_cursor, decode_cursor, invalid_cursor, decode_cursor-encode_cursor,
}
use test_gpt_local.Events.Payload.{
  Json, number, text, array, object, nil, cons, Fields, end, field, TextRules, is_sensitive,
  find_sensitive_key,
}
use test_gpt_local.Events.Payload.Search.{find_sensitive_key_lem, Found, InFields}
use test_gpt_local.Events.Store.{
  make_store_limits, limits_not_positive, Event, Process, Tables, append, is_terminal,
  unknown_event_type,
}
use test_gpt_local.Events.Process.{Exit, Answer, event, transition_process}
use test_gpt_local.Events.Process.Once.{transition_process_once, Ends}
use test_gpt_local.Events.Process.Later.{Later}
use test_gpt_local.Events.Query.{Page, list_after, resolve_after, validate_filters}
use test_gpt_local.Events.Query.Pages.{Continues, list_after-Continues}
use test_gpt_local.Events.Retention.{cleanup}
use test_gpt_local.Events.Retention.Keeps.{Retains, cleanup-Retains}

-- Rules that fold nothing and know no absolute path.
abbrev plain : TextRules
plain = record { casefold = λ s. s; is_absolute = λ s. false }

abbrev logged : ℕ → String → ℕ → Event
logged n w at = record {
  event_id = n;
  request_id = none;
  workspace_id = w;
  process_id = none;
  event_type = "tool.queued";
  sequence = none;
  created_at = at;
  payload = end;
}

abbrev running : Process
running = record {
  workspace_id = "a";
  status = "running";
  exit_code = none;
  pid = some 7;
  recovery_status = none;
  started_at = some 1;
  completed_at = none;
}

-- Three events of two workspaces, and a running process.
abbrev tables : Tables
tables = record {
  events = logged 1 "a" 10 ∷ logged 2 "b" 20 ∷ logged 3 "a" 30 ∷ [];
  last_id = 3;
  retention = [];
  processes = ("p", running) ∷ [];
  generation = 0;
  shutting_down = false;
}

abbrev exit : Exit
exit = record {
  exit_code = some (pos 0);
  completed_at = none;
  recovery_status = none;
  reason = some "done";
  request_id = none;
  output_offsets = [];
}

abbrev after_exit : Answer × Tables
after_exit = (
  event last,
  record tables {
    events = logged 1 "a" 10 ∷ logged 2 "b" 20 ∷ logged 3 "a" 30 ∷ last ∷ [];
    last_id = 4;
    processes =
        (
          "p",
          record running { status = "passed"; exit_code = some (pos 0); completed_at = some 40 },
        )
        ∷ [];
    generation = 1;
  },
)
  where
    last : Event
    last = record {
      event_id = 4;
      request_id = none;
      workspace_id = "a";
      process_id = some "p";
      event_type = "process.exited";
      sequence = some 1;
      created_at = 40;
      payload =
          field "status" (text "passed")
            (field "exit_code" (number (pos 0)) (field "reason" (text "done") end));
    }

-- A field that must not be stored, in an object of a list.
abbrev secret : Fields
secret = field "items" (array (cons (object (field "api_key" (text "x") end)) nil)) end

program : Unit {0}
unfolding Dict.get Dict.put append transition_process cleanup list_after find_sensitive_key
    is_sensitive encode_cursor decode_cursor
program = tt

encode_cursor-255 : encode_cursor 255 ≡ codes "evt1_ff"
unfolding program
encode_cursor-255 = refl

make_store_limits-no_page :
    make_store_limits (record {
      max_payload_bytes = pos 100;
      max_page_size = pos 0;
      max_wait = pos 25;
      max_waiters = pos 32;
    })
    ≡ err limits_not_positive
unfolding make_store_limits
make_store_limits-no_page = refl

decode_cursor_bad : decode_cursor (codes "evt1_FF") ≡ err invalid_cursor
unfolding program
decode_cursor_bad = refl

transition_process-tables : transition_process "p" "passed" exit 40 tables ≡ ok after_exit
unfolding program
transition_process-tables = refl

append_unknown : append plain 100 "tool.unknown" none "a" none end 5 tables ≡ err unknown_event_type
unfolding program
append_unknown = refl

decode_cursor-encode_cursor_example : decode_cursor (encode_cursor 255) ≡ ok 255
decode_cursor-encode_cursor_example = decode_cursor-encode_cursor 255 (omega arith)

find_sensitive_key_lem_example :
    ((k : String)
      → find_sensitive_key plain secret ≡ some k
      → Found plain (λ j v. InFields j v secret) k)
    × (find_sensitive_key plain secret ≡ none
        → (k : String) (v : Json) → InFields k v secret
        → is_sensitive plain k v ≡ false)
find_sensitive_key_lem_example = find_sensitive_key_lem plain secret

transition_process_once_example :
    (a : Answer) × (t : Tables) × (transition_process "p" "passed" exit 40 tables ≡ ok (a, t))
    × Ends "p" "passed" exit 40 running tables a t
    × ((status : String) (x : Exit) (now : ℕ) (u : Tables)
        → is_terminal status ≡ true
        → Later "p" t u
        → transition_process "p" status x now u ≡ ok (a, u))
unfolding program
transition_process_once_example =
    transition_process_once "p" "passed" exit 40 running tables refl refl refl

abbrev first_page : Page
first_page = record {
  events = logged 1 "a" 10 ∷ [];
  cursor = codes "evt1_1";
  has_more = true;
  timed_out = false;
}

list_after-Continues_example :
    (types : List String) × (after : ℕ) × (validate_filters none ≡ ok types)
    × (resolve_after none "a" true tables ≡ ok after)
    × (or_else (Dict.get "a" tables.retention) 0 ≤ after)
    × Continues "a" none types after tables.events first_page
unfolding program
list_after-Continues_example =
    list_after-Continues 100 none "a" none none (pos 1) true tables first_page
      (omega arith, (omega arith, (omega arith, tt))) refl

-- Of the two events of "a" the older one goes.
abbrev cleaned_tables : Tables
cleaned_tables = record tables {
  events = logged 2 "b" 20 ∷ logged 3 "a" 30 ∷ [];
  retention = ("a", 1) ∷ [];
  generation = 1;
}

cleanup-Retains_example : Retains tables cleaned_tables
unfolding program
cleanup-Retains_example = cleanup-Retains 10 (pos 7) (pos 1) 50 tables cleaned_tables 1 refl
