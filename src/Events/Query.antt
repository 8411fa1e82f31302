-- ===== src/Events/Query.antt =====
-- `list_after` of app/services/event_store.py: pages of events behind a cursor. The rows of a query
-- stand in the order of the events' ids, in which they were inserted.
pub mod Pages
use test_gpt_local.Prelude.{
  ℕ, zero, suc, ◌≤◌, ◌<◌, ◌+◌, ◌≡◌, String, refl, Bool, true, false, ◌&&◌, ◌||◌, not, List, [], ◌∷◌,
  ◌++◌, arith, ltb, leb, if◌then◌else◌, Option, none, some, max, min, length, take,
}
use test_gpt_local.Prelude.Int.{ℤ, pos, negsuc, pos_part}
use test_gpt_local.Prelude.Text.{◌==◌, mem}
use test_gpt_local.Prelude.Dict
use test_gpt_local.Prelude.Dict.{Dict, or_else}
use test_gpt_local.Prelude.Result.{Result, ok, err, raise_if, ◌>>=◌, ◌>>◌}
use test_gpt_local.Events.Cursor.{Code, encode_cursor, decode_cursor}
use test_gpt_local.Events.Store.{
  Event, Tables, EventError, unknown_filter, invalid_cursor, cursor_expired, event_types,
  of_process,
}

pub record Page : Type 0 where
  pub events : List Event
  pub cursor : Code
  pub has_more : Bool
  pub timed_out : Bool

-- `dict.fromkeys`, which keeps the first of equal texts; `seen` has those before.
dedupe : List String → List String → List String
dedupe seen [] = []
dedupe seen (x ∷ xs) = let rest = dedupe (x ∷ seen) xs in if mem x seen then rest else x ∷ rest

all_known : List String → Bool
all_known [] = true
all_known (x ∷ xs) = mem x event_types && all_known xs

unfoldable pub validate_filters : Option (List String) → Result EventError (List String)
unfolding mem event_types dedupe all_known
validate_filters none = ok []
validate_filters (some types) =
    let values = dedupe [] types in if all_known values then ok values else err unknown_filter

-- The `WHERE` clause: an absent process and no types are no condition.
unfoldable pub selects : String → ℕ → Option String → List String → Event → Bool
unfolding mem
selects workspace_id after process_id types e =
    (e.workspace_id == workspace_id)
    && ltb after e.event_id
    && elim process_id [ none ↦ true | some p ↦ of_process p e ]
    && elim types [ [] ↦ true | x ∷ xs ↦ mem e.event_type (x ∷ xs) ]

unfoldable pub select : (Event → Bool) → List Event → List Event
select p [] = []
select p (e ∷ es) = let rest = select p es in if p e then e ∷ rest else rest

-- `COALESCE(MAX(event_id), 0)` over the events of a workspace
unfoldable pub newest : String → List Event → ℕ
newest workspace_id [] = 0
newest workspace_id (e ∷ es) =
    let rest = newest workspace_id es in
    if e.workspace_id == workspace_id then max e.event_id rest else rest

unfoldable pub resolve_after : Option Code → String → Bool → Tables → Result EventError ℕ
unfolding newest decode_cursor
resolve_after (some cursor) workspace_id from_beginning t = elim (decode_cursor cursor) [
  | ok n ↦ ok n
  | err e ↦ err invalid_cursor
]
resolve_after none workspace_id from_beginning t =
    ok (if from_beginning then 0 else newest workspace_id t.events)

unfoldable pub check_retention : ℕ → String → Tables → Result EventError Unit
check_retention after workspace_id t =
    let expired_through = or_else (Dict.get workspace_id t.retention) 0 in
    raise_if (ltb after expired_through) (cursor_expired expired_through)

-- The id of the last selected event, or `after`
unfoldable pub last_id : ℕ → List Event → ℕ
last_id after [] = after
last_id after (e ∷ es) = last_id e.event_id es

unfoldable pub page_of : ℕ → ℕ → List Event → Page
unfolding last_id encode_cursor
page_of page_limit after rows =
    let selected = take page_limit rows in
    record {
      events = selected;
      cursor = encode_cursor (last_id after selected);
      has_more = ltb page_limit (length rows);
      timed_out = false;
    }

-- `limit` may be negative: the page has at least one event.
unfoldable pub list_after :
    (max_page_size : ℕ)
    → Option Code
    → String
    → Option String
    → Option (List String)
    → (limit : ℤ) → Bool
    → Tables
    → Result EventError Page
unfolding validate_filters resolve_after check_retention selects select page_of
list_after max_page_size cursor workspace_id process_id event_types limit from_beginning t = do
  types ← validate_filters event_types
  let page_limit = max 1 (min (pos_part limit) max_page_size)
  after ← resolve_after cursor workspace_id from_beginning t
  check_retention after workspace_id t
  ok (
      page_of page_limit after
        (take (page_limit + 1) (select (selects workspace_id after process_id types) t.events)))
