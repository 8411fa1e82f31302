-- ===== src/Events/Retention.antt =====
-- `cleanup` of app/services/event_store.py, and what it leaves to the readers.
pub mod Keeps
use test_gpt_local.Prelude.{
  ℕ, zero, suc, ◌≤◌, ◌<◌, ◌+◌, ◌-◌, ◌*◌, ◌≡◌, ◌≢◌, String, refl, sym, ap, ◌∙◌, Bool, true, false,
  ◌&&◌, ◌||◌, not, List, [], ◌∷◌, ◌++◌, map, arith, ltb, leb, if◌then◌else◌, Option, none, some,
  max, min, length, take, inl, inr, Bool-cases,
}
use test_gpt_local.Prelude.Int.{ℤ, pos, ltbℤ, pos_part}
use test_gpt_local.Prelude.Text.{◌==◌, mem, eq_iff}
use test_gpt_local.Prelude.Dict
use test_gpt_local.Prelude.Dict.{Dict, or_else, get-put}
use test_gpt_local.Prelude.Result.{Result, ok, err, raise_if, ◌>>=◌, ◌>>◌}
use test_gpt_local.Events.Store.{Event, Tables, EventError, invalid_retention, notify}
use test_gpt_local.Events.Query.{selects, select, newest}

-- `SELECT DISTINCT workspace_id`
unfoldable pub distinct : List String → List Event → List String
unfolding mem
distinct seen [] = []
distinct seen (e ∷ es) =
    let rest = distinct (e.workspace_id ∷ seen) es in
    if mem e.workspace_id seen then rest else e.workspace_id ∷ rest

abbrev in_workspace : String → Event → Bool
in_workspace workspace e = e.workspace_id == workspace

-- The newest id but those of the `n` newest events: `LIMIT -1 OFFSET n` of the descending ids, and
-- the maximum of the rest. The events stand in the order of their ids.
count_cutoff : String → ℕ → List Event → ℕ
unfolding select newest
count_cutoff workspace n es =
    let own = select (in_workspace workspace) es in newest workspace (take (length own - n) own)

-- `COALESCE(MAX(event_id), 0)` of the events that were created before the cutoff
time_cutoff : String → ℕ → List Event → ℕ
unfolding select newest
time_cutoff workspace cutoff es = newest workspace (select (λ e. ltb e.created_at cutoff) es)

pub survives : String → ℕ → Event → Bool
survives workspace through e = not (in_workspace workspace e && leb e.event_id through)

-- One round of the loop: the tables and the count of deleted events.
unfoldable pub expire : String → ℕ → Tables × ℕ → Tables × ℕ
unfolding survives select
expire workspace through (t, deleted) =
    let kept = select (survives workspace through) t.events in
    if leb through 0 then (t, deleted) else (
      record t {
        events = kept;
        retention =
            Dict.put workspace (max (or_else (Dict.get workspace t.retention) 0) through)
              t.retention;
      },
      deleted + (length t.events - length kept),
    )

unfoldable pub expire_workspace : (cutoff limit : ℕ) → String → Tables × ℕ → Tables × ℕ
unfolding expire count_cutoff time_cutoff
expire_workspace cutoff limit workspace (t, deleted) =
    expire workspace
      (max (count_cutoff workspace limit t.events) (time_cutoff workspace cutoff t.events))
      (t, deleted)

unfoldable pub expire_all : (cutoff limit : ℕ) → List String → Tables × ℕ → Tables × ℕ
unfolding expire_workspace
expire_all cutoff limit [] r = r
expire_all cutoff limit (w ∷ ws) r = expire_all cutoff limit ws (expire_workspace cutoff limit w r)

-- The ticks of a day are a parameter; no time stamp lies before tick 0.
unfoldable pub cleanup :
    (day : ℕ)
    → (retention_days max_events : ℤ) → (now : ℕ) → Tables
    → Result EventError (ℕ × Tables)
unfolding distinct expire_all
cleanup day retention_days max_events now t = do
  raise_if (ltbℤ retention_days (pos 0) || ltbℤ max_events (pos 1)) invalid_retention
  let cutoff = now - pos_part retention_days * day
  let (t', deleted) = expire_all cutoff (pos_part max_events) (distinct [] t.events) (t, 0)
  ok (deleted, if ltb 0 deleted then notify t' else t')
