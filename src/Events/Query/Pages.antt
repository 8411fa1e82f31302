-- ===== src/Events/Query/Pages.antt =====
-- Reading page after page of `list_after` (app/services/event_store.py) loses and repeats no event.
use native.Mathlib.Numerals.{add-one}
use test_gpt_local.Prelude.{
  ℕ, zero, suc, ◌≤◌, ◌<◌, ◌+◌, ◌≡◌, ◌≢◌, String, refl, sym, ap, ◌∙◌, ap₂, subst, Bool, true, false,
  ◌&&◌, List, [], ◌∷◌, ◌++◌, arith, ltb, Option, max, min, length, take, inl, inr, Bool-cases,
}
use test_gpt_local.Prelude.Int.{ℤ, pos_part}
use test_gpt_local.Prelude.Dict
use test_gpt_local.Prelude.Dict.{or_else}
use test_gpt_local.Prelude.Result.{Result, ok, >>=-eq-ok}
use test_gpt_local.Events.Cursor.{Code, encode_cursor}
use test_gpt_local.Events.Store.{Event, Tables, EventError}
use test_gpt_local.Events.Query.{
  Page, selects, select, last_id, page_of, list_after, validate_filters, resolve_after,
  check_retention,
}

-- The ids grow along the list, from above a bound.
abbrev pub Ascends : ℕ → List Event → Type 0
Ascends n [] = Unit
Ascends n (e ∷ es) = (n < e.event_id) × Ascends e.event_id es

Ascends-weaken : (m n : ℕ) (es : List Event) → m ≤ n → Ascends n es → Ascends m es
Ascends-weaken m n [] h a = tt
Ascends-weaken m n (e ∷ es) h a = (omega arith, a.1)

pub Ascends-select :
    (p : Event → Bool) (n : ℕ) (es : List Event) → Ascends n es → Ascends n (select p es)
unfolding select
Ascends-select p n [] a = tt
Ascends-select p n (e ∷ es) a = elim (Bool-cases (p e)) [
  | inl b ↦ rw b (a.0, Ascends-select p e.event_id es a.1)
  | inr b ↦ rw b (Ascends-weaken n e.event_id _ (omega arith) (Ascends-select p e.event_id es a.1))
]

-- What is selected ascends from any bound that each selected event is above.
Ascends-from :
    (m n : ℕ) (p : Event → Bool)
    → ((e : Event) → p e ≡ true → n < e.event_id)
    → (es : List Event) → Ascends m es
    → Ascends n (select p es)
unfolding select
Ascends-from m n p h [] a = tt
Ascends-from m n p h (e ∷ es) a = elim (Bool-cases (p e)) [
  | inl b ↦ rw b (h e b, Ascends-select p e.event_id es a.1)
  | inr b ↦ rw b (Ascends-from e.event_id n p h es a.1)
]

-- The events above an id.
abbrev above : ℕ → List Event → List Event
above n = select (λ e. ltb n e.event_id)

above-all : (m n : ℕ) (es : List Event) → m ≤ n → Ascends n es → above m es ≡ es
unfolding select
above-all m n [] h a = refl
above-all m n (e ∷ es) h a = ground (arith, above-all m e.event_id es (omega arith) a.1)

last_id-ge : (k n : ℕ) (es : List Event) → Ascends n es → n ≤ last_id n (take k es)
unfolding last_id
last_id-ge zero n es a = omega arith
last_id-ge (suc k) n [] a = omega arith
last_id-ge (suc k) n (e ∷ es) a = omega (arith, last_id-ge k e.event_id es a.1)

-- The first `k` of ascending events, and those above the last of them.
take-append-above :
    (k after : ℕ) (es : List Event)
    → Ascends after es
    → take k es ++ above (last_id after (take k es)) es ≡ es
unfolding last_id select
take-append-above zero after es a = above-all after after es (omega arith) a
take-append-above (suc k) after [] a = refl
take-append-above (suc k) after (e ∷ es) a =
    ground (arith, last_id-ge k e.event_id es a.1, take-append-above k e.event_id es a.1)

select-select :
    (p q r : Event → Bool) (es : List Event)
    → ((e : Event) → r e ≡ q e && p e)
    → select p (select q es) ≡ select r es
unfolding select
select-select p q r [] h = refl
select-select p q r (e ∷ es) h = ground (arith, h e, select-select p q r es h)

take-take : (k : ℕ) (es : List Event) → take k (take (suc k) es) ≡ take k es
take-take zero es = refl
take-take (suc k) [] = refl
take-take (suc k) (e ∷ es) = ap (λ l. e ∷ l) (take-take k es)

above-skip :
    (k : ℕ) (e : Event) (es : List Event)
    → Ascends e.event_id es
    → above (last_id e.event_id (take k es)) (e ∷ es) ≡ above (last_id e.event_id (take k es)) es
unfolding select
above-skip k e es a = ground (arith, last_id-ge k e.event_id es a)

-- Whether a page of `k` has more behind it.
more-behind :
    (k after : ℕ) (es : List Event)
    → Ascends after es
    → (ltb k (length (take (suc k) es)) ≡ false → above (last_id after (take k es)) es ≡ [])
      × (ltb k (length (take (suc k) es)) ≡ true → above (last_id after (take k es)) es ≢ [])
unfolding last_id select
more-behind k after [] a = (λ h. refl, λ h. ground arith)
more-behind zero after (e ∷ es) a = (λ h. ground arith, λ h. ground arith)
more-behind (suc k) after (e ∷ es) a =
    let (f, g) = more-behind k e.event_id es a.1 in
    let skip = above-skip k e es a.1 in
    (λ h. skip ∙ f (ground arith), λ h none_left. g (ground arith) (sym skip ∙ none_left))

module _ (workspace : String) (process : Option String) (types : List String) where
  selects-lt :
      (after : ℕ) (e : Event) → selects workspace after process types e ≡ true → after < e.event_id
  unfolding selects
  selects-lt after e h = ground arith

  selects-above :
      (after next : ℕ)
      → after ≤ next
      → (e : Event)
      → selects workspace next process types e
        ≡ selects workspace after process types e && ltb next e.event_id
  unfolding selects
  selects-above after next h e = ground arith

  -- The page for an id holds the matching events up to that of its cursor, and nothing is lost
  -- between it and the page for its cursor.
  pub record Continues (after : ℕ) (es : List Event) (page : Page) : Type 0 where
    pub next : ℕ
    pub cursor : page.cursor ≡ encode_cursor next
    pub forward : after ≤ next
    pub split :
        select (selects workspace after process types) es
        ≡ page.events ++ select (selects workspace next process types) es
    pub last : page.has_more ≡ false → select (selects workspace next process types) es ≡ []
    pub more : page.has_more ≡ true → select (selects workspace next process types) es ≢ []

  selects-Ascends :
      (after : ℕ) (es : List Event)
      → Ascends 0 es
      → Ascends after (select (selects workspace after process types) es)
  selects-Ascends after es a =
      Ascends-from 0 after (selects workspace after process types) (selects-lt after) es a

  page_of-Continues :
      (k after : ℕ) (es : List Event)
      → Ascends 0 es
      → Continues after es
          (page_of k after (take (suc k) (select (selects workspace after process types) es)))
  unfolding page_of
  page_of-Continues k after es a =
      let rows = select (selects workspace after process types) es in
      let asc = selects-Ascends after es a in
      let next = last_id after (take k rows) in
      let forward = last_id-ge k after rows asc in
      let rest =
        select-select (λ e. ltb next e.event_id) (selects workspace after process types)
          (selects workspace next process types) es (selects-above after next forward) in
      let (none_left, some_left) = more-behind k after rows asc in
      record {
        next = next;
        cursor = ap (λ l. encode_cursor (last_id after l)) (take-take k rows);
        forward = forward;
        split =
            sym (take-append-above k after rows asc)
            ∙ ap₂ (λ l r. l ++ r) (sym (take-take k rows)) rest;
        last = λ h. sym rest ∙ none_left h;
        more = λ h e. some_left h (rest ∙ e);
      }

  page_of-Continues_ok :
      (k after : ℕ) (es : List Event) (page : Page)
      → Ascends 0 es
      → ◌≡◌ {A = Result EventError Page}
          (ok (page_of k after (take (k + 1) (select (selects workspace after process types) es))))
          (ok page)
      → Continues after es page
  page_of-Continues_ok k after es page a h =
      let same : page_of k after (take (suc k) (select (selects workspace after process types) es))
          ≡ page =
        rw (← add-one) (cc h) in
      subst (Continues after es) same (page_of-Continues k after es a)

-- Where the events stand in the order of their ids and `list_after` returns a page, the page continues from the id that it resolved, and it is not
-- behind the events that retention removed.
pub list_after-Continues :
    (max_page_size : ℕ) (cursor : Option Code) (workspace : String) (process : Option String)
    (event_types : Option (List String)) (limit : ℤ) (from_beginning : Bool) (t : Tables)
    (page : Page)
    → Ascends 0 t.events
    → list_after max_page_size cursor workspace process event_types limit from_beginning t ≡ ok page
    → (types : List String) × (after : ℕ) × (validate_filters event_types ≡ ok types)
      × (resolve_after cursor workspace from_beginning t ≡ ok after)
      × (or_else (Dict.get workspace t.retention) 0 ≤ after)
      × Continues workspace process types after t.events page
unfolding list_after
list_after-Continues max_page_size cursor workspace process event_types limit from_beginning t page
      a h =
    let (types, h1, h2) = >>=-eq-ok (validate_filters event_types) _ h in
    let (after, h3, h4) = >>=-eq-ok (resolve_after cursor workspace from_beginning t) _ h2 in
    let (done, h5, h6) = >>=-eq-ok (check_retention after workspace t) _ h4 in
    (
      types,
      after,
      h1,
      h3,
      unfold check_retention in ground (arith, h5),
      page_of-Continues_ok workspace process types (max 1 (min (pos_part limit) max_page_size))
          after t.events page a h6,
    )
