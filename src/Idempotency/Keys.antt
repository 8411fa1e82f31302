-- ===== src/Idempotency/Keys.antt =====
-- The table of app/storage/idempotency.py. Time stamps are ticks: their ISO texts are ordered alike.
use test_gpt_local.Prelude.{
  ℕ, ◌-◌, ◌*◌, ◌≡◌, refl, String, Bool, true, false, not, [], ◌∷◌, arith, ltb, if◌then◌else◌,
  Option, none, some, length,
}
use test_gpt_local.Prelude.Int.{pos, eqℤ}
use test_gpt_local.Prelude.Text.{◌==◌, eq_iff}
use test_gpt_local.Prelude.Dict
use test_gpt_local.Prelude.Dict.{Dict, IsUnique}
use test_gpt_local.Events.Payload.{
  Json, null, boolean, number, text, array, object, nil, cons, Fields, end, field,
}

pub record Entry : Type 0 where
  pub tool_name : String
  pub input_hash : String
  pub result : Fields
  pub created_at : ℕ

abbrev pub Keys : Type 0
Keys = Dict Entry

-- `d.get(key)` of an object
unfoldable pub lookup : String → Fields → Option Json
lookup key end = none
lookup key (field k v fs) = if k == key then some v else lookup key fs

-- What a condition makes of a value.
unfoldable pub truthy : Json → Bool
truthy null = false
truthy (boolean b) = b
truthy (number n) = not (eqℤ n (pos 0))
truthy (text s) = not (s == "")
truthy (array nil) = false
truthy (array (cons x xs)) = true
truthy (object end) = false
truthy (object (field k v fs)) = true

-- `cached.get("_mismatch")`, as a condition
unfoldable pub is_mismatch : Fields → Bool
unfolding lookup truthy
is_mismatch cached = elim (lookup "_mismatch" cached) [ none ↦ false | some v ↦ truthy v ]

abbrev pub mismatch : String → Fields
mismatch stored_hash = field "_mismatch" (boolean true) (field "stored_hash" (text stored_hash) end)

unfoldable pub cached_of : String → Option Entry → Option Fields
cached_of input_hash none = none
cached_of input_hash (some e) =
    some (if e.input_hash == input_hash then e.result else mismatch e.input_hash)

unfoldable pub get_idempotent_result : String → String → Keys → Option Fields
unfolding cached_of
get_idempotent_result key input_hash keys = cached_of input_hash (Dict.get key keys)

-- `INSERT OR REPLACE`
abbrev pub store_idempotent_result : String → String → String → Fields → (now : ℕ) → Keys → Keys
store_idempotent_result key tool_name input_hash result now keys =
    Dict.put key
      (record { tool_name = tool_name; input_hash = input_hash; result = result; created_at = now })
      keys

unfoldable pub fresh_keys : ℕ → Keys → Keys
fresh_keys cutoff [] = []
fresh_keys cutoff ((k, e) ∷ keys) =
    let rest = fresh_keys cutoff keys in if ltb e.created_at cutoff then rest else (k, e) ∷ rest

-- The count of the deleted rows, and the rows that are left.
unfoldable pub expire_old_keys : (hour hours now : ℕ) → Keys → ℕ × Keys
unfolding fresh_keys
expire_old_keys hour hours now keys =
    let left = fresh_keys (now - hours * hour) keys in (length keys - length left, left)

-- An entry that is not old.
abbrev pub not_old : ℕ → Option Entry → Option Entry
not_old cutoff none = none
not_old cutoff (some e) = if ltb e.created_at cutoff then none else some e

fresh_keys-none :
    (cutoff : ℕ) (k : String) (keys : Keys)
    → Dict.get k keys ≡ none
    → Dict.get k (fresh_keys cutoff keys) ≡ none
unfolding fresh_keys Dict.get
fresh_keys-none cutoff k [] h = refl
fresh_keys-none cutoff k ((j, e) ∷ keys) h = ground (arith, fresh_keys-none cutoff k keys)

pub get-fresh_keys :
    (cutoff : ℕ) (k : String) (keys : Keys)
    → IsUnique keys
    → Dict.get k (fresh_keys cutoff keys) ≡ not_old cutoff (Dict.get k keys)
unfolding fresh_keys Dict.get
get-fresh_keys cutoff k [] u = refl
get-fresh_keys cutoff k ((j, e) ∷ keys) u =
    ground (arith, get-fresh_keys cutoff k keys u.1, fresh_keys-none cutoff k keys, eq_iff j k, u.0)
