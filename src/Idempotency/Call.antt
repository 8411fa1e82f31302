-- ===== src/Idempotency/Call.antt =====
-- `with_idempotency` of app/storage/idempotency.py. The wrapped call is a function of a world of any
-- type, which it changes also where it raises; the hash of a tool's name and inputs is a parameter, and
-- so is what `json.loads` reads of a result that `json.dumps(…, default=str)` has written.
use test_gpt_local.Prelude.{ℕ, String, if◌then◌else◌, Option, none, some}
use test_gpt_local.Prelude.Result.{Result, ok, err}
use test_gpt_local.Events.Payload.{Json, Fields}
use test_gpt_local.Idempotency.Keys.{
  Keys, lookup, is_mismatch, get_idempotent_result, store_idempotent_result,
}

-- The call's result, or the error for a key that was used with other inputs.
pub data Reply : Type 0 where
  result : Fields → Reply
  key_mismatch : (idempotency_key : String) → (stored_hash : Option Json) → Reply

unfoldable pub reply_of : String → Fields → Reply
unfolding is_mismatch lookup
reply_of key cached =
    if is_mismatch cached then key_mismatch key (lookup "stored_hash" cached) else result cached

module _ {World Error : Type 0} (input_hash : String → Fields → String)
    (as_json : Fields → Fields) where
  -- After the call: its result is stored, and an exception is not.
  unfoldable pub finish :
      String
      → String
      → String
      → (now : ℕ) → Keys
      → Result Error Fields × World
      → Result Error Reply × World × Keys
  finish key tool_name hash now keys (ok r, world) =
      (ok (result r), world, store_idempotent_result key tool_name hash (as_json r) now keys)
  finish key tool_name hash now keys (err e, world) = (err e, world, keys)

  abbrev pub plain : Keys → Result Error Fields × World → Result Error Reply × World × Keys
  plain keys (ok r, world) = (ok (result r), world, keys)
  plain keys (err e, world) = (err e, world, keys)

  unfoldable pub call_or_cached :
      String
      → String
      → String
      → (World → Result Error Fields × World)
      → (now : ℕ) → Keys
      → World
      → Option Fields
      → Result Error Reply × World × Keys
  unfolding finish reply_of
  call_or_cached key tool_name hash fn now keys world none =
      finish key tool_name hash now keys (fn world)
  call_or_cached key tool_name hash fn now keys world (some cached) =
      (ok (reply_of key cached), world, keys)

  unfoldable pub with_idempotency :
      Option String
      → (tool_name : String) → (inputs : Fields) → (fn : World → Result Error Fields × World)
      → (now : ℕ) → World
      → Keys
      → Result Error Reply × World × Keys
  unfolding call_or_cached get_idempotent_result
  with_idempotency none tool_name inputs fn now world keys = plain keys (fn world)
  with_idempotency (some key) tool_name inputs fn now world keys =
      let hash = input_hash tool_name inputs in
      call_or_cached key tool_name hash fn now keys world (get_idempotent_result key hash keys)
