-- ===== src/Idempotency/Tests.antt =====
-- Runs of calls with an idempotency key at small inputs, and the theorems at those inputs. The world
-- counts the calls that ran.
use test_gpt_local.Prelude.{ℕ, ◌+◌, ◌-◌, ◌*◌, ◌≡◌, ◌≢◌, refl, String, [], ◌∷◌, some}
use test_gpt_local.Prelude.Int.{pos}
use test_gpt_local.Prelude.Dict
use test_gpt_local.Prelude.Result.{Result, ok, err}
use test_gpt_local.Events.Payload.{text, number, Fields, end, field}
use test_gpt_local.Idempotency.Keys.{Keys, is_mismatch, not_old, expire_old_keys}
use test_gpt_local.Idempotency.Call.{result, key_mismatch, with_idempotency}
use test_gpt_local.Idempotency.Retry.{with_idempotency-retry, expire_old_keys_lem}

-- A hash that tells calls with inputs from those without.
abbrev hash : String → Fields → String
hash tool end = tool
hash tool (field k v fs) = k

-- Numbers and texts are read as they were written.
abbrev same_json : Fields → Fields
same_json fs = fs

abbrev run : ℕ → Result String Fields × ℕ
run n = (ok (field "calls" (number (pos (n + 1))) end), n + 1)

abbrev first : Fields
first = field "calls" (number (pos 1)) end

abbrev stored : Keys
stored =
    ("k", record { tool_name = "patch"; input_hash = "patch"; result = first; created_at = 50 })
    ∷ []

program : Unit {0}
unfolding with_idempotency expire_old_keys is_mismatch Dict.get Dict.put
program = tt

with_idempotency-first :
    with_idempotency hash same_json (some "k") "patch" end run 50 0 []
    ≡ (ok (result first), 1, stored)
unfolding program
with_idempotency-first = refl

with_idempotency-again :
    with_idempotency hash same_json (some "k") "patch" end run 60 1 stored
    ≡ (ok (result first), 1, stored)
unfolding program
with_idempotency-again = refl

-- A call that raises leaves no entry: a retry runs it again.
with_idempotency-raised :
    with_idempotency {Error = String} hash same_json
      (some "k")
      "patch"
      end
      (λ n. (err "io", n + 1))
      50
      0
      []
    ≡ (err "io", 1, [])
unfolding program
with_idempotency-raised = refl

with_idempotency-retry_example :
    ((fn : ℕ → Result String Fields × ℕ) (later : ℕ) (w : ℕ) (keys : Keys)
      → Dict.get "k" keys ≡ Dict.get "k" stored
      → with_idempotency hash same_json (some "k") "patch" end fn later w keys
        ≡ (ok (result first), w, keys))
    × ((tool : String) (inputs : Fields) (fn : ℕ → Result String Fields × ℕ) (later : ℕ) (w : ℕ)
          (keys : Keys)
        → Dict.get "k" keys ≡ Dict.get "k" stored
        → hash "patch" end ≢ hash tool inputs
        → with_idempotency hash same_json (some "k") tool inputs fn later w keys
          ≡ (ok (key_mismatch "k" (some (text "patch"))), w, keys))
unfolding program
with_idempotency-retry_example =
    with_idempotency-retry hash same_json "k" "patch" end first run 50 0 1 [] stored refl refl refl

expire_old_keys_lem_example :
    Dict.get "k" (expire_old_keys 10 2 60 stored).1 ≡ not_old (60 - 2 * 10) (Dict.get "k" stored)
unfolding program
expire_old_keys_lem_example = expire_old_keys_lem 10 2 60 "k" stored (refl, tt)
