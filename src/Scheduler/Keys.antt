-- ===== src/Scheduler/Keys.antt =====
-- The value classes of app/services/process_scheduler.py, with the checks of their constructors.
use test_gpt_local.Prelude.{
  ℕ, ◌≤◌, ◌+◌, String, ◌≡◌, ◌↔◌, Bool, true, false, ◌||◌, not, Option, none, some, List, [], ◌∷◌,
  arith, if◌then◌else◌,
}
use test_gpt_local.Prelude.Int.{ℤ, pos, lebℤ, ltbℤ, pos_part}
use test_gpt_local.Prelude.Text.{◌==◌, eq_iff, is_blank}
use test_gpt_local.Prelude.Result.{Result, ok, raise_if, ◌>>◌}

pub data AccessMode : Type 0 where
  read write : AccessMode

pub record ConcurrencyKey : Type 0 where
  pub scope : String
  pub resource : String
  pub mode : AccessMode

-- The `ValueError`s of this file, one for each message.
pub data ValueError : Type 0 where
  empty_key empty_workspace negative_timeout : ValueError
  global_limit_below_one per_workspace_limit_below_one per_workspace_above_global : ValueError
  cpu_time_seconds memory_bytes max_processes max_output_bytes max_disk_bytes : ValueError

-- `ConcurrencyKey(scope, resource, mode)` with `__post_init__`
unfoldable pub make_key : String → String → AccessMode → Result ValueError ConcurrencyKey
make_key scope resource mode = do
  raise_if (is_blank scope || is_blank resource) empty_key
  ok (record { scope = scope; resource = resource; mode = mode })

abbrev access : Bool → AccessMode
access is_write = if is_write then write else read

-- The class methods of `ConcurrencyKey`; that for files wants `pathlib`, and is left out.
unfoldable pub workspace_key : String → Bool → Result ValueError ConcurrencyKey
unfolding make_key
workspace_key workspace_id is_write = make_key "workspace" workspace_id (access is_write)

unfoldable pub process_key : String → Result ValueError ConcurrencyKey
unfolding make_key
process_key process_id = make_key "process" process_id write

unfoldable pub global_git_key : Result ValueError ConcurrencyKey
unfolding make_key
global_git_key = make_key "global" "git" write

abbrev pub is_write : AccessMode → Bool
is_write read = false
is_write write = true

unfoldable pub conflicts_with : ConcurrencyKey → ConcurrencyKey → Bool
conflicts_with k l =
    if not (k.scope == l.scope) || not (k.resource == l.resource)
    then false
    else is_write k.mode || is_write l.mode

pub record ResourceLimits : Type 0 where
  pub cpu_time_seconds : Option ℤ
  pub memory_bytes : Option ℤ
  pub max_processes : Option ℤ
  pub max_output_bytes : Option ℤ
  pub max_disk_bytes : Option ℤ

-- One round of the loop of `ResourceLimits.__post_init__`.
check_positive : Option ℤ → ValueError → Result ValueError Unit
check_positive none e = ok tt
check_positive (some value) e = raise_if (lebℤ value (pos 0)) e

unfoldable pub make_limits : ResourceLimits → Result ValueError ResourceLimits
unfolding check_positive
make_limits l = do
  check_positive l.cpu_time_seconds ValueError.cpu_time_seconds
  check_positive l.memory_bytes ValueError.memory_bytes
  check_positive l.max_processes ValueError.max_processes
  check_positive l.max_output_bytes ValueError.max_output_bytes
  check_positive l.max_disk_bytes ValueError.max_disk_bytes
  ok l

-- The files' sizes; `none` for one whose `stat` raises `OSError`.
unfoldable pub output_usage : List (Option ℕ) → ℕ
output_usage [] = 0
output_usage (none ∷ paths) = output_usage paths
output_usage (some size ∷ paths) = size + output_usage paths

unfoldable pub output_limit_exceeded : ResourceLimits → List (Option ℕ) → Bool
unfolding output_usage
output_limit_exceeded l paths = elim l.max_output_bytes [
  | none ↦ false
  | some limit ↦ ltbℤ limit (pos (output_usage paths))
]

-- A validated policy: the limits are at least 1, so natural numbers. Times are in ticks of a fixed
-- fraction of a second.
pub record QueuePolicy : Type 0 where
  pub global_limit : ℕ
  pub per_workspace_limit : ℕ
  pub queue_timeout : ℕ

unfoldable pub make_policy : ℤ → ℤ → ℤ → Result ValueError QueuePolicy
make_policy global_limit per_workspace_limit queue_timeout = do
  raise_if (ltbℤ global_limit (pos 1)) global_limit_below_one
  raise_if (ltbℤ per_workspace_limit (pos 1)) per_workspace_limit_below_one
  raise_if (ltbℤ global_limit per_workspace_limit) per_workspace_above_global
  raise_if (ltbℤ queue_timeout (pos 0)) negative_timeout
  ok (record {
    global_limit = pos_part global_limit;
    per_workspace_limit = pos_part per_workspace_limit;
    queue_timeout = pos_part queue_timeout;
  })

-- What the constructor guarantees of a policy.
pub record IsPolicy (p : QueuePolicy) : Type 0 where
  pub positive : 1 ≤ p.per_workspace_limit
  pub ordered : p.per_workspace_limit ≤ p.global_limit

-- A conflict does not depend on which of the two keys is asked.
pub conflicts_with_comm : (k l : ConcurrencyKey) → conflicts_with k l ≡ conflicts_with l k
unfolding conflicts_with
conflicts_with_comm k l = ground (
  arith,
  eq_iff k.scope l.scope,
  eq_iff l.scope k.scope,
  eq_iff k.resource l.resource,
  eq_iff l.resource k.resource,
)

-- A policy is made exactly from limits with 1 ≤ per workspace ≤ global and a timeout that is not
-- negative, and it has those limits.
pub make_policy-eq-ok_iff :
    (g w t : ℤ) (p : QueuePolicy)
    → (make_policy g w t ≡ ok p) ↔ (
        IsPolicy p
        × (g ≡ pos p.global_limit)
        × (w ≡ pos p.per_workspace_limit)
        × (t ≡ pos p.queue_timeout))
unfolding make_policy
make_policy-eq-ok_iff g w t p = (λ h. ground arith, λ h. ground arith)
