-- ===== src/Executor/Limits.antt =====
-- `_bounded_integer` and `_validated_limits` of bounded_executor.py. A setting may be any Python
-- value: `V` is the type of these values, with `isinstance(value, bool)` and the built-in `int`.
use langbot_plugin_sdk.Prelude.{
  ℕ, ◌/◌, ◌≤◌, ◌≡◌, Bool, ◌||◌, Option, none, some, min, max, Result, ok, raise, ◌>>=◌, ◌>>◌,
  raise_if, ltb, if◌then◌else◌, arith,
}
use langbot_plugin_sdk.Prelude.Int.{ℤ, pos, ltb_ℤ, pos_part}

abbrev pub hard_max_workers : ℕ
hard_max_workers = 64

abbrev pub hard_max_pending : ℕ
hard_max_pending = 4096

abbrev pub default_max_inflight_per_scope : ℕ
default_max_inflight_per_scope = 4

pub data LimitError : Type 0 where
  not_an_integer out_of_range over_fair_share : LimitError

pub record Limits : Type 0 where
  pub workers : ℕ
  pub pending : ℕ
  pub scope_limit : ℕ

-- What a setting must satisfy to be accepted.
pub record AreFair (l : Limits) : Type 0 where
  pub some_worker : 1 ≤ l.workers
  pub workers_capped : l.workers ≤ hard_max_workers
  pub pending_capped : l.pending ≤ hard_max_pending
  pub some_scope : 1 ≤ l.scope_limit
  pub share : l.scope_limit ≤ max 1 (l.workers / 2)

module _ {ℓ} {V : Type ℓ} (is_bool : V → Bool) (int_of : V → Option ℤ) where
  unfoldable pub bounded_integer : V → ℕ → ℕ → Result LimitError ℕ
  bounded_integer value minimum maximum =
      if is_bool value then raise not_an_integer else elim (int_of value) [
        | none ↦ raise not_an_integer
        | some parsed ↦
            if ltb_ℤ parsed (pos minimum) || ltb_ℤ (pos maximum) parsed
            then raise out_of_range
            else ok (pos_part parsed)
      ]

  unfoldable pub scope_limit_of : Option V → ℕ → Result LimitError ℕ
  unfolding bounded_integer
  scope_limit_of none fair_share = ok (min default_max_inflight_per_scope fair_share)
  scope_limit_of (some value) fair_share = bounded_integer value 1 hard_max_pending

  unfoldable pub validated_limits : V → V → Option V → Result LimitError Limits
  unfolding scope_limit_of
  validated_limits max_workers max_pending max_inflight_per_scope = do
    workers ← bounded_integer max_workers 1 hard_max_workers
    pending ← bounded_integer max_pending 0 hard_max_pending
    let fair_share = max 1 (workers / 2)
    scope_limit ← scope_limit_of max_inflight_per_scope fair_share
    raise_if (ltb fair_share scope_limit) over_fair_share
    ok (record { workers = workers; pending = pending; scope_limit = scope_limit })

  pub bounded_integer_range :
      (value : V) (lo hi n : ℕ)
      → bounded_integer value lo hi ≡ ok n
      → (int_of value ≡ some (pos n)) × (lo ≤ n) × (n ≤ hi)
  unfolding bounded_integer
  bounded_integer_range value lo hi n h = ground arith

  -- Limits that are accepted are within the hard caps, and the limit of a scope is positive and at
  -- most half of the workers (or one). Without an explicit limit of a scope only the first two
  -- settings can be refused.
  pub validated_limits-AreFair :
      (a b : V) (c : Option V) {l : Limits} → validated_limits a b c ≡ ok l → AreFair l
  unfolding validated_limits
  validated_limits-AreFair a b none h = grind (arith, bounded_integer_range)
  validated_limits-AreFair a b (some c) h = grind (arith, bounded_integer_range)
