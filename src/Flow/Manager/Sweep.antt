-- ===== src/Flow/Manager/Sweep.antt =====
-- src/flow/flow_manager.cpp, `sweep_expired`: one tick of the clean-up looks at a tenth of a map's
-- buckets, or at 64, from the cursor on.
use ips_with_ai.Prelude.{
  ℕ, zero, suc, ◌+◌, ◌/◌, ◌%◌, Bool, ◌&&◌, List, [], ◌∷◌, ◌++◌, ◌==◌, if◌then◌else◌, min, max,
}
use ips_with_ai.Common.FiveTuple.{FiveTuple}

-- `bucket_count()` and `bucket(key)` of the two maps.
pub record Layout : Type 0 where
  pub flow_buckets : ℕ
  pub flow_bucket : FiveTuple → ℕ
  pub source_buckets : ℕ
  pub source_bucket : ℕ → ℕ

unfoldable pub quota : ℕ → ℕ
quota buckets = max (buckets / 10) 64

unfoldable pub next_cursor : ℕ → ℕ → ℕ
unfolding quota
next_cursor buckets cursor = (cursor + quota buckets) % buckets

module _ {K V : Type 0} (bucket : K → ℕ) where
  -- The expired keys of bucket `b`.
  unfoldable pub doomed_in : ℕ → (V → Bool) → List (K × V) → List K
  doomed_in b is_expired [] = []
  doomed_in b is_expired ((k, v) ∷ m) =
      let rest = doomed_in b is_expired m in
      if bucket k == b && is_expired v then k ∷ rest else rest

  -- `n` rounds of the loop over the buckets, the first at offset `i`.
  unfoldable pub doomed_from : ℕ → ℕ → ℕ → ℕ → (V → Bool) → List (K × V) → List K
  doomed_from zero i buckets cursor is_expired m = []
  doomed_from (suc n) i buckets cursor is_expired m =
      doomed_in ((cursor + i) % buckets) is_expired m
      ++ doomed_from n (suc i) buckets cursor is_expired m

  -- The keys that one tick collects.
  unfoldable pub doomed : ℕ → ℕ → (V → Bool) → List (K × V) → List K
  unfolding doomed_in doomed_from quota
  doomed buckets cursor is_expired m =
      doomed_from (min (quota buckets) buckets) 0 buckets cursor is_expired m
