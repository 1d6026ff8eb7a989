-- ===== src/Flow/Manager/Buckets.antt =====
-- src/flow/flow_manager.cpp, `sweep_expired`: which keys one tick collects, and where the cursor goes.
use ips_with_ai.Prelude.{
  ℕ, zero, suc, ◌+◌, ◌-◌, ◌%◌, ◌≤◌, ◌<◌, ◌≡◌, ap, ◌∙◌, Bool, true, false, ◌&&◌, Option, none, some,
  List, [], ◌∷◌, arith, ◌==◌, min,
}
use native.Mathlib.Nat.{mod-add-mod}
use ips_with_ai.Prelude.Set
use ips_with_ai.Prelude.Map.{find, IsUnique}
use ips_with_ai.Prelude.Set.{contains}
use ips_with_ai.Flow.Manager.Sweep.{quota, next_cursor, doomed_in, doomed_from, doomed}

-- The value at a key satisfies a test.
abbrev pub holds {ℓ} : {V : Type ℓ} → (V → Bool) → Option V → Bool
holds test none = false
holds test (some v) = test v

module _ {K V : Type 0} (dec : Discrete K) (bucket : K → ℕ) (test : V → Bool) where
  contains-doomed_in :
      (b : ℕ) (k : K) (m : List (K × V))
      → IsUnique dec m
      → contains dec k (doomed_in bucket b test m) ≡ (bucket k == b && holds test (find dec k m))
  unfolding doomed_in contains find
  contains-doomed_in b k [] u = ground arith
  contains-doomed_in b k ((j, v) ∷ m) u = ground (arith, contains-doomed_in b k m u.1)

  -- A collected key is in the map and expired.
  doomed_from_sound :
      (n i buckets cursor : ℕ) (k : K) (m : List (K × V))
      → IsUnique dec m
      → contains dec k (doomed_from bucket n i buckets cursor test m) ≡ true
      → holds test (find dec k m) ≡ true
  unfolding doomed_from
  doomed_from_sound zero i buckets cursor k m u h = absurd (unfold contains in ground arith)
  doomed_from_sound (suc n) i buckets cursor k m u h = ground (
    arith,
    Set.contains-append dec k (doomed_in bucket ((cursor + i) % buckets) test m)
        (doomed_from bucket n (suc i) buckets cursor test m),
    contains-doomed_in ((cursor + i) % buckets) k m u,
    doomed_from_sound n (suc i) buckets cursor k m u,
  )

  pub doomed_sound :
      (buckets cursor : ℕ) (k : K) (m : List (K × V))
      → IsUnique dec m
      → contains dec k (doomed bucket buckets cursor test m) ≡ true
      → holds test (find dec k m) ≡ true
  unfolding doomed
  doomed_sound buckets cursor k m u =
      doomed_from_sound (min (quota buckets) buckets) 0 buckets cursor k m u

  -- An expired key whose bucket lies `j` buckets on is collected.
  doomed_from_complete :
      (n i buckets cursor j : ℕ) (k : K) (m : List (K × V))
      → IsUnique dec m
      → j < n
      → bucket k ≡ (cursor + (i + j)) % buckets
      → holds test (find dec k m) ≡ true
      → contains dec k (doomed_from bucket n i buckets cursor test m) ≡ true
  unfolding doomed_from
  doomed_from_complete zero i buckets cursor j k m u l e h = absurd (omega arith)
  doomed_from_complete (suc n) i buckets cursor zero k m u l e h = ground (
    arith,
    Set.contains-append dec k (doomed_in bucket ((cursor + i) % buckets) test m)
        (doomed_from bucket n (suc i) buckets cursor test m),
    contains-doomed_in ((cursor + i) % buckets) k m u,
    ap (λ (x : ℕ). (cursor + x) % buckets) (i_zero i),
  )
    where
      i_zero : (i : ℕ) → i + 0 ≡ i
      i_zero i = omega arith
  doomed_from_complete (suc n) i buckets cursor (suc j) k m u l e h = ground (
    arith,
    Set.contains-append dec k (doomed_in bucket ((cursor + i) % buckets) test m)
        (doomed_from bucket n (suc i) buckets cursor test m),
    doomed_from_complete n (suc i) buckets cursor j k m u (omega arith)
        (e ∙ ap (λ (x : ℕ). (cursor + x) % buckets) (shift i j)) h,
  )
    where
      shift : (i j : ℕ) → i + suc j ≡ suc i + j
      shift i j = omega arith

  pub doomed_complete :
      (buckets cursor j : ℕ) (k : K) (m : List (K × V))
      → IsUnique dec m
      → j < quota buckets
      → j < buckets
      → bucket k ≡ (cursor + j) % buckets
      → holds test (find dec k m) ≡ true
      → contains dec k (doomed bucket buckets cursor test m) ≡ true
  unfolding doomed
  doomed_complete buckets cursor j k m u l l' e h =
      doomed_from_complete (min (quota buckets) buckets) 0 buckets cursor j k m u (omega arith)
        (e ∙ ap (λ (x : ℕ). (cursor + x) % buckets) (zero_j j)) h
    where
      zero_j : (j : ℕ) → j ≡ 0 + j
      zero_j j = omega arith

-- A bucket that is `j` on from the cursor and not reached by this tick is `j - quota` on from the next.
pub next_cursor_nearer :
    (buckets cursor j : ℕ)
    → quota buckets ≤ j
    → (next_cursor buckets cursor + (j - quota buckets)) % buckets ≡ (cursor + j) % buckets
unfolding next_cursor
next_cursor_nearer buckets cursor j h =
    mod-add-mod (cursor + quota buckets) buckets (j - quota buckets)
    ∙ ap (λ (x : ℕ). x % buckets) (omega arith)
