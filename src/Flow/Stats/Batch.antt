-- ===== src/Flow/Stats/Batch.antt =====
-- src/flow/flow.h: the running accumulator against what it promises of the whole list of values.
use ips_with_ai.Prelude.{
  ℕ, ◌+◌, ◌<◌, ◌≡◌, refl, ◌∙◌, false, List, [], ◌∷◌, arith, length, All, ◌⊎◌, inl, inr,
}
use ips_with_ai.Flow.Double.{Double, LawfulOrder}
use ips_with_ai.Flow.Stats.{RunningStats, empty, add}

module _ {F : Type 0} (d : Double F) where
  -- The values of a flow, added in order of arrival.
  unfoldable pub add_all : RunningStats F → List F → RunningStats F
  add_all s [] = s
  add_all s (x ∷ xs) = add_all (add d s x) xs

  unfoldable pub sum_from : F → List F → F
  sum_from a [] = a
  sum_from a (x ∷ xs) = sum_from (d.plus a x) xs

  unfoldable pub sq_sum_from : F → List F → F
  sq_sum_from a [] = a
  sq_sum_from a (x ∷ xs) = sq_sum_from (d.plus a (d.times x x)) xs

  -- `m` is one of the values, and none is less.
  abbrev pub Member : F → List F → Type 0
  Member m [] = ⊥
  Member m (x ∷ xs) = (m ≡ x) ⊎ Member m xs

  pub record Summarises (s : RunningStats F) (n : ℕ) (a q : F) : Type 0 where
    pub count : s.count ≡ n
    pub sum : s.sum ≡ a
    pub sq_sum : s.sq_sum ≡ q

  add_all-Summarises_from :
      (s : RunningStats F) (xs : List F)
      → s.count + length xs < 18446744073709551616
      → Summarises
          (add_all s xs)
          (s.count + length xs)
          (sum_from s.sum xs)
          (sq_sum_from s.sq_sum xs)
  unfolding add_all sum_from sq_sum_from add
  add_all-Summarises_from s [] h = record { count = omega arith; sum = refl; sq_sum = refl }
  add_all-Summarises_from s (x ∷ xs) h =
      let r = add_all-Summarises_from (add d s x) xs (omega arith) in
      record { count = omega (arith, r.count); sum = r.sum; sq_sum = r.sq_sum }

  -- The counters of an accumulator are those of the list that was added: its length, and the sums of
  -- the values and of their squares, accumulated from the left, as long as fewer than 2^64 values
  -- were added.
  pub add_all-Summarises :
      (xs : List F)
      → length xs < 18446744073709551616
      → Summarises
          (add_all (empty d) xs)
          (length xs)
          (sum_from (d.of_nat 0) xs)
          (sq_sum_from (d.of_nat 0) xs)
  unfolding empty
  add_all-Summarises xs h =
      let r = add_all-Summarises_from (empty d) xs (omega arith) in
      record { count = omega (arith, r.count); sum = r.sum; sq_sum = r.sq_sum }

  -- What the minimum and the maximum of `r` are after `xs` came in at minimum `lo`, maximum `hi`.
  record Extremes (lo hi : F) (xs : List F) (r : RunningStats F) : Type 0 where
    lo_kept : d.less lo r.min ≡ false
    hi_kept : d.less r.max hi ≡ false
    least : All (λ x. d.less x r.min ≡ false) xs
    greatest : All (λ x. d.less r.max x ≡ false) xs
    min_among : (r.min ≡ lo) ⊎ Member r.min xs
    max_among : (r.max ≡ hi) ⊎ Member r.max xs

  -- One more value, after the first.
  record Moved (lo hi x : F) (r : RunningStats F) : Type 0 where
    lo_kept : d.less lo r.min ≡ false
    hi_kept : d.less r.max hi ≡ false
    least : d.less x r.min ≡ false
    greatest : d.less r.max x ≡ false
    min_among : (r.min ≡ lo) ⊎ (r.min ≡ x)
    max_among : (r.max ≡ hi) ⊎ (r.max ≡ x)

  add-Moved :
      LawfulOrder d → (s : RunningStats F) (x : F) → 0 < s.count → Moved s.min s.max x (add d s x)
  unfolding add
  add-Moved o s x p = ground (
    arith,
    o.irreflexive x,
    o.irreflexive s.min,
    o.irreflexive s.max,
    o.asymmetric x s.min,
    o.asymmetric s.max x,
  )

  add_all-Extremes :
      LawfulOrder d
      → (s : RunningStats F) (xs : List F) → 0 < s.count
      → s.count + length xs < 18446744073709551616
      → Extremes s.min s.max xs (add_all s xs)
  unfolding add_all
  add_all-Extremes o s [] p h = record {
    lo_kept = o.irreflexive s.min;
    hi_kept = o.irreflexive s.max;
    least = tt;
    greatest = tt;
    min_among = inl refl;
    max_among = inl refl;
  }
  add_all-Extremes o s (x ∷ xs) p h =
      let t = add d s x in
      let r = add_all t xs in
      let m = add-Moved o s x p in
      let e = add_all-Extremes o t xs (unfold add in omega arith) (unfold add in omega arith) in
      record {
        lo_kept = o.transitive s.min t.min r.min m.lo_kept e.lo_kept;
        hi_kept = o.transitive r.max t.max s.max e.hi_kept m.hi_kept;
        least = (o.transitive x t.min r.min m.least e.lo_kept, e.least);
        greatest = (o.transitive r.max t.max x e.hi_kept m.greatest, e.greatest);
        min_among = either xs m.min_among e.min_among;
        max_among = either xs m.max_among e.max_among;
      }
    where
      either :
          {r t lo x : F} (xs : List F)
          → (t ≡ lo) ⊎ (t ≡ x)
          → (r ≡ t) ⊎ Member r xs
          → (r ≡ lo) ⊎ Member r (x ∷ xs)
      either xs (inl a) (inl b) = inl (b ∙ a)
      either xs (inr a) (inl b) = inr (inl (b ∙ a))
      either xs a (inr b) = inr (inr b)

  -- After a first value and fewer than 2^64 in all, `min` is one of the values and no value is less
  -- than it, and `max` is one of the values and no value is greater, for doubles that are not NaN.
  pub add_all-extremes :
      LawfulOrder d
      → (x : F) (xs : List F) → length (x ∷ xs) < 18446744073709551616
      → let r = add_all (empty d) (x ∷ xs) in
        All (λ y. d.less y r.min ≡ false) (x ∷ xs)
        × Member r.min (x ∷ xs)
        × All (λ y. d.less r.max y ≡ false) (x ∷ xs)
        × Member r.max (x ∷ xs)
  unfolding add_all add empty
  add_all-extremes o x xs h =
      let e = add_all-Extremes o (add d (empty d) x) xs (omega arith) (omega arith) in
      ((e.lo_kept, e.least), e.min_among, (e.hi_kept, e.greatest), e.max_among)
