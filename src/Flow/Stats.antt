-- ===== src/Flow/Stats.antt =====
-- src/flow/flow.h, `RunningStats`: count, sum, sum of squares, minimum and maximum of the values
-- added so far, and the mean and the standard deviation that follow from them.
pub mod Batch
use ips_with_ai.Prelude.{
  ℕ, zero, suc, ◌+◌, ◌-◌, ◌≡◌, Bool, true, false, ltb, ◌==◌, if◌then◌else◌, u64,
}
use ips_with_ai.Flow.Double.{Double}

pub record RunningStats (F : Type 0) : Type 0 where
  pub count : ℕ
  pub sum : F
  pub sq_sum : F
  pub min : F
  pub max : F

module _ {F : Type 0} (d : Double F) where
  unfoldable pub empty : RunningStats F
  empty = record { count = 0; sum = zero; sq_sum = zero; min = zero; max = zero }
    where
      zero : F
      zero = d.of_nat 0

  -- `RunningStats::add`; the 64-bit count wraps.
  unfoldable pub add : RunningStats F → F → RunningStats F
  add s x = record s {
    count = u64 (count + 1);
    sum = d.plus sum x;
    sq_sum = d.plus sq_sum (d.times x x);
    min = if count == 0 then x else if d.less x min then x else min;
    max = if count == 0 then x else if d.less max x then x else max;
  }
    where
      open s use {count, sum, sq_sum, min, max}

  unfoldable pub mean : RunningStats F → F
  mean s = if s.count == 0 then d.of_nat 0 else d.over s.sum (d.of_nat s.count)

  -- The sample variance; rounding can make it negative, and then the deviation is 0.
  unfoldable pub stddev : RunningStats F → F
  stddev s =
      if ltb s.count 2
      then d.of_nat 0
      else if d.less (d.of_nat 0) var
      then d.sqrt var
      else d.of_nat 0
    where
      n : F
      n = d.of_nat s.count

      var : F
      var = d.over (d.minus s.sq_sum (d.over (d.times s.sum s.sum) n)) (d.minus n (d.of_nat 1))
