-- ===== src/Ai/Features.antt =====
-- src/ai/flow_features.cpp, `flow_to_features`: the 27 features in the order of the contract with
-- ml/features.py.
use ips_with_ai.Prelude.{ℕ, ◌≡◌, refl, List, [], ◌∷◌, length}
use ips_with_ai.Flow.Double.{Double}
use ips_with_ai.Flow.Stats.{mean, stddev}
use ips_with_ai.Flow.Touch.{micros_between}
use ips_with_ai.Flow.Types.{Flow, DirectionStats}
use ips_with_ai.Ai.Types.{flow_feature_count}

module _ {F : Type 0} (d : Double F) where
  unfoldable pub count_sum : ℕ → ℕ → F
  count_sum forward backward = d.plus (d.of_nat forward) (d.of_nat backward)

  unfoldable pub flow_to_features : Flow F → List F
  unfolding count_sum
  flow_to_features f =
      micros_between d f.last_seen f.first_seen
      ∷ d.of_nat forward.payload_len.count
      ∷ d.of_nat backward.payload_len.count
      ∷ forward.payload_len.sum
      ∷ backward.payload_len.sum
      ∷ forward.payload_len.max
      ∷ forward.payload_len.min
      ∷ mean d forward.payload_len
      ∷ stddev d forward.payload_len
      ∷ backward.payload_len.max
      ∷ backward.payload_len.min
      ∷ mean d backward.payload_len
      ∷ stddev d backward.payload_len
      ∷ mean d forward.iat_us
      ∷ stddev d forward.iat_us
      ∷ forward.iat_us.max
      ∷ forward.iat_us.min
      ∷ mean d backward.iat_us
      ∷ stddev d backward.iat_us
      ∷ backward.iat_us.max
      ∷ backward.iat_us.min
      ∷ count_sum forward.fin backward.fin
      ∷ count_sum forward.syn backward.syn
      ∷ count_sum forward.rst backward.rst
      ∷ count_sum forward.psh backward.psh
      ∷ count_sum forward.ack backward.ack
      ∷ count_sum forward.urg backward.urg
      ∷ []
    where
      forward : DirectionStats F
      forward = f.forward

      backward : DirectionStats F
      backward = f.backward

  -- The array has its 27 entries.
  pub length-flow_to_features : (f : Flow F) → length (flow_to_features f) ≡ flow_feature_count
  unfolding flow_to_features
  length-flow_to_features f = refl
