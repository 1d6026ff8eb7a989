-- ===== src/Capture/Pipeline/Decisions.antt =====
-- src/capture/packet_capture.cpp, `apply_ai_decisions`: what the decisions of the inference process
-- bring about.
use ips_with_ai.Prelude.{
  ℕ, ◌+◌, ◌<◌, ◌≡◌, refl, ◌∙◌, sym, ap, true, false, List, [], ◌∷◌, arith, if◌then◌else◌, All,
  length, length-append, u64,
}
use ips_with_ai.Common.Clock.{TimePoint}
use ips_with_ai.Response.Whitelist.{is_whitelisted}
use ips_with_ai.Response.BlockList.{is_blocked}
use ips_with_ai.Response.BlockList.Blocked.{is_blocked-block}
use ips_with_ai.Ai.Types.{AiDecision}
use ips_with_ai.Capture.Pipeline.{PacketCapture, apply_decision, apply_ai_decisions}
use ips_with_ai.Capture.Pipeline.Persist.{apply_ai_decisions-blocked}

unfoldable pub anomalies : {F : Type 0} → List (AiDecision F) → ℕ
anomalies [] = 0
anomalies (a ∷ ds) = (if a.anomaly then 1 else 0) + anomalies ds

module _ {F : Type 0} where
  -- The three counters of decisions together, and the announced blocks.
  abbrev pub decided : PacketCapture F → ℕ
  decided c = c.ai_new_blocks + c.ai_duplicates + c.ai_whitelisted

  apply_decision-decided :
      (c : PacketCapture F) (a : AiDecision F) (now : TimePoint)
      → c.has_block_handler ≡ true
      → let c' = apply_decision c a now in
        (c'.has_block_handler ≡ true)
        × (u64 (decided c') ≡ u64 (decided c + (if a.anomaly then 1 else 0)))
        × (u64 (c'.ai_new_blocks + length c.block_events)
            ≡ u64 (c.ai_new_blocks + length c'.block_events))
  unfolding apply_decision
  apply_decision-decided c a now h = (ground arith, ground arith, grind (arith, length-append))

  -- Every anomalous decision is counted once, as a new block, a duplicate or a whitelisted source, and
  -- every new block is announced once, where a block handler is set; the counters are taken modulo 2^64.
  pub apply_ai_decisions-decided :
      (c : PacketCapture F) (ds : List (AiDecision F)) (now : TimePoint)
      → c.has_block_handler ≡ true
      → let c' = apply_ai_decisions c ds now in
        (u64 (decided c') ≡ u64 (decided c + anomalies ds))
        × (u64 (c'.ai_new_blocks + length c.block_events)
            ≡ u64 (c.ai_new_blocks + length c'.block_events))
  unfolding apply_ai_decisions anomalies
  apply_ai_decisions-decided c [] now h = (omega arith, refl)
  apply_ai_decisions-decided c (a ∷ ds) now h =
      let step = apply_decision-decided c a now h in
      let ih = apply_ai_decisions-decided (apply_decision c a now) ds now step.0 in
      (omega (arith, ih.0, step.1), omega (arith, ih.1, step.2))

  whitelist-apply_ai_decisions :
      (c : PacketCapture F) (ds : List (AiDecision F)) (now : TimePoint)
      → ((apply_ai_decisions c ds now).whitelist ≡ c.whitelist)
        × ((apply_ai_decisions c ds now).block_ttl_seconds ≡ c.block_ttl_seconds)
  unfolding apply_ai_decisions apply_decision
  whitelist-apply_ai_decisions c [] now = (refl, refl)
  whitelist-apply_ai_decisions c (a ∷ ds) now =
      ground (arith, whitelist-apply_ai_decisions (apply_decision c a now) ds now)

  -- The source of an anomalous decision is blocked at `now`, if it is not on the whitelist.
  abbrev pub IsEnforced : PacketCapture F → TimePoint → AiDecision F → Type 0
  IsEnforced c now a =
      a.anomaly ≡ true
      → is_whitelisted c.whitelist a.flow_record.key.src_ip ≡ false
      → is_blocked c.block_list a.flow_record.key.src_ip now ≡ true

  apply_decision-IsEnforced :
      (c : PacketCapture F) (a : AiDecision F) (now : TimePoint)
      → 0 < c.block_ttl_seconds
      → IsEnforced (apply_decision c a now) now a
  unfolding apply_decision
  apply_decision-IsEnforced c a now h odd open_to = ground (
    arith,
    is_blocked-block c.block_list a.flow_record.key.src_ip c.block_ttl_seconds now
        a.flow_record.key.src_ip now,
  )

  -- After the decisions of one tick the source of each anomalous one is blocked, unless it is
  -- whitelisted, for a block that lasts at least a second.
  pub apply_ai_decisions-IsEnforced :
      (c : PacketCapture F) (ds : List (AiDecision F)) (now : TimePoint)
      → 0 < c.block_ttl_seconds
      → All (IsEnforced (apply_ai_decisions c ds now) now) ds
  unfolding apply_ai_decisions
  apply_ai_decisions-IsEnforced c [] now h = tt
  apply_ai_decisions-IsEnforced c (a ∷ ds) now h =
      let c' = apply_decision c a now in
      (
        λ odd open_to.
            apply_ai_decisions-blocked c' ds a.flow_record.key.src_ip now now (omega arith) (
              apply_decision-IsEnforced c a now h odd (
                ap (λ w. is_whitelisted w a.flow_record.key.src_ip)
                  (sym (whitelist-apply_ai_decisions c' ds now).0)
                ∙ open_to)),
        apply_ai_decisions-IsEnforced c' ds now
            (ground (arith, whitelist-apply_ai_decisions c (a ∷ []) now)),
      )
