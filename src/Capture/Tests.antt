-- ===== src/Capture/Tests.antt =====
-- Runs of the parser and of the pipeline of src/capture, and of the rules of src/detect, on concrete
-- packets, over whole numbers in place of doubles.
use ips_with_ai.Prelude.{
  ℕ, ◌+◌, ◌/◌, ◌<◌, ◌≡◌, ◌≢◌, ◌↔◌, ◌⊎◌, refl, true, false, not, ◌||◌, none, some, List, [], ◌∷◌,
  ◌++◌, All, arith, ltb, u64, ℕ_discrete,
}
use ips_with_ai.Prelude.Map.{find, put}
use ips_with_ai.Prelude.Set.{contains, insert}
use ips_with_ai.Common.Clock.{seconds}
use ips_with_ai.Common.FiveTuple.{FiveTuple, reversed, tuple_eq, tuple_discrete}
use ips_with_ai.Flow.Double.{whole}
use ips_with_ai.Flow.Types.{ParsedPacket, inbound, timeout, SourceStats}
use ips_with_ai.Flow.Touch.{touch_flow, new_flow, count_packet}
use ips_with_ai.Flow.Manager.{
  observe_packet, observe_source, update_flow, new_manager, update_at, update_source_stats,
  index_flow,
}
use ips_with_ai.Flow.Manager.Sweep.{Layout}
use ips_with_ai.Detect.{
  Rule, RuleEngine, port_scan, syn_flood, add_rule, check, is_match, first_match, check-some,
}
use ips_with_ai.Response.Whitelist.{Whitelist, is_whitelisted}
use ips_with_ai.Response.BlockList.{is_blocked, empty}
use ips_with_ai.Ai.Types.{AiDecision}
use ips_with_ai.Capture.Parser.{Bytes, parse}
use ips_with_ai.Capture.Parser.Safety.{parse_in_bounds}
use ips_with_ai.Capture.Parser.Accepts.{
  IsUnreadable, parse_nullopt, IsWellFormed, IsBytes, parse-IsWellFormed,
}
use ips_with_ai.Capture.Parser.RoundTrip.{Ip, write_ip, write_tcp, read_back, parse-write_tcp}
use ips_with_ai.Capture.Pipeline.{
  PacketCapture, new_capture, handle_inbound, handle_packet, apply_ai_decisions, judge,
}
use ips_with_ai.Capture.Pipeline.Verdict.{BreaksRule, handle_inbound_verdict, handle_inbound_blocks}
use ips_with_ai.Capture.Pipeline.Blocking.{
  Event, packet, tick, Inv, handle_event, handle_events, handle_events-Inv,
}
use ips_with_ai.Capture.Pipeline.Persist.{handle_events-blocked}
use ips_with_ai.Capture.Pipeline.Decisions.{IsEnforced, apply_ai_decisions-IsEnforced}
use ips_with_ai.Capture.Pipeline.Exports.{Numbered, handle_events-Numbered}

abbrev scanner : ParsedPacket
scanner = record {
  tuple = record { src_ip = 7; dst_ip = 9; src_port = 4000; dst_port = 22; protocol = 6 };
  total_len = 60;
  payload_len = 20;
  has_ports = true;
  tcp_flags = 2;
}

abbrev one_bucket : Layout
one_bucket = record {
  flow_buckets = 1;
  flow_bucket = λ k. 0;
  source_buckets = 1;
  source_bucket = λ k. 0;
}

abbrev friends : Whitelist
friends = record { ips = 5 ∷ [] }

-- Blocks last 300 seconds, and a single SYN packet is a flood.
abbrev strict : PacketCapture ℕ
strict = new_capture 300 10 20 1 friends 0 1000000 true

abbrev decision : AiDecision ℕ
decision = record {
  flow_record = record {
    flow_id = record { sensor = 1000; sequence = 1 };
    key = scanner.tuple;
    first_seen_ms = 1;
    last_seen_ms = 1;
    end_reason = timeout;
    feature_schema_version = 1;
    features = [];
  };
  anomaly = true;
  score = 1;
  threshold = 0;
  model_version = "m";
}

abbrev events : List (Event ℕ)
events = packet inbound scanner 1000 1000 ∷ tick one_bucket (decision ∷ []) 2000 (λ n. 2000) ∷ []

lasting : 0 < strict.block_ttl_seconds
unfolding new_capture
lasting = omega arith

strict-Inv : Inv strict
unfolding handle_events
strict-Inv = handle_events-Inv whole 300 10 20 1 friends 0 1000000 true []

nobody : is_blocked strict.block_list 7 1000 ≡ false
unfolding new_capture is_blocked empty find
nobody = refl

dropped : (handle_inbound whole strict scanner 1000 1000).1 ≡ false
unfolding handle_inbound is_whitelisted contains new_capture ℕ_discrete is_blocked find empty judge
    observe_packet observe_source update_flow new_manager update_at touch_flow new_flow
    update_source_stats index_flow tuple_discrete reversed tuple_eq add_rule check first_match
    is_match count_packet insert put
dropped = refl

-- A UDP header after an IPv4 header, and the packet that it spells.
abbrev header : Ip
header = record { total = 60; s0 = 10; s1 = 0; s2 = 0; s3 = 7; d0 = 10; d1 = 0; d2 = 0; d3 = 9 }

abbrev bytes : Bytes
bytes = write_ip header 6 (write_tcp 4000 22 2 [])

bytes-IsBytes : IsBytes bytes
unfolding write_ip write_tcp
bytes-IsBytes = ground arith

abbrev quiet : SourceStats
quiet = record { recent_dst_ports = 22 ∷ []; syn_count = 1; window_start = 0 }

abbrev engine : RuleEngine
engine = record { rules = port_scan 20 ∷ syn_flood 1 ∷ [] }

hit : check engine quiet ≡ some (syn_flood 1)
unfolding check first_match is_match
hit = refl

no_hit : check (record { rules = port_scan 20 ∷ [] }) quiet ≡ none
unfolding check first_match is_match
no_hit = refl

check-some_example :
    (before after : List Rule) × (engine.rules ≡ before ++ syn_flood 1 ∷ after)
    × (is_match (syn_flood 1) quiet ≡ true)
    × All (λ r. is_match r quiet ≡ false) before
check-some_example = check-some engine quiet (syn_flood 1) hit

parse_in_bounds_example : parse (some (69 ∷ 0 ∷ 0 ∷ [])) ≢ none
parse_in_bounds_example = parse_in_bounds (some (69 ∷ 0 ∷ 0 ∷ []))

parse_nullopt_example :
    (parse (some (69 ∷ 0 ∷ 0 ∷ [])) ≡ some none) ↔ IsUnreadable (some (69 ∷ 0 ∷ 0 ∷ []))
parse_nullopt_example = parse_nullopt (some (69 ∷ 0 ∷ 0 ∷ []))

parse-IsWellFormed_example : IsWellFormed (read_back header 6 4000 22 20 2)
parse-IsWellFormed_example =
    parse-IsWellFormed bytes (read_back header 6 4000 22 20 2) bytes-IsBytes
      (parse-write_tcp header 4000 22 2 [] (omega arith) (omega arith) (omega arith) (omega arith))

parse-write_tcp_example : parse (some bytes) ≡ some (some (read_back header 6 4000 22 20 2))
parse-write_tcp_example =
    parse-write_tcp header 4000 22 2 [] (omega arith) (omega arith) (omega arith) (omega arith)

handle_inbound_verdict_example :
    let r = handle_inbound whole strict scanner 1000 1000 in
    ((r.1 ≡ false) ↔ (
      (is_whitelisted strict.whitelist 7 ≡ false)
      × ((is_blocked strict.block_list 7 1000 ≡ true)
          ⊎ ((scanner.has_ports ≡ true) × BreaksRule whole strict scanner 1000))))
    × (r.1 ≡ (is_whitelisted strict.whitelist 7 || not (is_blocked r.0.block_list 7 1000)))
handle_inbound_verdict_example = handle_inbound_verdict whole strict scanner 1000 1000 lasting

handle_inbound_blocks_example :
    let r = (handle_inbound whole strict scanner 1000 1000).0 in
    (scanner.has_ports ≡ true)
    × BreaksRule whole strict scanner 1000
    × (r.rule_blocks ≡ u64 (strict.rule_blocks + 1))
    × ((t : ℕ) → is_blocked r.block_list 7 t ≡ ltb t (1000 + seconds strict.block_ttl_seconds))
    × ((k : FiveTuple) → k.src_ip ≡ 7 → find tuple_discrete k r.flow_manager.flows ≡ none)
handle_inbound_blocks_example =
    handle_inbound_blocks whole strict scanner 1000 1000 strict-Inv.flows nobody dropped

handle_events-Inv_example : Inv (handle_events whole strict events)
handle_events-Inv_example = handle_events-Inv whole 300 10 20 1 friends 0 1000000 true events

handle_events-Numbered_example :
    Numbered friends (1000000 / 1000) 1 (handle_events whole strict events).consumed
handle_events-Numbered_example =
    handle_events-Numbered whole 300 10 20 1 friends 0 1000000 true events

apply_ai_decisions-IsEnforced_example :
    All (IsEnforced (apply_ai_decisions strict (decision ∷ []) 1000) 1000) (decision ∷ [])
apply_ai_decisions-IsEnforced_example =
    apply_ai_decisions-IsEnforced strict (decision ∷ []) 1000 lasting

-- The pipeline once the scanner has been caught.
abbrev held : PacketCapture ℕ
held = handle_events whole strict (packet inbound scanner 1000 1000 ∷ [])

held-Inv : Inv held
held-Inv =
    handle_events-Inv whole 300 10 20 1 friends 0 1000000 true
      (packet inbound scanner 1000 1000 ∷ [])

still : is_blocked held.block_list 7 5000 ≡ true
unfolding handle_events handle_event handle_packet new_capture
still =
    (handle_inbound_blocks whole strict scanner 1000 1000 strict-Inv.flows nobody dropped).3 5000

handle_events-blocked_example :
    is_blocked (handle_events whole held events).block_list 7 5000 ≡ true
handle_events-blocked_example =
    handle_events-blocked whole held events 7 5000 held-Inv (omega arith, (omega arith, tt)) still
