-- ===== src/Flow/Tests.antt =====
-- Runs of the flow code of src/flow on concrete packets, over whole numbers in place of doubles.
use ips_with_ai.Prelude.{
  ℕ, ◌+◌, ◌*◌, ◌<◌, ◌≤◌, ◌≡◌, ◌≢◌, refl, ap, true, false, none, some, List, [], ◌∷◌, All, length,
  arith, ltb, ℕ_discrete,
}
use ips_with_ai.Prelude.Map.{find, put}
use ips_with_ai.Common.FiveTuple.{FiveTuple, reversed, tuple_discrete}
use ips_with_ai.Flow.Double.{whole, whole-LawfulOrder}
use ips_with_ai.Flow.Stats.{empty}
use ips_with_ai.Flow.Stats.Batch.{add_all, Member, add_all-extremes}
use ips_with_ai.Flow.Types.{Flow, ParsedPacket, inbound, tcp_reset, no_packets, SourceStats}
use ips_with_ai.Flow.Touch.{count_packet, touch_direction, touch_flow, new_flow}
use ips_with_ai.Flow.Manager.{
  FlowManager, new_manager, get_flow, update_flow, update_at, index_flow, observe_source,
  observe_packet, extract_completed, extract_at, end_reason, discard_source_flows, cleanup_expired,
  update_source_stats,
}
use ips_with_ai.Flow.Manager.Sweep.{Layout, quota}
use ips_with_ai.Flow.Manager.Invariant.{Inv}
use ips_with_ai.Flow.Manager.Calls.{
  Call, observe, discard, cleanup, apply_call, apply_calls, apply_calls-Inv,
}
use ips_with_ai.Flow.Manager.Lookup.{find-discard_source_flows, EndedBy, extract_completed-some}
use ips_with_ai.Flow.Manager.Observe.{after_packet, get_flow-observe_packet}
use ips_with_ai.Flow.Manager.Window.{Counts, update_all, update_all-Counts}
use ips_with_ai.Flow.Manager.Cleanup.{cleanup_expired-survivor}
use ips_with_ai.Flow.Manager.Rounds.{IsLayout, cleanup_all, cleanup_all-removes}

abbrev pub client_key : FiveTuple
client_key = record { src_ip = 7; dst_ip = 9; src_port = 4000; dst_port = 22; protocol = 6 }

abbrev other_key : FiveTuple
other_key = record { src_ip = 8; dst_ip = 9; src_port = 5000; dst_port = 80; protocol = 6 }

abbrev pub syn_packet : ParsedPacket
syn_packet = record {
  tuple = client_key;
  total_len = 60;
  payload_len = 20;
  has_ports = true;
  tcp_flags = 2;
}

abbrev reset_packet : ParsedPacket
reset_packet = record {
  tuple = client_key;
  total_len = 40;
  payload_len = 0;
  has_ports = true;
  tcp_flags = 4;
}

abbrev one_packet : List Call
one_packet = observe syn_packet inbound 1000 ∷ []

abbrev opened : FlowManager ℕ
opened = apply_calls whole (new_manager 10 5 5) one_packet

opened-Inv : Inv opened
opened-Inv = apply_calls-Inv whole 10 5 5 one_packet

abbrev was_reset : FlowManager ℕ
was_reset =
    apply_calls whole (new_manager 10 5 5)
      (observe syn_packet inbound 1000 ∷ observe reset_packet inbound 2000 ∷ [])

abbrev opened_flow : Flow ℕ
opened_flow = touch_flow whole (new_flow whole client_key inbound 1000) true syn_packet 1000

abbrev reset_flow : Flow ℕ
reset_flow = touch_flow whole opened_flow true reset_packet 2000

find_opened : find tuple_discrete client_key opened.flows ≡ some opened_flow
unfolding apply_calls apply_call observe_packet update_flow update_at index_flow observe_source
    update_source_stats new_manager find put tuple_discrete new_flow touch_flow
find_opened = refl

extract_reset :
    (extract_completed was_reset client_key).1
    ≡ some (record { flow = reset_flow; reason = tcp_reset })
unfolding apply_calls apply_call observe_packet update_flow update_at index_flow observe_source
    update_source_stats new_manager find put tuple_discrete new_flow touch_flow extract_completed
    extract_at end_reason touch_direction count_packet no_packets ℕ_discrete
extract_reset = refl

extract_opened : (extract_completed opened client_key).1 ≡ none
unfolding apply_calls apply_call observe_packet update_flow update_at index_flow observe_source
    update_source_stats new_manager find put tuple_discrete new_flow touch_flow extract_completed
    extract_at end_reason touch_direction count_packet no_packets ℕ_discrete
extract_opened = refl

was_reset-Inv : Inv was_reset
was_reset-Inv =
    apply_calls-Inv whole 10 5 5
      (observe syn_packet inbound 1000 ∷ observe reset_packet inbound 2000 ∷ [])

-- One bucket for everything.
abbrev one_bucket : Layout
one_bucket = record {
  flow_buckets = 1;
  flow_bucket = λ k. 0;
  source_buckets = 1;
  source_bucket = λ k. 0;
}

one_bucket-IsLayout : IsLayout one_bucket
one_bucket-IsLayout = record { some_bucket = omega arith; in_range = λ k. omega arith }

one_bucket_quota : 1 ≤ 1 * quota 1
unfolding quota
one_bucket_quota = omega arith

other_tuple : other_key ≢ client_key
other_tuple e = ground (arith, ap (λ t. t.src_ip) e)

other_reversed : reversed other_key ≢ client_key
unfolding reversed
other_reversed e = ground (arith, ap (λ t. t.src_ip) e)

no_source : find ℕ_discrete 7 (new_manager {F = ℕ} 10 5 5).source_stats ≡ none
unfolding new_manager find
no_source = refl

room : length (new_manager {F = ℕ} 10 5 5).source_stats < (new_manager {F = ℕ} 10 5 5).max_sources
unfolding new_manager
room = omega arith

opened_recent : 2000 < opened_flow.last_seen + 60 * 1000000000
unfolding touch_flow new_flow
opened_recent = omega arith

opened_idle : opened_flow.last_seen + 60 * 1000000000 ≤ 99000000000
unfolding touch_flow new_flow
opened_idle = omega arith

add_all-extremes_example :
    let r = add_all whole (empty whole) (3 ∷ 1 ∷ 2 ∷ []) in
    All (λ y. ltb y r.min ≡ false) (3 ∷ 1 ∷ 2 ∷ [])
    × Member whole r.min (3 ∷ 1 ∷ 2 ∷ [])
    × All (λ y. ltb r.max y ≡ false) (3 ∷ 1 ∷ 2 ∷ [])
    × Member whole r.max (3 ∷ 1 ∷ 2 ∷ [])
add_all-extremes_example = add_all-extremes whole whole-LawfulOrder 3 (1 ∷ 2 ∷ []) (omega arith)

apply_calls-Inv_example : Inv (
    apply_calls whole
      (new_manager 10 5 5)
      (observe syn_packet inbound 1000 ∷ cleanup one_bucket 2000 ∷ discard 7 ∷ []))
apply_calls-Inv_example =
    apply_calls-Inv whole 10 5 5
      (observe syn_packet inbound 1000 ∷ cleanup one_bucket 2000 ∷ discard 7 ∷ [])

find-discard_source_flows_example :
    find tuple_discrete client_key (discard_source_flows opened 7).flows ≡ none
find-discard_source_flows_example = find-discard_source_flows opened 7 client_key opened-Inv

extract_completed-some_example :
    (get_flow was_reset client_key ≡ some reset_flow)
    × EndedBy reset_flow tcp_reset
    × (get_flow (extract_completed was_reset client_key).0 client_key ≡ none)
    × (get_flow (extract_completed was_reset client_key).0 (reversed client_key) ≡ none)
extract_completed-some_example =
    extract_completed-some was_reset client_key (record { flow = reset_flow; reason = tcp_reset })
      was_reset-Inv extract_reset

get_flow-observe_packet_example :
    get_flow (observe_packet whole opened reset_packet inbound 2000).0 client_key
    ≡ after_packet whole opened reset_packet 2000 inbound (get_flow opened client_key)
get_flow-observe_packet_example =
    get_flow-observe_packet whole opened reset_packet inbound 2000 opened-Inv (cc)

update_all-Counts_example :
    (s : SourceStats) × (find ℕ_discrete 7
        (update_all
          (new_manager {F = ℕ} 10 5 5)
          ((syn_packet, 0) ∷ (reset_packet, 2000) ∷ [])).source_stats
      ≡ some s)
    × Counts 7 0 ((syn_packet, 0) ∷ (reset_packet, 2000) ∷ []) s
unfolding new_manager
update_all-Counts_example =
    update_all-Counts (new_manager 10 5 5) syn_packet 0 ((reset_packet, 2000) ∷ []) no_source room
      (omega arith, tt)

cleanup_expired-survivor_example :
    find tuple_discrete client_key (cleanup_expired one_bucket opened 2000).0.flows
    ≡ some opened_flow
cleanup_expired-survivor_example =
    cleanup_expired-survivor one_bucket opened 2000 client_key opened_flow opened-Inv find_opened
      (opened_recent)

cleanup_all-removes_example :
    find tuple_discrete client_key (cleanup_all one_bucket opened (99000000000 ∷ [])).flows ≡ none
cleanup_all-removes_example =
    cleanup_all-removes one_bucket (99000000000 ∷ []) opened client_key opened_flow
      one_bucket-IsLayout opened-Inv find_opened (opened_idle, tt) one_bucket_quota
