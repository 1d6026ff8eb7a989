-- ===== src/Flow/Manager/Window.antt =====
-- src/flow/flow_manager.cpp, `update_source_stats`: the statistics of a source over one window.
use ips_with_ai.Prelude.{
  ℕ, ◌+◌, ◌<◌, ◌≡◌, refl, Bool, true, false, ◌&&◌, ◌||◌, none, some, List, [], ◌∷◌, arith, ◌==◌,
  if◌then◌else◌, length, ℕ_discrete, Option-cases, inl, inr, u32, All,
}
use ips_with_ai.Prelude.Map
use ips_with_ai.Prelude.Set
use ips_with_ai.Prelude.Map.{find, put}
use ips_with_ai.Prelude.Set.{contains, insert}
use ips_with_ai.Common.Clock.{TimePoint, elapsed, seconds}
use ips_with_ai.Flow.Types.{SourceStats, ParsedPacket, has_flag, th_syn}
use ips_with_ai.Flow.Touch.{count_packet}
use ips_with_ai.Flow.Manager.{FlowManager, update_source_stats}

abbrev pub Arrivals : Type 0
Arrivals = List (ParsedPacket × TimePoint)

-- The packets from `ip` whose SYN flag is set, and whether one went to `port`.
unfoldable pub count_syn : ℕ → Arrivals → ℕ
count_syn ip [] = 0
count_syn ip ((p, t) ∷ ps) =
    (if p.tuple.src_ip == ip && has_flag p.tcp_flags th_syn then 1 else 0) + count_syn ip ps

unfoldable pub reached_port : ℕ → ℕ → Arrivals → Bool
reached_port ip port [] = false
reached_port ip port ((p, t) ∷ ps) =
    p.tuple.src_ip == ip && p.tuple.dst_port == port || reached_port ip port ps

-- The statistics are those of the packets of the window that began at `start`.
pub record Counts (ip : ℕ) (start : TimePoint) (ps : Arrivals) (s : SourceStats) : Type 0 where
  pub window : s.window_start ≡ start
  pub syns : s.syn_count ≡ u32 (count_syn ip ps)
  pub ports : (port : ℕ) → contains ℕ_discrete port s.recent_dst_ports ≡ reached_port ip port ps

-- `s'` is `s` after the packets of `ip` among `ps`, all of them within the window.
record Continues (ip : ℕ) (s : SourceStats) (ps : Arrivals) (s' : SourceStats) : Type 0 where
  window : s'.window_start ≡ s.window_start
  syns : s.syn_count < 4294967296 → s'.syn_count ≡ u32 (s.syn_count + count_syn ip ps)
  ports :
      (port : ℕ)
      → contains ℕ_discrete port s'.recent_dst_ports
        ≡ (contains ℕ_discrete port s.recent_dst_ports || reached_port ip port ps)

Continues-next :
    (ip : ℕ) (s s' : SourceStats) (p : ParsedPacket) (t : TimePoint) (ps : Arrivals)
    → Continues ip (if p.tuple.src_ip == ip then count_packet false s p t else s) ps s'
    → Continues ip s ((p, t) ∷ ps) s'
unfolding count_syn reached_port count_packet
Continues-next ip s s' p t ps c = record {
  window = ground (arith, c.window);
  syns = λ h. ground (arith, c.syns);
  ports = λ port. ground (
    arith,
    c.ports port,
    Set.contains-insert ℕ_discrete p.tuple.dst_port port s.recent_dst_ports,
  );
}

abbrev opened : TimePoint → SourceStats
opened t = record { recent_dst_ports = []; syn_count = 0; window_start = t }

Continues-Counts :
    (s' : SourceStats) (p : ParsedPacket) (t : TimePoint) (ps : Arrivals)
    → Continues p.tuple.src_ip (count_packet true (opened t) p t) ps s'
    → Counts p.tuple.src_ip t ((p, t) ∷ ps) s'
unfolding count_packet count_syn reached_port
Continues-Counts s' p t ps c = record {
  window = c.window;
  syns = ground (arith, c.syns);
  ports = λ port. ground (
    arith,
    c.ports port,
    Set.contains-insert ℕ_discrete p.tuple.dst_port port [],
    Set.contains_nil ℕ_discrete port,
  );
}

module _ {F : Type 0} where
  unfoldable pub update_all : FlowManager F → Arrivals → FlowManager F
  update_all m [] = m
  update_all m ((p, t) ∷ ps) = update_all (update_source_stats m p t).0 ps

  -- One arrival, seen from the entry of `ip`.
  find-update_source_stats :
      (m : FlowManager F) (p : ParsedPacket) (t : TimePoint) (ip : ℕ) (s : SourceStats)
      → find ℕ_discrete ip m.source_stats ≡ some s
      → find ℕ_discrete ip (update_source_stats m p t).0.source_stats
        ≡ some (
            if p.tuple.src_ip == ip
            then count_packet (elapsed t s.window_start m.window_seconds) s p t
            else s)
  unfolding update_source_stats
  find-update_source_stats m p t ip s h =
      elim (Option-cases (find ℕ_discrete p.tuple.src_ip m.source_stats)) [
        | inl new ↦ ground (
          arith,
          Map.find-put ℕ_discrete p.tuple.src_ip ip
              (count_packet true (record { recent_dst_ports = []; syn_count = 0; window_start = t })
                p t)
              m.source_stats,
        )
        | inr (old, held) ↦ ground (
          arith,
          Map.find-put ℕ_discrete p.tuple.src_ip ip
              (count_packet (elapsed t old.window_start m.window_seconds) old p t) m.source_stats,
        )
      ]

  window-update_source_stats :
      (m : FlowManager F) (p : ParsedPacket) (t : TimePoint)
      → (update_source_stats m p t).0.window_seconds ≡ m.window_seconds
  unfolding update_source_stats
  window-update_source_stats m p t = ground arith

  -- The entry of `ip` counts on as long as its window lasts.
  update_all-Continues :
      (m : FlowManager F) (ip : ℕ) (s : SourceStats) (deadline : ℕ) (ps : Arrivals)
      → find ℕ_discrete ip m.source_stats ≡ some s
      → deadline ≡ s.window_start + seconds m.window_seconds
      → All (λ a. a.1 < deadline) ps
      → (s' : SourceStats) × (find ℕ_discrete ip (update_all m ps).source_stats ≡ some s')
        × Continues ip s ps s'
  unfolding update_all
  update_all-Continues m ip s deadline [] h e w = (
    s,
    h,
    unfold count_syn reached_port in
        record { window = refl; syns = λ b. omega arith; ports = λ port. ground arith },
  )
  update_all-Continues m ip s deadline ((p, t) ∷ ps) h e w =
      let next = if p.tuple.src_ip == ip then count_packet false s p t else s in
      let (s', found, c) =
        update_all-Continues (update_source_stats m p t).0 ip next deadline ps
          (ground (arith, find-update_source_stats m p t ip s h))
          (unfold count_packet in ground (arith, window-update_source_stats m p t)) w.1 in
      (s', found, Continues-next ip s s' p t ps c)

  find-update_source_stats_new :
      (m : FlowManager F) (p : ParsedPacket) (t : TimePoint)
      → find ℕ_discrete p.tuple.src_ip m.source_stats ≡ none
      → length m.source_stats < m.max_sources
      → find ℕ_discrete p.tuple.src_ip (update_source_stats m p t).0.source_stats
        ≡ some (count_packet true (opened t) p t)
  unfolding update_source_stats
  find-update_source_stats_new m p t new room = ground (
    arith,
    Map.find-put_self ℕ_discrete p.tuple.src_ip (count_packet true (opened t) p t) m.source_stats,
  )

  -- The first packet of a source that has no entry yet, where there is room for one, starts a window.
  -- After it and any further packets, of this source and of others, that arrive before the window is
  -- over, the source's entry holds the number of its SYN packets, modulo 2^32, and exactly the ports
  -- that it reached.
  pub update_all-Counts :
      (m : FlowManager F) (p : ParsedPacket) (t : TimePoint) (ps : Arrivals)
      → find ℕ_discrete p.tuple.src_ip m.source_stats ≡ none
      → length m.source_stats < m.max_sources
      → All (λ a. a.1 < t + seconds m.window_seconds) ps
      → (s : SourceStats) × (find ℕ_discrete p.tuple.src_ip
            (update_all m ((p, t) ∷ ps)).source_stats
          ≡ some s)
        × Counts p.tuple.src_ip t ((p, t) ∷ ps) s
  unfolding update_all
  update_all-Counts m p t ps new room w =
      let (s, found, c) =
        update_all-Continues (update_source_stats m p t).0 p.tuple.src_ip
          (count_packet true (opened t) p t) (t + seconds m.window_seconds) ps
          (find-update_source_stats_new m p t new room)
          (unfold count_packet in ground (arith, window-update_source_stats m p t)) w in
      (s, found, Continues-Counts s p t ps c)
