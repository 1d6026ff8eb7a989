-- ===== src/Common/FiveTuple.antt =====
-- src/common/five_tuple.h: the key of a flow. Addresses are 32-bit numbers in
-- network byte order, ports are 16-bit numbers in host order.
use ips_with_ai.Prelude.{ℕ, ◌+◌, ◌*◌, ◌≡◌, refl, ◌↔◌, Bool, true, ◌&&◌, arith, ◌==◌, u64, dec_by}

pub record FiveTuple : Type 0 where
  pub src_ip : ℕ
  pub dst_ip : ℕ
  pub src_port : ℕ
  pub dst_port : ℕ
  pub protocol : ℕ

-- `operator==`.
unfoldable pub tuple_eq : FiveTuple → FiveTuple → Bool
tuple_eq t other =
    t.src_ip == other.src_ip
    && t.dst_ip == other.dst_ip
    && t.src_port == other.src_port
    && t.dst_port == other.dst_port
    && t.protocol == other.protocol

unfoldable pub reversed : FiveTuple → FiveTuple
reversed t = record {
  src_ip = t.dst_ip;
  dst_ip = t.src_ip;
  src_port = t.dst_port;
  dst_port = t.src_port;
  protocol = t.protocol;
}

-- `FiveTupleHash`, over a 64-bit `size_t`; `hash32` stands for `std::hash<uint32_t>`.
unfoldable pub tuple_hash : (ℕ → ℕ) → FiveTuple → ℕ
tuple_hash hash32 t = u64 (
    u64 (u64 (u64 (hash32 t.src_ip * 31 + hash32 t.dst_ip) * 31 + t.src_port) * 31 + t.dst_port)
      * 31
    + t.protocol)

-- `operator==` holds exactly of equal tuples.
pub tuple_eq_iff : (t other : FiveTuple) → (tuple_eq t other ≡ true) ↔ (t ≡ other)
unfolding tuple_eq
tuple_eq_iff t other = ground arith

-- The equality that the maps keyed by five-tuples use.
unfoldable pub tuple_discrete : Discrete FiveTuple
unfolding tuple_eq
tuple_discrete t other = dec_by (tuple_eq t other) (tuple_eq_iff t other)

-- Reversing twice gives the tuple back.
pub reversed-reversed : (t : FiveTuple) → reversed (reversed t) ≡ t
unfolding reversed
reversed-reversed t = refl
