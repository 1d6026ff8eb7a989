-- ===== src/Response/BlockList/Blocked.antt =====
-- src/response/block_list.cpp: who is blocked after a block and after a clean-up.
use ips_with_ai.Prelude.{
  ℕ, zero, suc, ◌+◌, ◌≤◌, ◌≡◌, refl, Bool, false, none, some, List, [], ◌∷◌, arith, ltb, ◌==◌,
  if◌then◌else◌, ℕ_discrete, Bool-cases, inl, inr,
}
use ips_with_ai.Prelude.Map
use ips_with_ai.Prelude.Map.{find, put, erase, IsUnique}
use ips_with_ai.Common.Clock.{TimePoint, seconds}
use ips_with_ai.Response.BlockList.{
  BlockList, HeapEntry, block, is_blocked, is_current, cleanup_from, cleanup_expired,
  max_expiry_cleanups_per_tick,
}

-- Blocking an address blocks it until `ttl_seconds` after `now`, whatever stood for it before, and
-- changes nothing for any other address.
pub is_blocked-block :
    (b : BlockList) (ip ttl_seconds : ℕ) (now : TimePoint) (other : ℕ) (t : TimePoint)
    → is_blocked (block b ip ttl_seconds now) other t
      ≡ (if ip == other then ltb t (now + seconds ttl_seconds) else is_blocked b other t)
unfolding is_blocked block
is_blocked-block b ip ttl_seconds now other t =
    ground (arith, Map.find-put ℕ_discrete ip other (now + seconds ttl_seconds) b.block_map)

-- The map alone decides who is blocked.
abbrev blocked_in : List (ℕ × TimePoint) → ℕ → TimePoint → Bool
blocked_in m ip now = elim (find ℕ_discrete ip m) [ none ↦ false | some expiry ↦ ltb now expiry ]

cleanup_from-blocked :
    (n : ℕ) (heap : List HeapEntry) (m : List (ℕ × TimePoint)) (now : TimePoint) (r ip : ℕ)
    (t : TimePoint)
    → IsUnique ℕ_discrete m
    → now ≤ t
    → blocked_in (cleanup_from n heap m now r).0.block_map ip t ≡ blocked_in m ip t
unfolding cleanup_from is_current
cleanup_from-blocked zero heap m now r ip t u h = refl
cleanup_from-blocked (suc n) [] m now r ip t u h = refl
cleanup_from-blocked (suc n) (e ∷ heap) m now r ip t u h = elim (Bool-cases (is_current e m)) [
  | inl current ↦ ground (
    arith,
    current,
    cleanup_from-blocked n heap (erase ℕ_discrete e.ip m) now (suc r) ip t
        (Map.erase-IsUnique ℕ_discrete e.ip m u) h,
    Map.find-erase ℕ_discrete e.ip ip m u,
  )
  | inr stale ↦ ground (arith, stale, cleanup_from-blocked n heap m now r ip t u h)
]

-- A clean-up at `now` changes nothing that `is_blocked` answers from `now` on, in a map that holds
-- each address once.
pub is_blocked-cleanup_expired :
    (b : BlockList) (now : TimePoint) (ip : ℕ) (t : TimePoint)
    → IsUnique ℕ_discrete b.block_map
    → now ≤ t
    → is_blocked (cleanup_expired b now) ip t ≡ is_blocked b ip t
unfolding is_blocked cleanup_expired
is_blocked-cleanup_expired b now ip t u h =
    cleanup_from-blocked max_expiry_cleanups_per_tick b.expiry_heap b.block_map now 0 ip t u h

cleanup_from-unblocked :
    (n : ℕ) (heap : List HeapEntry) (m : List (ℕ × TimePoint)) (now : TimePoint) (r ip : ℕ)
    (t : TimePoint)
    → IsUnique ℕ_discrete m
    → blocked_in m ip t ≡ false
    → blocked_in (cleanup_from n heap m now r).0.block_map ip t ≡ false
unfolding cleanup_from is_current
cleanup_from-unblocked zero heap m now r ip t u h = h
cleanup_from-unblocked (suc n) [] m now r ip t u h = h
cleanup_from-unblocked (suc n) (e ∷ heap) m now r ip t u h = elim (Bool-cases (is_current e m)) [
  | inl current ↦ ground (
    arith,
    current,
    cleanup_from-unblocked n heap (erase ℕ_discrete e.ip m) now (suc r) ip t
        (Map.erase-IsUnique ℕ_discrete e.ip m u),
    Map.find-erase ℕ_discrete e.ip ip m u,
  )
  | inr stale ↦ ground (arith, stale, cleanup_from-unblocked n heap m now r ip t u h)
]

-- A clean-up blocks nobody, at any time.
pub cleanup_expired-unblocked :
    (b : BlockList) (now : TimePoint) (ip : ℕ) (t : TimePoint)
    → IsUnique ℕ_discrete b.block_map
    → is_blocked b ip t ≡ false
    → is_blocked (cleanup_expired b now) ip t ≡ false
unfolding is_blocked cleanup_expired
cleanup_expired-unblocked b now ip t u h =
    cleanup_from-unblocked max_expiry_cleanups_per_tick b.expiry_heap b.block_map now 0 ip t u h
