-- ===== src/Response/BlockList.antt =====
-- src/response/block_list.h and block_list.cpp, `BlockList`: a map from address to expiry, and a heap
-- of expiries that the clean-up works off. An extension leaves the older heap entry behind, and the
-- clean-up drops it when its expiry is not the map's.
pub mod Blocked
pub mod Pending
pub mod History
use ips_with_ai.Prelude.{
  ℕ, zero, suc, ◌+◌, ◌≡◌, Bool, true, false, Option, none, some, List, [], ◌∷◌, ltb, leb, ◌==◌,
  if◌then◌else◌, ℕ_discrete,
}
use ips_with_ai.Prelude.Map.{find, put, erase}
use ips_with_ai.Common.Clock.{TimePoint, seconds}

abbrev pub max_expiry_cleanups_per_tick : ℕ
max_expiry_cleanups_per_tick = 16384

pub record HeapEntry : Type 0 where
  pub expiry : TimePoint
  pub ip : ℕ

pub record BlockList : Type 0 where
  pub block_map : List (ℕ × TimePoint)
  pub expiry_heap : List HeapEntry

-- `std::priority_queue` with `std::greater`: the top is an entry of least expiry. The heap is the list
-- in the order in which it is popped; of equal expiries, which the library leaves open, the one
-- pushed last comes first.
unfoldable pub push : HeapEntry → List HeapEntry → List HeapEntry
push e [] = e ∷ []
push e (top ∷ heap) = if ltb top.expiry e.expiry then top ∷ push e heap else e ∷ top ∷ heap

unfoldable pub empty : BlockList
empty = record { block_map = []; expiry_heap = [] }

unfoldable pub block : BlockList → ℕ → ℕ → TimePoint → BlockList
block b ip ttl_seconds now = record {
  block_map = put ℕ_discrete ip expiry b.block_map;
  expiry_heap = push (record { expiry = expiry; ip = ip }) b.expiry_heap;
}
  where
    expiry : TimePoint
    expiry = now + seconds ttl_seconds

unfoldable pub is_blocked : BlockList → ℕ → TimePoint → Bool
is_blocked b ip now = elim (find ℕ_discrete ip b.block_map) [
  | none ↦ false
  | some expiry ↦ ltb now expiry
]

-- Whether a popped entry is the one that the map goes by.
unfoldable pub is_current : HeapEntry → List (ℕ × TimePoint) → Bool
is_current e block_map = elim (find ℕ_discrete e.ip block_map) [
  | none ↦ false
  | some expiry ↦ expiry == e.expiry
]

-- The loop of `cleanup_expired`, for the rounds left, with the number of addresses released so far.
unfoldable pub cleanup_from :
    ℕ → List HeapEntry → List (ℕ × TimePoint) → TimePoint → ℕ → BlockList × ℕ
unfolding is_current
cleanup_from zero heap block_map now released =
    (record { block_map = block_map; expiry_heap = heap }, released)
cleanup_from (suc n) [] block_map now released =
    (record { block_map = block_map; expiry_heap = [] }, released)
cleanup_from (suc n) (e ∷ heap) block_map now released =
    let current = is_current e block_map in
    let rest =
      cleanup_from n heap (if current then erase ℕ_discrete e.ip block_map else block_map) now
        (if current then suc released else released) in
    if leb e.expiry now
    then rest
    else (record { block_map = block_map; expiry_heap = e ∷ heap }, released)

unfoldable pub cleanup_expired : BlockList → TimePoint → BlockList
unfolding cleanup_from
cleanup_expired b now =
    (cleanup_from max_expiry_cleanups_per_tick b.expiry_heap b.block_map now 0).0
