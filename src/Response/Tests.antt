-- ===== src/Response/Tests.antt =====
-- Runs of src/response/block_list.cpp and whitelist.cpp on concrete addresses.
use ips_with_ai.Prelude.{
  ℕ, ◌*◌, ◌<◌, ◌≤◌, ◌≡◌, refl, Option, none, some, [], ◌∷◌, length, arith, ℕ_discrete,
}
use ips_with_ai.Prelude.Map.{find, put, erase}
use ips_with_ai.Response.BlockList.{BlockList, empty, block, is_blocked, cleanup_expired, push}
use ips_with_ai.Response.BlockList.Pending.{
  IsValid, empty-IsValid, block-IsValid, cleanup_all, cleanup_all-releases,
}
use ips_with_ai.Response.BlockList.History.{
  registers, cleans, after_events, last_expiry, lasts, after_events-last_expiry,
}

abbrev two_blocks : BlockList
two_blocks = block (block empty 7 5 1000) 8 300 2000

two_blocks-IsValid : IsValid two_blocks
two_blocks-IsValid =
    block-IsValid (block empty 7 5 1000) 8 300 2000 (block-IsValid empty 7 5 1000 empty-IsValid)

two_blocks_length : length two_blocks.expiry_heap ≤ 1 * 16384
unfolding block empty push
two_blocks_length = omega arith

left_in : find ℕ_discrete 8 (cleanup_all two_blocks (6000000000 ∷ [])).block_map ≡ some 300000002000
unfolding block empty push cleanup_all cleanup_expired find put erase ℕ_discrete
left_in = refl

-- The texts of addresses, one of them refused.
abbrev address_of : Option ℕ → Option ℕ
address_of o = o

cleanup_all-releases_example : 6000000000 < 300000002000
cleanup_all-releases_example =
    cleanup_all-releases 6000000000 two_blocks (6000000000 ∷ []) 8 300000002000 two_blocks-IsValid
      (omega arith, tt) two_blocks_length left_in

after_events-last_expiry_example :
    is_blocked
      (after_events empty (registers 7 5 0 ∷ cleans 1000 ∷ registers 7 1 1000 ∷ []))
      7
      3000000000
    ≡ lasts
        (last_expiry 7 none (registers 7 5 0 ∷ cleans 1000 ∷ registers 7 1 1000 ∷ []))
        3000000000
after_events-last_expiry_example =
    after_events-last_expiry (registers 7 5 0 ∷ cleans 1000 ∷ registers 7 1 1000 ∷ []) 7 3000000000
      (tt, (omega arith, (tt, tt)))
