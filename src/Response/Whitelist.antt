-- ===== src/Response/Whitelist.antt =====
-- src/response/whitelist.h and whitelist.cpp, `Whitelist`: the addresses that always pass.
-- `inet_pton` is the C library's and stands as a parameter: the address of a text in network byte
-- order, or none where the text is no IPv4 address.
use ips_with_ai.Prelude.{
  ℕ, ◌≡◌, Bool, true, false, ◌&&◌, ◌||◌, Option, none, some, List, [], ◌∷◌, arith, ◌==◌, ℕ_discrete,
  is_some, Option-cases, inl, inr,
}
use ips_with_ai.Prelude.Set
use ips_with_ai.Prelude.Set.{contains, insert}

pub record Whitelist : Type 0 where
  pub ips : List ℕ

unfoldable pub is_whitelisted : Whitelist → ℕ → Bool
is_whitelisted w ip = contains ℕ_discrete ip w.ips

module _ {Text : Type 0} (inet_pton : Text → Option ℕ) where
  -- The loop of `load`; `ok` turns false at the first text that is refused, and loading goes on.
  unfoldable pub load_from : List Text → List ℕ → Bool → Whitelist × Bool
  load_from [] ips ok = (record { ips = ips }, ok)
  load_from (s ∷ ss) ips ok = elim (inet_pton s) [
    | some address ↦ load_from ss (insert ℕ_discrete address ips) ok
    | none ↦ load_from ss ips false
  ]

  unfoldable pub load : List Text → Whitelist × Bool
  load ip_strings = load_from ip_strings [] true

  unfoldable pub all_valid : List Text → Bool
  all_valid [] = true
  all_valid (s ∷ ss) = is_some (inet_pton s) && all_valid ss

  unfoldable pub denotes : ℕ → Option ℕ → Bool
  denotes ip none = false
  denotes ip (some address) = address == ip

  unfoldable pub names : ℕ → List Text → Bool
  names ip [] = false
  names ip (s ∷ ss) = denotes ip (inet_pton s) || names ip ss

  load_from-lem :
      (ss : List Text) (ips : List ℕ) (ok : Bool) (ip : ℕ)
      → ((load_from ss ips ok).1 ≡ (ok && all_valid ss))
        × (is_whitelisted (load_from ss ips ok).0 ip ≡ (contains ℕ_discrete ip ips || names ip ss))
  unfolding load_from all_valid names denotes is_whitelisted
  load_from-lem [] ips ok ip = ground arith
  load_from-lem (s ∷ ss) ips ok ip = elim (Option-cases (inet_pton s)) [
    | inl bad ↦ rw (bad, load_from) (ground (arith, load_from-lem ss ips false ip))
    | inr (a, good) ↦
        rw (good, load_from)
          (ground (
            arith,
            load_from-lem ss (insert ℕ_discrete a ips) ok ip,
            Set.contains-insert ℕ_discrete a ip ips,
          ))
  ]

  -- `load` succeeds exactly when every text is an IPv4 address, and afterwards an address is
  -- whitelisted exactly when one of the texts denotes it, the refused texts left aside.
  pub load_lem :
      (ss : List Text) (ip : ℕ)
      → ((load ss).1 ≡ all_valid ss) × (is_whitelisted (load ss).0 ip ≡ names ip ss)
  unfolding load contains
  load_lem ss ip = ground (arith, load_from-lem ss [] true ip)
