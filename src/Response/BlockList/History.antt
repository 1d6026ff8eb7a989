-- ===== src/Response/BlockList/History.antt =====
-- src/response/block_list.cpp against a specification by the history of registrations.
use ips_with_ai.Prelude.{
  ℕ, ◌+◌, ◌≤◌, ◌≡◌, refl, ◌∙◌, Bool, false, Option, none, some, List, [], ◌∷◌, arith, ltb, ◌==◌,
  if◌then◌else◌, All,
}
use ips_with_ai.Prelude.Map.{find}
use ips_with_ai.Common.Clock.{TimePoint, seconds}
use ips_with_ai.Response.BlockList.{BlockList, empty, block, is_blocked, cleanup_expired}
use ips_with_ai.Response.BlockList.Blocked.{is_blocked-block, is_blocked-cleanup_expired}
use ips_with_ai.Response.BlockList.Pending.{
  IsValid, empty-IsValid, block-IsValid, cleanup_expired-IsValid,
}

pub data Event : Type 0 where
  registers : (ip ttl_seconds : ℕ) → TimePoint → Event
  cleans : TimePoint → Event

unfoldable pub after_event : BlockList → Event → BlockList
after_event b (registers ip ttl now) = block b ip ttl now
after_event b (cleans now) = cleanup_expired b now

unfoldable pub after_events : BlockList → List Event → BlockList
after_events b [] = b
after_events b (e ∷ es) = after_events (after_event b e) es

-- The specification: the expiry of the last registration, `old` if there is none.
unfoldable pub last_expiry : ℕ → Option TimePoint → List Event → Option TimePoint
last_expiry ip old [] = old
last_expiry ip old (registers other ttl now ∷ es) =
    last_expiry ip (if other == ip then some (now + seconds ttl) else old) es
last_expiry ip old (cleans now ∷ es) = last_expiry ip old es

abbrev pub lasts : Option TimePoint → TimePoint → Bool
lasts none t = false
lasts (some expiry) t = ltb t expiry

abbrev pub CleansBefore : TimePoint → Event → Type 0
CleansBefore t (registers ip ttl now) = Unit
CleansBefore t (cleans now) = now ≤ t

after_events-lasts :
    (es : List Event) (b : BlockList) (ip : ℕ) (old : Option TimePoint) (t : TimePoint)
    → IsValid b
    → All (CleansBefore t) es
    → is_blocked b ip t ≡ lasts old t
    → is_blocked (after_events b es) ip t ≡ lasts (last_expiry ip old es) t
unfolding after_events after_event last_expiry
after_events-lasts [] b ip old t v c h = h
after_events-lasts (registers other ttl now ∷ es) b ip old t v c h =
    after_events-lasts es (block b other ttl now) ip
      (if other == ip then some (now + seconds ttl) else old) t (block-IsValid b other ttl now v)
      c.1 (ground (arith, is_blocked-block b other ttl now ip t))
after_events-lasts (cleans now ∷ es) b ip old t v c h =
    after_events-lasts es (cleanup_expired b now) ip old t (cleanup_expired-IsValid b now v) c.1
      (is_blocked-cleanup_expired b now ip t v.unique c.0 ∙ h)

-- After any registrations and clean-ups, an address is blocked at `t` exactly when it was registered
-- and the expiry of its last registration lies after `t`, for `t` no earlier than any of the
-- clean-ups.
pub after_events-last_expiry :
    (es : List Event) (ip : ℕ) (t : TimePoint)
    → All (CleansBefore t) es
    → is_blocked (after_events empty es) ip t ≡ lasts (last_expiry ip none es) t
unfolding is_blocked empty find
after_events-last_expiry es ip t c = after_events-lasts es empty ip none t empty-IsValid c refl
