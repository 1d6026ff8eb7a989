-- ===== src/Response/BlockList/Pending.antt =====
-- src/response/block_list.cpp: the map and the heap together, and clean-ups in a row.
use ips_with_ai.Prelude.{
  ℕ, zero, suc, ◌+◌, ◌*◌, ◌≤◌, ◌<◌, ◌≡◌, refl, Bool, true, false, ◌&&◌, ◌||◌, some, List, [], ◌∷◌,
  arith, ltb, leb, ◌==◌, ℕ_discrete, Bool-cases, inl, inr, ◌⊎◌, length, All, All-map,
}
use ips_with_ai.Prelude.Map
use ips_with_ai.Prelude.Map.{find, put, erase, IsUnique}
use ips_with_ai.Common.Clock.{TimePoint, seconds}
use ips_with_ai.Response.BlockList.{
  BlockList, HeapEntry, empty, push, block, is_current, cleanup_from, cleanup_expired,
  max_expiry_cleanups_per_tick,
}

unfoldable pub has_entry : ℕ → TimePoint → List HeapEntry → Bool
has_entry ip expiry [] = false
has_entry ip expiry (e ∷ heap) = e.ip == ip && e.expiry == expiry || has_entry ip expiry heap

abbrev pub Sorted : List HeapEntry → Type 0
Sorted [] = Unit
Sorted (e ∷ heap) = All (λ x. e.expiry ≤ x.expiry) heap × Sorted heap

-- Each address once, the heap in order, and an entry in the heap for each expiry in the map.
pub record Inv (m : List (ℕ × TimePoint)) (heap : List HeapEntry) : Type 0 where
  pub unique : IsUnique ℕ_discrete m
  pub sorted : Sorted heap
  pub pending :
      (ip : ℕ) (expiry : TimePoint)
      → find ℕ_discrete ip m ≡ some expiry
      → has_entry ip expiry heap ≡ true

has_entry-push :
    (e : HeapEntry) (heap : List HeapEntry) (ip : ℕ) (x : TimePoint)
    → has_entry ip x (push e heap) ≡ (e.ip == ip && e.expiry == x || has_entry ip x heap)
unfolding has_entry push
has_entry-push e [] ip x = refl
has_entry-push e (top ∷ heap) ip x = ground (arith, has_entry-push e heap ip x)

All-push :
    (P : HeapEntry → Type 0) (e : HeapEntry) (heap : List HeapEntry)
    → P e
    → All P heap
    → All P (push e heap)
unfolding push
All-push P e [] p h = (p, tt)
All-push P e (top ∷ heap) p h = elim (Bool-cases (ltb top.expiry e.expiry)) [
  | inl later ↦ rw (later, push) (h.0, All-push P e heap p h.1)
  | inr sooner ↦ rw (sooner, push) (p, h)
]

push-Sorted : (e : HeapEntry) (heap : List HeapEntry) → Sorted heap → Sorted (push e heap)
unfolding push
push-Sorted e [] s = (tt, tt)
push-Sorted e (top ∷ heap) s = elim (Bool-cases (ltb top.expiry e.expiry)) [
  | inl later ↦
      rw (later, push)
        (All-push (λ x. top.expiry ≤ x.expiry) e heap (ground arith) s.0, push-Sorted e heap s.1)
  | inr sooner ↦
      let first : e.expiry ≤ top.expiry = ground arith in
      rw (sooner, push) ((first, All-map heap (λ x l. omega arith) s.0), s)
]

abbrev pub IsValid : BlockList → Type 0
IsValid b = Inv b.block_map b.expiry_heap

pub empty-IsValid : IsValid empty
unfolding empty find
empty-IsValid = record { unique = tt; sorted = tt; pending = λ ip x h. cc }

pub block-IsValid :
    (b : BlockList) (ip ttl : ℕ) (now : TimePoint) → IsValid b → IsValid (block b ip ttl now)
unfolding block
block-IsValid b ip ttl now v = record {
  unique = Map.put-IsUnique ℕ_discrete ip (now + seconds ttl) b.block_map v.unique;
  sorted = push-Sorted _ b.expiry_heap v.sorted;
  pending = λ j x h. ground (
    arith,
    Map.find-put ℕ_discrete ip j (now + seconds ttl) b.block_map,
    has_entry-push (record { expiry = now + seconds ttl; ip = ip }) b.expiry_heap j x,
    v.pending j x,
  );
}

-- Popping the top, with its address if the entry is current.
pop_current-Inv :
    (e : HeapEntry) (heap : List HeapEntry) (m : List (ℕ × TimePoint))
    → Inv m (e ∷ heap)
    → is_current e m ≡ true
    → Inv (erase ℕ_discrete e.ip m) heap
unfolding is_current has_entry
pop_current-Inv e heap m v c = record {
  unique = Map.erase-IsUnique ℕ_discrete e.ip m v.unique;
  sorted = v.sorted.1;
  pending = λ ip x h. ground (arith, Map.find-erase ℕ_discrete e.ip ip m v.unique, v.pending ip x);
}

pop_stale-Inv :
    (e : HeapEntry) (heap : List HeapEntry) (m : List (ℕ × TimePoint))
    → Inv m (e ∷ heap)
    → is_current e m ≡ false
    → Inv m heap
unfolding is_current has_entry
pop_stale-Inv e heap m v c = record {
  unique = v.unique;
  sorted = v.sorted.1;
  pending = λ ip x h. ground (arith, v.pending ip x h);
}

-- What the loop leaves: the invariant, and a heap that has nothing due, or is `n` entries shorter.
record Drained (n : ℕ) (heap : List HeapEntry) (now : TimePoint) (b : BlockList) : Type 0 where
  valid : IsValid b
  progress : All (λ e. now < e.expiry) b.expiry_heap ⊎ (length b.expiry_heap + n ≡ length heap)

cleanup_from-Drained :
    (n : ℕ) (heap : List HeapEntry) (m : List (ℕ × TimePoint)) (now : TimePoint) (r : ℕ)
    → Inv m heap
    → Drained n heap now (cleanup_from n heap m now r).0
unfolding cleanup_from
cleanup_from-Drained zero heap m now r v = record { valid = v; progress = inr (omega arith) }
cleanup_from-Drained (suc n) [] m now r v = record { valid = v; progress = inl tt }
cleanup_from-Drained (suc n) (e ∷ heap) m now r v = elim (Bool-cases (leb e.expiry now)) [
  | inr later ↦
      let first : now < e.expiry = ground arith in
      rw (later, cleanup_from)
        (record { valid = v; progress = inl (first, All-map heap (λ x l. omega arith) v.sorted.0) })
  | inl due ↦ elim (Bool-cases (is_current e m)) [
    | inl current ↦
        rw (due, current, cleanup_from)
          (longer (
            cleanup_from-Drained n heap (erase ℕ_discrete e.ip m) now (suc r)
              (pop_current-Inv e heap m v current)))
    | inr stale ↦
        rw (due, stale, cleanup_from)
          (longer (cleanup_from-Drained n heap m now r (pop_stale-Inv e heap m v stale)))
  ]
]
  where
    longer : {b : BlockList} → Drained n heap now b → Drained (suc n) (e ∷ heap) now b
    longer d = record {
      valid = d.valid;
      progress = elim d.progress [ inl a ↦ inl a | inr p ↦ inr (omega arith) ];
    }

-- Blocking and cleaning up keep the map and the heap together.
pub cleanup_expired-IsValid :
    (b : BlockList) (now : TimePoint) → IsValid b → IsValid (cleanup_expired b now)
unfolding cleanup_expired
cleanup_expired-IsValid b now v =
    (cleanup_from-Drained max_expiry_cleanups_per_tick b.expiry_heap b.block_map now 0 v).valid

cleanup_expired-progress :
    (b : BlockList) (now : TimePoint)
    → IsValid b
    → All (λ e. now < e.expiry) (cleanup_expired b now).expiry_heap
      ⊎ (length (cleanup_expired b now).expiry_heap + 16384 ≡ length b.expiry_heap)
unfolding cleanup_expired
cleanup_expired-progress b now v =
    (cleanup_from-Drained max_expiry_cleanups_per_tick b.expiry_heap b.block_map now 0 v).progress

-- Ticks in a row.
unfoldable pub cleanup_all : BlockList → List TimePoint → BlockList
cleanup_all b [] = b
cleanup_all b (now ∷ nows) = cleanup_all (cleanup_expired b now) nows

cleanup_from-late :
    (t0 n : ℕ) (heap : List HeapEntry) (m : List (ℕ × TimePoint)) (now : TimePoint) (r : ℕ)
    → All (λ e. t0 < e.expiry) heap
    → All (λ e. t0 < e.expiry) (cleanup_from n heap m now r).0.expiry_heap
unfolding cleanup_from
cleanup_from-late t0 zero heap m now r a = a
cleanup_from-late t0 (suc n) [] m now r a = tt
cleanup_from-late t0 (suc n) (e ∷ heap) m now r a = elim (Bool-cases (leb e.expiry now)) [
  | inl due ↦ rw (due, cleanup_from) (cleanup_from-late t0 n heap _ now _ a.1)
  | inr later ↦ rw (later, cleanup_from) a
]

late-cleanup_all :
    (t0 : ℕ) (b : BlockList) (nows : List TimePoint)
    → All (λ e. t0 < e.expiry) b.expiry_heap
    → All (λ e. t0 < e.expiry) (cleanup_all b nows).expiry_heap
unfolding cleanup_all cleanup_expired
late-cleanup_all t0 b [] a = a
late-cleanup_all t0 b (now ∷ nows) a =
    late-cleanup_all t0 (cleanup_expired b now) nows
      (cleanup_from-late t0 max_expiry_cleanups_per_tick b.expiry_heap b.block_map now 0 a)

cleanup_all-IsValid :
    (b : BlockList) (nows : List TimePoint) → IsValid b → IsValid (cleanup_all b nows)
unfolding cleanup_all
cleanup_all-IsValid b [] v = v
cleanup_all-IsValid b (now ∷ nows) v =
    cleanup_all-IsValid (cleanup_expired b now) nows (cleanup_expired-IsValid b now v)

nothing_late : (t0 : ℕ) (heap : List HeapEntry) → length heap ≤ 0 → All (λ e. t0 < e.expiry) heap
nothing_late t0 [] h = tt
nothing_late t0 (e ∷ heap) h = absurd (omega arith)

cleanup_all-late :
    (t0 : ℕ) (b : BlockList) (nows : List TimePoint)
    → IsValid b
    → All (λ now. t0 ≤ now) nows
    → length b.expiry_heap ≤ length nows * 16384
    → All (λ e. t0 < e.expiry) (cleanup_all b nows).expiry_heap
unfolding cleanup_all
cleanup_all-late t0 b [] v a l = nothing_late t0 b.expiry_heap (omega arith)
cleanup_all-late t0 b (now ∷ nows) v a l = elim (cleanup_expired-progress b now v) [
  | inl done ↦
      late-cleanup_all t0 (cleanup_expired b now) nows
        (All-map (cleanup_expired b now).expiry_heap (λ e h. omega arith) done)
  | inr shorter ↦
      cleanup_all-late t0 (cleanup_expired b now) nows (cleanup_expired-IsValid b now v) a.1
        (omega arith)
]

late-find :
    (t0 : ℕ) (heap : List HeapEntry) (ip : ℕ) (x : TimePoint)
    → All (λ e. t0 < e.expiry) heap
    → has_entry ip x heap ≡ true
    → t0 < x
unfolding has_entry
late-find t0 [] ip x a h = absurd (ground arith)
late-find t0 (e ∷ heap) ip x a h = ground (arith, late-find t0 heap ip x a.1)

-- Enough ticks release whatever has run out: where the map and the heap belong together, after ticks
-- in a row at or after `t0`, one for every 16384 heap entries, every address that is left in the map
-- is blocked beyond `t0`.
pub cleanup_all-releases :
    (t0 : ℕ) (b : BlockList) (nows : List TimePoint) (ip : ℕ) (expiry : TimePoint)
    → IsValid b
    → All (λ now. t0 ≤ now) nows
    → length b.expiry_heap ≤ length nows * 16384
    → find ℕ_discrete ip (cleanup_all b nows).block_map ≡ some expiry
    → t0 < expiry
cleanup_all-releases t0 b nows ip expiry v a l h =
    late-find t0 (cleanup_all b nows).expiry_heap ip expiry (cleanup_all-late t0 b nows v a l)
      ((cleanup_all-IsValid b nows v).pending ip expiry h)
