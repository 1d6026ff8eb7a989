-- ===== src/Flow/Manager/Index.antt =====
-- src/flow/flow_manager.cpp: the index of flow keys by source address and the flow table.
use ips_with_ai.Prelude.{
  ℕ, ◌≡◌, refl, Bool, false, none, some, List, [], ◌∷◌, arith, if◌then◌else◌, ℕ_discrete, ite, ◌≢◌,
}
use ips_with_ai.Prelude.Map
use ips_with_ai.Prelude.Map.{find, put, erase, IsUnique}
use ips_with_ai.Prelude.Set.{contains, IsNodup}
use ips_with_ai.Common.FiveTuple.{FiveTuple, tuple_discrete}
use ips_with_ai.Flow.Types.{Flow}
use ips_with_ai.Flow.Manager.{keys_of, store_keys, erase_keys}

abbrev pub Index : Type 0
Index = List (ℕ × List FiveTuple)

-- Whether the index lists the key under the source.
abbrev pub listed : ℕ → FiveTuple → Index → Bool
listed s k index = contains tuple_discrete k (keys_of s index)

-- Each source once, with a set of keys that is not empty and has no repetitions.
pub record IsIndex (index : Index) : Type 0 where
  pub unique : IsUnique ℕ_discrete index
  pub nonempty : (s : ℕ) → find ℕ_discrete s index ≢ some []
  pub distinct : (s : ℕ) → IsNodup tuple_discrete (keys_of s index)

pub listed-put :
    (s t : ℕ) (k : FiveTuple) (ks : List FiveTuple) (index : Index)
    → listed t k (put ℕ_discrete s ks index)
      ≡ ite (ℕ_discrete s t) (contains tuple_discrete k ks) (listed t k index)
listed-put s t k ks index = ground (arith, Map.find-put ℕ_discrete s t ks index)

pub listed-erase :
    (s t : ℕ) (k : FiveTuple) (index : Index)
    → IsUnique ℕ_discrete index
    → listed t k (erase ℕ_discrete s index) ≡ ite (ℕ_discrete s t) false (listed t k index)
unfolding contains
listed-erase s t k index u = ground (arith, Map.find-erase ℕ_discrete s t index u)

pub put-IsIndex :
    (s : ℕ) (ks : List FiveTuple) (index : Index)
    → IsNodup tuple_discrete ks
    → ks ≢ []
    → IsIndex index
    → IsIndex (put ℕ_discrete s ks index)
put-IsIndex s ks index n e h = record {
  unique = Map.put-IsUnique ℕ_discrete s ks index h.unique;
  nonempty = λ t. ground (arith, Map.find-put ℕ_discrete s t ks index, h.nonempty t);
  distinct = λ t. ground (arith, Map.find-put ℕ_discrete s t ks index, h.distinct t);
}

pub erase-IsIndex : (s : ℕ) (index : Index) → IsIndex index → IsIndex (erase ℕ_discrete s index)
erase-IsIndex s index h = record {
  unique = Map.erase-IsUnique ℕ_discrete s index h.unique;
  nonempty = λ t. ground (arith, Map.find-erase ℕ_discrete s t index h.unique, h.nonempty t);
  distinct = λ t. ground (arith, Map.find-erase ℕ_discrete s t index h.unique, h.distinct t);
}

pub store_keys-IsIndex :
    (s : ℕ) (ks : List FiveTuple) (index : Index)
    → IsNodup tuple_discrete ks
    → IsIndex index
    → IsIndex (store_keys s ks index)
unfolding store_keys
store_keys-IsIndex s [] index n h = erase-IsIndex s index h
store_keys-IsIndex s (k ∷ ks) index n h = put-IsIndex s (k ∷ ks) index n (λ e. cc) h

pub listed-store_keys :
    (s t : ℕ) (k : FiveTuple) (ks : List FiveTuple) (index : Index)
    → IsUnique ℕ_discrete index
    → listed t k (store_keys s ks index)
      ≡ ite (ℕ_discrete s t) (contains tuple_discrete k ks) (listed t k index)
unfolding store_keys contains
listed-store_keys s t k [] index u = listed-erase s t k index u
listed-store_keys s t k (j ∷ ks) index u = listed-put s t k (j ∷ ks) index

-- Erasing a list of keys, one by one.
module _ {F : Type 0} where
  pub erase_keys-IsUnique :
      (ks : List FiveTuple) (flows : List (FiveTuple × Flow F))
      → IsUnique tuple_discrete flows
      → IsUnique tuple_discrete (erase_keys ks flows)
  unfolding erase_keys
  erase_keys-IsUnique [] flows u = u
  erase_keys-IsUnique (k ∷ ks) flows u =
      erase_keys-IsUnique ks _ (Map.erase-IsUnique tuple_discrete k flows u)

  pub find-erase_keys :
      (ks : List FiveTuple) (j : FiveTuple) (flows : List (FiveTuple × Flow F))
      → IsUnique tuple_discrete flows
      → find tuple_discrete j (erase_keys ks flows)
        ≡ (if contains tuple_discrete j ks then none else find tuple_discrete j flows)
  unfolding erase_keys contains
  find-erase_keys [] j flows u = refl
  find-erase_keys (k ∷ ks) j flows u = ground (
    arith,
    find-erase_keys ks j (erase tuple_discrete k flows)
        (Map.erase-IsUnique tuple_discrete k flows u),
    Map.find-erase tuple_discrete k j flows u,
  )

pub keys_of-IsNodup :
    (s : ℕ) (keys : List FiveTuple) (index : Index)
    → IsIndex index
    → find ℕ_discrete s index ≡ some keys
    → IsNodup tuple_discrete keys
keys_of-IsNodup s keys index h e = ground (arith, h.distinct s)
