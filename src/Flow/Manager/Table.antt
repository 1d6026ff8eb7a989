-- ===== src/Flow/Manager/Table.antt =====
-- src/flow/flow_manager.cpp: the flow table and its index together, when flows are inserted, updated,
-- removed and discarded.
use ips_with_ai.Prelude.{
  ℕ, ◌≡◌, true, ◌&&◌, none, some, List, arith, ◌==◌, if◌then◌else◌, ℕ_discrete, is_some, ◌⊎◌,
}
use ips_with_ai.Prelude.Map
use ips_with_ai.Prelude.Map.{find, put, erase, IsUnique}
use ips_with_ai.Prelude.Set
use ips_with_ai.Prelude.Set.{contains, insert, remove, IsNodup}
use ips_with_ai.Common.FiveTuple.{FiveTuple, reversed, tuple_discrete, reversed-reversed}
use ips_with_ai.Flow.Types.{Flow}
use ips_with_ai.Flow.Manager.{keys_of, store_keys, erase_keys}
use ips_with_ai.Flow.Manager.Index.{
  Index, listed, IsIndex, listed-put, listed-erase, put-IsIndex, keys_of-IsNodup, erase-IsIndex,
  store_keys-IsIndex, listed-store_keys, erase_keys-IsUnique, find-erase_keys,
}

module _ {F : Type 0} where
  pub record IsTable (flows : List (FiveTuple × Flow F)) (index : Index) : Type 0 where
    -- Each key once, and a flow stands at its own key.
    pub unique : IsUnique tuple_discrete flows
    pub keyed : (k : FiveTuple) (f : Flow F) → find tuple_discrete k flows ≡ some f → f.key ≡ k
    -- A conversation is stored in one direction only.
    pub one_way :
        (k : FiveTuple)
        → is_some (find tuple_discrete k flows) ≡ true
        → (find tuple_discrete (reversed k) flows ≡ none) ⊎ (reversed k ≡ k)
    -- The index lists exactly the stored keys, each under its source.
    pub indexed : IsIndex index
    pub exact :
        (s : ℕ) (k : FiveTuple)
        → listed s k index ≡ (k.src_ip == s && is_some (find tuple_discrete k flows))

  pub put_old-IsTable :
      (k : FiveTuple) (f g : Flow F) (flows : List (FiveTuple × Flow F)) (index : Index)
      → IsTable flows index
      → find tuple_discrete k flows ≡ some f
      → g.key ≡ f.key
      → IsTable (put tuple_discrete k g flows) index
  put_old-IsTable k f g flows index t h e = record {
    unique = Map.put-IsUnique tuple_discrete k g flows t.unique;
    keyed = λ j x p.
        ground (arith, Map.find-put tuple_discrete k j g flows, t.keyed k f h, t.keyed j x);
    one_way = λ j p. ground (
      arith,
      Map.find-put tuple_discrete k j g flows,
      Map.find-put tuple_discrete k (reversed j) g flows,
      t.one_way j,
    );
    indexed = t.indexed;
    exact = λ s j. ground (arith, Map.find-put tuple_discrete k j g flows, t.exact s j);
  }

  pub insert-IsTable :
      (k : FiveTuple) (g : Flow F) (flows : List (FiveTuple × Flow F)) (index : Index)
      → IsTable flows index
      → find tuple_discrete k flows ≡ none
      → find tuple_discrete (reversed k) flows ≡ none
      → g.key ≡ k
      → IsTable
          (put tuple_discrete k g flows)
          (put ℕ_discrete k.src_ip (insert tuple_discrete k (keys_of k.src_ip index)) index)
  insert-IsTable k g flows index t h h' e = record {
    unique = Map.put-IsUnique tuple_discrete k g flows t.unique;
    keyed = λ j x p. ground (arith, Map.find-put tuple_discrete k j g flows, t.keyed j x);
    one_way = λ j p. ground (
      arith,
      Map.find-put tuple_discrete k j g flows,
      Map.find-put tuple_discrete k (reversed j) g flows,
      t.one_way j,
      reversed-reversed j,
      reversed-reversed k,
    );
    indexed =
        put-IsIndex k.src_ip (insert tuple_discrete k (keys_of k.src_ip index)) index
          (Set.insert-IsNodup tuple_discrete k (keys_of k.src_ip index)
            (t.indexed.distinct k.src_ip))
          (Set.insert-ne-nil tuple_discrete k (keys_of k.src_ip index)) t.indexed;
    exact = λ s j. ground (
      arith,
      Map.find-put tuple_discrete k j g flows,
      listed-put k.src_ip s j (insert tuple_discrete k (keys_of k.src_ip index)) index,
      Set.contains-insert tuple_discrete k j (keys_of k.src_ip index),
      t.exact s j,
    );
  }

  pub remove-IsTable :
      (k : FiveTuple) (keys : List FiveTuple) (flows : List (FiveTuple × Flow F)) (index : Index)
      → IsTable flows index
      → find ℕ_discrete k.src_ip index ≡ some keys
      → IsTable
          (erase tuple_discrete k flows)
          (store_keys k.src_ip (remove tuple_discrete k keys) index)
  remove-IsTable k keys flows index t h = record {
    unique = Map.erase-IsUnique tuple_discrete k flows t.unique;
    keyed = λ j x p. ground (arith, Map.find-erase tuple_discrete k j flows t.unique, t.keyed j x);
    one_way = λ j p. ground (
      arith,
      Map.find-erase tuple_discrete k j flows t.unique,
      Map.find-erase tuple_discrete k (reversed j) flows t.unique,
      t.one_way j,
    );
    indexed =
        store_keys-IsIndex k.src_ip (remove tuple_discrete k keys) index
          (Set.remove-IsNodup tuple_discrete k keys
            (keys_of-IsNodup k.src_ip keys index t.indexed h))
          t.indexed;
    exact = λ s j. ground (
      arith,
      Map.find-erase tuple_discrete k j flows t.unique,
      listed-store_keys k.src_ip s j (remove tuple_discrete k keys) index t.indexed.unique,
      Set.contains-remove tuple_discrete k j keys,
      t.exact s j,
      keys_of-IsNodup k.src_ip keys index t.indexed h,
    );
  }

  -- Discarding a source's flows removes exactly those, and its entry of the index.
  pub find-discard :
      (s : ℕ) (keys : List FiveTuple) (j : FiveTuple) (flows : List (FiveTuple × Flow F))
      (index : Index)
      → IsTable flows index
      → find ℕ_discrete s index ≡ some keys
      → find tuple_discrete j (erase_keys keys flows)
        ≡ (if j.src_ip == s then none else find tuple_discrete j flows)
  find-discard s keys j flows index t h =
      ground (arith, find-erase_keys keys j flows t.unique, t.exact s j)

  pub discard-IsTable :
      (s : ℕ) (keys : List FiveTuple) (flows : List (FiveTuple × Flow F)) (index : Index)
      → IsTable flows index
      → find ℕ_discrete s index ≡ some keys
      → IsTable (erase_keys keys flows) (erase ℕ_discrete s index)
  discard-IsTable s keys flows index t h = record {
    unique = erase_keys-IsUnique keys flows t.unique;
    keyed = λ j x p. ground (arith, find-discard s keys j flows index t h, t.keyed j x);
    one_way = λ j p. ground (
      arith,
      find-discard s keys j flows index t h,
      find-discard s keys (reversed j) flows index t h,
      t.one_way j,
    );
    indexed = erase-IsIndex s index t.indexed;
    exact = λ r j. ground (
      arith,
      find-discard s keys j flows index t h,
      listed-erase s r j index t.indexed.unique,
      t.exact r j,
    );
  }
