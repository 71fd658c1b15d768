-- ===== src/Memo.antt =====
-- The stores of the `cached` crate, as the program uses them: values by a 64-bit key, without
-- eviction.
use subgraph_mock.Base.{ℕ, ◌≡◌, ◌≢◌, Option, none, some}

pub record CacheOps (V : Type 0) : Type 1 where
  pub Cache : Type 0
  pub empty : Cache
  -- `cache_get` and `cache_set`
  pub get : ℕ → Cache → Option V
  pub set : ℕ → V → Cache → Cache

pub record IsCache {V : Type 0} (ops : CacheOps V) : Type 0 where
  pub get_empty : (k : ℕ) → ops.get k ops.empty ≡ none
  pub get-set_same : (k : ℕ) (v : V) (c : ops.Cache) → ops.get k (ops.set k v c) ≡ some v
  pub get-set_other :
      (j k : ℕ) (v : V) (c : ops.Cache) → j ≢ k → ops.get j (ops.set k v c) ≡ ops.get j c
