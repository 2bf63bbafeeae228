-- ===== src/Runner/Run/Caches.antt =====
-- internal/runner/runner.go, `Cache`: the local store and the tiered cache behind the interface.
use buildforge.Prelude.{ℕ, Str, List}
use buildforge.Cache.Store.{Store, StoreError, lookup, restore, put}
use buildforge.Remote.Tiered.{Client, Tiered, lookup_tiered, put_tiered}
use buildforge.Prelude.{Option}
use buildforge.Runner.Run.{Cache}

module _ (digest : List ℕ → Str) where
  -- `*cache.Store`
  abbrev pub store_cache : Cache Store StoreError
  store_cache = record {
    look_up = λ s key. (s, lookup key s);
    restore_to = λ s e ws. restore digest e.outputs s ws;
    put_from = λ s key ws outputs. put digest key ws outputs s;
  }

  -- `*remote.Tiered`
  abbrev pub tiered_cache : {V X : Type 0} → Option (Client V X) → Cache (Tiered V) StoreError
  tiered_cache client = record {
    look_up = λ t key. lookup_tiered digest client key t;
    restore_to = λ t e ws. restore digest e.outputs t.local ws;
    put_from = λ t key ws outputs. put_tiered digest client key ws outputs t;
  }
