-- ===== src/Server/Startup/Ready.antt =====
-- What a server that started has, and whether it is ready.
use otus_rusthomework_http_a.Common.{
  String, ◌≡◌, refl, sym, ap, ◌∙◌, subst, Bool, true, false, Option, none, some, [], ◌↔◌,
  Option-cases, inl, inr,
}
use otus_rusthomework_http_a.Common.Outcome.{ok, bind, bind-ok, ok-injective}
use otus_rusthomework_http_a.Storage.InMemory.{empty}
use otus_rusthomework_http_a.Server.Cache.{Cache, connect, disabled}
use otus_rusthomework_http_a.Server.Config.{
  StorageType, in_memory, postgres, Config, Env, from_env, create_cache,
}
use otus_rusthomework_http_a.Server.Startup.{
  Outside, Store, memory, database, Running, expect, expect_true, or_default, init_metrics,
  create_repository, create_db_pool, start_up,
}

expect-ok : {A : Type 0} (o : Option A) (a : A) → expect o ≡ ok a → o ≡ some a
expect-ok none a e = cc
expect-ok (some b) a e = cc

expect_true-ok : (b : Bool) (u : Unit) → expect_true b ≡ ok u → b ≡ true
expect_true-ok true u e = refl
expect_true-ok false u e = cc

module _ {B D H : Type 0} (outside : Outside B D H) where
  -- The storage that the configuration names: with PostgreSQL, two pools and the migrations.
  abbrev pub IsChosen : StorageType → String → Store B → Option B → Type 0
  IsChosen in_memory url store pool = (store ≡ memory empty) × (pool ≡ none)
  IsChosen postgres url store pool =
      (b : B) × (c : B) × (p : B) × (outside.connect url ≡ some b)
      × (outside.migrate b ≡ some c)
      × (store ≡ database c)
      × (outside.connect_again url ≡ some p)
      × (pool ≡ some p)

  chosen :
      (config : Config) (kind : StorageType) (store : Store B) (pool : Option B)
      → config.storage_type ≡ kind
      → create_repository outside config ≡ ok store
      → create_db_pool outside config ≡ ok pool
      → IsChosen kind config.database_url store pool
  unfolding create_repository create_db_pool
  chosen config in_memory store pool kind stored pooled =
      let e : create_repository outside config ≡ ok (memory empty) =
        rw (create_repository, kind) refl in
      let e' : create_db_pool outside config ≡ ok none = rw (create_db_pool, kind) refl in (cc, cc)
  chosen config postgres store pool kind stored pooled =
      let url = config.database_url in
      let e : create_repository outside config
          ≡ bind (expect (outside.connect url))
              (λ b. bind (expect (outside.migrate b)) λ c. ok (database c)) =
        rw (create_repository, kind) refl in
      let e' : create_db_pool outside config
          ≡ bind (expect (outside.connect_again url)) (λ p. ok (some p)) =
        rw (create_db_pool, kind) refl in
      let (b, connected, stored') =
        bind-ok (expect (outside.connect url)) _ store (sym e ∙ stored) in
      let (c, migrated, last) = bind-ok (expect (outside.migrate b)) _ store stored' in
      let (p, again, pooled') =
        bind-ok (expect (outside.connect_again url)) _ pool (sym e' ∙ pooled) in
      let same : database c ≡ store = cc in
      let same' : some p ≡ pool = cc in
      (
        b,
        c,
        p,
        expect-ok (outside.connect url) b connected,
        expect-ok (outside.migrate b) c migrated,
        sym same,
        expect-ok (outside.connect_again url) p again,
        sym same',
      )

  -- The recorder is installed once: the second call finds the handle of the first.
  installed_once :
      (install again : Option H) (first last : H)
      → (init_metrics install none).0 ≡ ok first
      → (init_metrics again (init_metrics install none).1).0 ≡ ok last
      → install ≡ some last
  unfolding init_metrics
  installed_once none again first last h h' = cc
  installed_once (some handle) again first last h h' = let same : handle ≡ last = cc in ap some same

  -- A variable of the environment, or its default.
  abbrev pub IsSetting : String → Option String → String → Type 0
  IsSetting value none addr = addr ≡ value
  IsSetting value (some val) addr = addr ≡ val

  -- The cache that an address of Redis gives: one without a connection where there is no address or
  -- no server.
  abbrev pub IsCached : Config → Option String → Cache D → Type 0
  IsCached config none cache = cache ≡ disabled outside.redis
  IsCached config (some url) cache =
      cache
      ≡ connect (outside.reaches url) outside.redis (record {
        ttl_secs = config.cache_ttl_secs;
        jitter_secs = config.cache_jitter_secs;
        op_timeout_ms = config.cache_op_timeout_ms;
      })

  abbrev pub IsStarted : Env → String → Running B D H → Type 0
  IsStarted env admin_hash r =
      (from_env env admin_hash ≡ ok r.config)
      × (outside.install_recorder ≡ some r.metrics_handle)
      × (outside.binds r.http_addr ≡ true)
      × IsChosen r.config.storage_type r.config.database_url r.store r.db_pool
      × IsSetting "0.0.0.0:8080" (env "LISTEN_ADDR") r.http_addr
      × IsSetting "0.0.0.0:50051" (env "GRPC_LISTEN_ADDR") r.grpc_addr
      × IsCached r.config r.config.redis_url r.cache
      × (r.stats_storage ≡ [])

  or_default-IsSetting :
      (value : String) (o : Option String) → IsSetting value o (or_default value o)
  or_default-IsSetting value none = refl
  or_default-IsSetting value (some val) = refl

  setting-eq :
      (value : String) (o : Option String) (addr : String)
      → IsSetting value o addr
      → addr ≡ or_default value o
  setting-eq value none addr h = h
  setting-eq value (some val) addr h = h

  create_cache-IsCached :
      (config : Config)
      → IsCached config config.redis_url (create_cache outside.reaches outside.redis config)
  unfolding create_cache
  create_cache-IsCached config = elim (Option-cases config.redis_url) [
    | inl off ↦ rw (off) refl
    | inr (url, on) ↦ rw (on) refl
  ]

  cached-eq :
      (config : Config) (cache : Cache D)
      → IsCached config config.redis_url cache
      → cache ≡ create_cache outside.reaches outside.redis config
  unfolding create_cache
  cached-eq config cache = at config.redis_url
    where
      at :
          (o : Option String)
          → IsCached config o cache
          → cache ≡ elim o [
            | none ↦ disabled outside.redis
            | some url ↦ connect (outside.reaches url) outside.redis (record {
              ttl_secs = config.cache_ttl_secs;
              jitter_secs = config.cache_jitter_secs;
              op_timeout_ms = config.cache_op_timeout_ms;
            })
          ]
      at none h = h
      at (some url) h = h

  pub start_up-IsStarted :
      (env : Env) (admin_hash : String) (r : Running B D H)
      → start_up outside env admin_hash ≡ ok r
      → IsStarted env admin_hash r
  unfolding start_up
  start_up-IsStarted env admin_hash r h =
      let (config, read, h1) = bind-ok (from_env env admin_hash) _ r h in
      let (handle, first, h2) = bind-ok (init_metrics outside.install_recorder none).0 _ r h1 in
      let (store, stored, h3) = bind-ok (create_repository outside config) _ r h2 in
      let (pool, pooled, h4) = bind-ok (create_db_pool outside config) _ r h3 in
      let (last, again, h5) =
        bind-ok
          (init_metrics outside.install_again (init_metrics outside.install_recorder none).1).0 _ r
          h4 in
      let (bound, binds, h6) =
        bind-ok (expect_true (outside.binds (or_default "0.0.0.0:8080" (env "LISTEN_ADDR")))) _ r
          h5 in
      let once =
        installed_once outside.install_recorder outside.install_again handle last first again in
      let kept = chosen config config.storage_type store pool refl stored pooled in
      let free =
        expect_true-ok (outside.binds (or_default "0.0.0.0:8080" (env "LISTEN_ADDR"))) bound
          binds in
      subst (IsStarted env admin_hash) (ok-injective h6) (
        read,
        once,
        free,
        kept,
        or_default-IsSetting "0.0.0.0:8080" (env "LISTEN_ADDR"),
        or_default-IsSetting "0.0.0.0:50051" (env "GRPC_LISTEN_ADDR"),
        create_cache-IsCached config,
        refl,
      )

  chosen_starts :
      (config : Config) (kind : StorageType) (store : Store B) (pool : Option B)
      → config.storage_type ≡ kind
      → IsChosen kind config.database_url store pool
      → (create_repository outside config ≡ ok store) × (create_db_pool outside config ≡ ok pool)
  unfolding create_repository create_db_pool
  chosen_starts config in_memory store pool kind (same, none_open) =
      rw (create_repository, create_db_pool, kind, same, none_open) (refl, refl)
  chosen_starts config postgres store pool kind (b, c, p, connected, migrated, same, again, same') =
      rw (create_repository, create_db_pool, kind, connected, migrated, same, again, same')
        (refl, refl)

  -- The rest of the start, from what its parts gave.
  module _ (env : Env) (admin_hash : String) (r : Running B D H) where
    starts : IsStarted env admin_hash r → start_up outside env admin_hash ≡ ok r
    unfolding start_up init_metrics
    starts (read, once, free, kept, http, grpc, cached, windows) =
        let (stored, pooled) =
          chosen_starts r.config r.config.storage_type r.store r.db_pool refl kept in
        let addr = setting-eq "0.0.0.0:8080" (env "LISTEN_ADDR") r.http_addr http in
        let at = ap outside.binds (sym addr) ∙ free in
        let grpc_addr = setting-eq "0.0.0.0:50051" (env "GRPC_LISTEN_ADDR") r.grpc_addr grpc in
        let cache = cached-eq r.config r.cache cached in
        rw (start_up, read, once, stored, pooled, at, sym addr, sym grpc_addr, sym cache, windows)
          refl

    -- A server starts exactly where its environment is a configuration, the recorder can be
    -- installed, the storage that the configuration names can be reached and migrated, and the
    -- address of LISTEN_ADDR, or its default, can be bound; and it has that configuration, the
    -- recorder, the storage (an empty one in memory and no pool, or the migrated database and a
    -- second pool), both addresses, the cache that the configuration names, and no windows.
    pub start_up_iff : (start_up outside env admin_hash ≡ ok r) ↔ IsStarted env admin_hash r
    start_up_iff = (start_up-IsStarted env admin_hash r, starts)
