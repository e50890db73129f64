-- ===== src/Server/Handlers/Coherence.antt =====
-- The cache beside the repository: what it holds is what the repository would answer.
use otus_rusthomework_http_a.Common.{
  ℕ, ℤ, String, ◌≡◌, refl, sym, ap, ◌∙◌, subst, ◌≢◌, Bool, true, false, Bool-cases, Option, some,
  inl, inr,
}
use otus_rusthomework_http_a.Common.Outcome.{
  Outcome, ok, err, panic, Exec, map_err, ◌>>=◌, continue,
}
use otus_rusthomework_http_a.Common.Dict.{eq_cases}
use otus_rusthomework_http_a.Common.Time.{SystemTime}
use otus_rusthomework_http_a.Domain.Link.{
  ShortLink, LinkStats, LinkRepository, IsLinkRepository, RepoError,
}
use otus_rusthomework_http_a.Server.Error.{AppError, from_repo_error}
use otus_rusthomework_http_a.Server.Dto.{
  UpdateLinkRequest, LinkResponse, from_stats, UrlParser, parse_target_url,
}
use otus_rusthomework_http_a.Server.Cache.{Redis, IsRedis, Serde, answered, link_key, invalidate}
use otus_rusthomework_http_a.Server.Handlers.{
  World, call, update_link, update_to, delete_link, redirect, redirect_live,
}

module _ {S E A B : Type 0} (P : S → Type 0) (f : A → Exec S E B) where
  pub after_outcome :
      (r : Outcome E A) (s : S)
      → ((a : A) → r ≡ ok a → P (f a s).1)
      → (((a : A) → r ≢ ok a) → P s)
      → P (continue r f s).1
  after_outcome (ok a) s good bad = good a refl
  after_outcome (err e) s good bad = bad (λ a. cc)
  after_outcome panic s good bad = bad (λ a. cc)

  -- A property of the state after a chain, from each way in which the first action ends.
  pub after_bind :
      (m : Exec S E A) (s : S)
      → ((a : A) → (m s).0 ≡ ok a → P (f a (m s).1).1)
      → (((a : A) → (m s).0 ≢ ok a) → P (m s).1)
      → P ((m >>= f) s).1
  after_bind m s good bad = after_outcome (m s).0 (m s).1 good bad

module _ {R D : Type 0} (repo : LinkRepository R) (view : D → String → Option String)
    (serde : Serde LinkResponse) where
  open serde use {from_json}

  -- What the repository answers for the code, as a response.
  abbrev pub Answers : String → LinkResponse → R → Type 0
  Answers code v r = (s : LinkStats) × ((repo.stats code r).0 ≡ ok s) × (v ≡ from_stats s)

  -- Where the server holds a response for the code, it is what the repository answers.
  abbrev pub CoherentAt : String → R → D → Type 0
  CoherentAt code r d =
      (raw : String) (v : LinkResponse)
      → view d (link_key code) ≡ some raw
      → from_json raw ≡ some v
      → Answers code v r

  -- With no connection the cache is not looked at.
  pub record IsCoherent (w : World R D) : Type 0 where
    pub holds : w.cache.has_conn ≡ true → (code : String) → CoherentAt code w.repo w.cache.server

  -- All codes but one.
  abbrev pub CoherentBut : String → R → D → Type 0
  CoherentBut code r d = (other : String) → other ≢ code → CoherentAt other r d

module _ {R D : Type 0} (repo : LinkRepository R) (laws : IsLinkRepository repo) (redis : Redis D)
    (view : D → String → Option String) (server_laws : IsRedis redis view)
    (serde : Serde LinkResponse) where
  abbrev Coherent : World R D → Type 0
  Coherent = IsCoherent repo view serde

  -- A call that keeps every answer of the repository.
  pub kept_call :
      {A : Type 0} (m : Exec R RepoError A) (w : World R D)
      → ((code : String) (s : LinkStats)
          → (repo.stats code w.repo).0 ≡ ok s
          → (repo.stats code (m w.repo).1).0 ≡ ok s)
      → Coherent w
      → Coherent (call m w).1
  kept_call m w keeps c = record {
    holds =
        λ on code raw v e j. let (s, e', k) = c.holds on code raw v e j in (s, keeps code s e', k);
  }

  pub same_call :
      {A : Type 0} (m : Exec R RepoError A) (w : World R D)
      → ((code : String) → (repo.stats code (m w.repo).1).0 ≡ (repo.stats code w.repo).0)
      → Coherent w
      → Coherent (call m w).1
  same_call m w e c = kept_call m w (λ code s held. e code ∙ held) c

  -- A call that fails and changes nothing.
  failed_call :
      {A : Type 0} (m : Exec R RepoError A) (w : World R D)
      → (((a : A) → (m w.repo).0 ≢ ok a)
          → (code : String) → (repo.stats code (m w.repo).1).0 ≡ (repo.stats code w.repo).0)
      → ((a : A) → (call m w).0 ≢ ok a)
      → Coherent w
      → Coherent (call m w).1
  failed_call {A = A} m w fails bad c =
      same_call m w
        (fails λ a e. bad a (ap (λ (o : Outcome RepoError A). map_err from_repo_error o) e)) c

  module _ (answers : (t : ℕ) (key : String) (d : D) → (redis.del t key d).0 ≡ answered tt) where
    invalidate-IsCoherent :
        (code : String) (w : World R D)
        → (w.cache.has_conn ≡ true → CoherentBut repo view serde code w.repo w.cache.server)
        → Coherent (record w { cache = invalidate redis serde (link_key code) w.cache })
    unfolding invalidate
    invalidate-IsCoherent code w h = elim (Bool-cases w.cache.has_conn) [
      | inl on ↦ rw on (record {
        holds = λ live other raw v e j. elim (eq_cases other code) [
          | inl same ↦
              let gone =
                server_laws.del_removes w.cache.config.op_timeout_ms (link_key code) w.cache.server
                  (answers w.cache.config.op_timeout_ms (link_key code) w.cache.server) in
              cc
          | inr ne ↦ h on other ne raw v (server_laws.del_fades _ _ _ _ _ e) j
        ];
      })
      | inr off ↦ rw off (record { holds = λ live. cc })
    ]

    -- An action on one code, then the removal of its key.
    changed-IsCoherent :
        {A : Type 0} (code : String) (m : Exec R RepoError A) (w : World R D)
        → ((r : R) (other : String)
            → other ≢ code
            → (repo.stats other (m r).1).0 ≡ (repo.stats other r).0)
        → Coherent w
        → Coherent (record (call m w).1 {
          cache = invalidate redis serde (link_key code) (call m w).1.cache;
        })
    changed-IsCoherent code m w others c =
        invalidate-IsCoherent code (call m w).1 λ on other ne raw v e j.
          let (s, e', k) = c.holds on other raw v e j in (s, others w.repo other ne ∙ e', k)

    -- The chain that the handlers share: a call that changes one code, then the removal of its key.
    changing-IsCoherent :
        {A B : Type 0} (code : String) (m : Exec R RepoError A)
        (f : A → Exec (World R D) AppError B) (w : World R D)
        → ((r : R) (other : String)
            → other ≢ code
            → (repo.stats other (m r).1).0 ≡ (repo.stats other r).0)
        → (((a : A) → (m w.repo).0 ≢ ok a)
            → (other : String) → (repo.stats other (m w.repo).1).0 ≡ (repo.stats other w.repo).0)
        → ((a : A) (v : World R D)
            → (f a v).1 ≡ record v { cache = invalidate redis serde (link_key code) v.cache })
        → Coherent w
        → Coherent ((call m >>= f) w).1
    changing-IsCoherent code m f w others fails removes c =
        after_bind Coherent f (call m) w
          (λ a _.
            subst Coherent (sym (removes a (call m w).1)) (changed-IsCoherent code m w others c))
          (λ bad. failed_call m w fails bad c)

    update_to-IsCoherent :
        (code : String) (version : ℤ) (now : SystemTime) (url : String) (w : World R D)
        → Coherent w
        → Coherent (update_to repo redis serde code version now url w).1
    unfolding update_to
    update_to-IsCoherent code version now url w c =
        changing-IsCoherent code (repo.update code url version now) _ w
          (laws.update_others code url version now) (laws.update_fails code url version now w.repo)
          (λ a v. refl) c

    pub update_link-IsCoherent :
        (urls : UrlParser) (code : String) (req : UpdateLinkRequest) (now : SystemTime)
        (w : World R D)
        → Coherent w
        → Coherent (update_link repo redis serde urls code req now w).1
    unfolding update_link
    update_link-IsCoherent urls code req now w c =
        after_outcome Coherent
          (λ url. update_to repo redis serde code req.version now (urls.as_str url))
          (parse_target_url urls req.target_url) w
          (λ url _. update_to-IsCoherent code req.version now (urls.as_str url) w c) (λ _. c)

    pub delete_link-IsCoherent :
        (code : String) (w : World R D)
        → Coherent w
        → Coherent (delete_link repo redis serde code w).1
    unfolding delete_link
    delete_link-IsCoherent code w c =
        changing-IsCoherent code (repo.remove code) _ w (laws.remove_others code)
          (laws.remove_fails code w.repo) (λ a v. refl) c

    redirect_live-IsCoherent :
        (code : String) (now : SystemTime) (link : ShortLink) (expired : Bool) (w : World R D)
        → Coherent w
        → Coherent (redirect_live repo redis serde code now link expired w).1
    unfolding redirect_live
    redirect_live-IsCoherent code now link true w c = c
    redirect_live-IsCoherent code now link false w c =
        changing-IsCoherent code (repo.record_hit code now) _ w (laws.hit_others code now)
          (laws.hit_fails code now w.repo) (λ a v. refl) c

    pub redirect-IsCoherent :
        (code : String) (now hit_at : SystemTime) (w : World R D)
        → Coherent w
        → Coherent (redirect repo redis serde code now hit_at w).1
    unfolding redirect
    redirect-IsCoherent code now hit_at w c =
        let kept : Coherent (call (repo.get code) w).1 =
          same_call (repo.get code) w (laws.get_keeps code w.repo) c in
        after_bind Coherent _ (call (repo.get code)) w
          (λ link _. redirect_live-IsCoherent code hit_at link _ _ kept) (λ _. kept)
