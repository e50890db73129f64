-- ===== src/Server/Grpc/Created.antt =====
-- `create_link` of the gRPC service, and `redirect` of the HTTP API over the same repository.
use otus_rusthomework_http_a.Common.{
  ℤ, String, ◌≡◌, refl, sym, ap, ◌∙◌, Bool-cases, false, Option, none, Option-cases, inl, inr,
  str_eq,
}
use otus_rusthomework_http_a.Common.Outcome.{Outcome, ok, err, lift, chain-ok, ok-injective}
use otus_rusthomework_http_a.Common.Dict.{lookup, insert, lookup-insert_self}
use otus_rusthomework_http_a.Common.Time.{SystemTime}
use otus_rusthomework_http_a.Domain.Link.{code_taken, new, is_expired}
use otus_rusthomework_http_a.Storage.InMemory.{
  LinkEntry, InMemoryRepo, in_memory, insert_sync, stats_sync, new_entry, entry_stats,
}
use otus_rusthomework_http_a.Server.Dto.{LinkResponse}
use otus_rusthomework_http_a.Server.Cache.{Cache, Redis, Serde}
use otus_rusthomework_http_a.Server.Handlers.{redirect}
use otus_rusthomework_http_a.Server.Handlers.Created.{moved, redirect-moved}
use otus_rusthomework_http_a.Server.Grpc.{
  Status, status_invalid_argument, GrpcCreated, GrpcCreateRequest, grpc_created, map_repo_error,
  create_with, create_checked, create_link, code_or, custom_code_of,
}

module _ (target_url code : String) (created : SystemTime) (repo : InMemoryRepo) where
  abbrev entry : LinkEntry
  entry = new_entry (new code target_url created)

  -- A creation that is answered with a link has found the code free and stored its entry.
  create_with-stores :
      (g : GrpcCreated) (auth : ℤ → Option String → Outcome Status Unit)
      → (create_with in_memory auth target_url code created repo).0 ≡ ok g
      → (lookup code repo.inner ≡ none)
        × (create_with in_memory auth target_url code created repo ≡ (
          ok (grpc_created (entry_stats entry)),
          record repo { inner = insert code entry repo.inner },
        ))
  unfolding create_with insert_sync new stats_sync
  create_with-stores g auth h = elim (Option-cases (lookup code repo.inner)) [
    | inl free ↦ (
      free,
      rw (create_with, insert_sync, free, stats_sync, lookup-insert_self code entry repo.inner)
          refl,
    )
    | inr (e, held) ↦
        let refused : (create_with in_memory auth target_url code created repo).0
            ≡ err (map_repo_error code (code_taken code)) =
          rw (create_with, insert_sync, held) refl in
        let clash = sym refused ∙ h in cc
  ]

module _ (auth : ℤ → Option String → Outcome Status Unit) where
  create_checked-stores :
      (req : GrpcCreateRequest) (generated : String) (created : SystemTime) (repo : InMemoryRepo)
      (g : GrpcCreated)
      → (create_checked in_memory auth req generated created repo).0 ≡ ok g
      → let code = code_or (custom_code_of req.custom_code) generated in
        (lookup code repo.inner ≡ none)
        × (create_checked in_memory auth req generated created repo ≡ (
          ok (grpc_created (entry_stats (entry req.target_url code created repo))),
          record repo { inner = insert code (entry req.target_url code created repo) repo.inner },
        ))
  unfolding create_checked
  create_checked-stores req generated created repo g h =
      let code = code_or (custom_code_of req.custom_code) generated in
      elim (Bool-cases (str_eq req.target_url "")) [
        | inl missing ↦
            let refused : (create_checked in_memory auth req generated created repo).0
                ≡ err (status_invalid_argument "target_url is required") =
              rw (missing) refl in
            let clash = sym refused ∙ h in cc
        | inr given ↦
            let e : create_checked in_memory auth req generated created repo
                ≡ create_with in_memory auth req.target_url code created repo =
              rw (given) refl in
            let (free, stored) =
              create_with-stores req.target_url code created repo g auth
                (ap (λ x. x.0) (sym e) ∙ h) in
            (free, e ∙ stored)
      ]

  -- For the repository in memory, a gRPC request to create a link that is answered with a link has
  -- found its code free, and from then on `redirect` of the HTTP API answers the code with 307 and
  -- the text of the request, whatever that text is, at any time: the time to live of the request is
  -- not looked at.
  pub redirect-create_link :
      {D : Type 0} (redis : Redis D) (serde : Serde LinkResponse) (cache : Cache D) (now : ℤ)
      (header : Option String) (req : GrpcCreateRequest) (generated : String)
      (created later hit_at : SystemTime) (repo : InMemoryRepo) (g : GrpcCreated)
      → (create_link in_memory auth now header req generated created repo).0 ≡ ok g
      → let after = (create_link in_memory auth now header req generated created repo).1 in
        (g.target_url ≡ req.target_url)
        × (lookup g.code repo.inner ≡ none)
        × ((redirect in_memory redis serde g.code later hit_at
              (record { repo = after; cache = cache })).0
            ≡ moved req.target_url false)
  unfolding create_link grpc_created new is_expired entry_stats new_entry
  redirect-create_link redis serde cache now header req generated created later hit_at repo g h =
      let code = code_or (custom_code_of req.custom_code) generated in
      let (u, _, h1, e1) =
        chain-ok (lift (auth now header)) (λ _. create_checked in_memory auth req generated created)
          repo g h in
      let (free, e2) = create_checked-stores req generated created repo g h1 in
      let e = e1 ∙ e2 in
      let code_row = entry req.target_url code created repo in
      let same : g ≡ grpc_created (entry_stats code_row) = ok-injective (sym h ∙ ap (λ x. x.0) e) in
      let after = (create_link in_memory auth now header req generated created repo).1 in
      let coded : g.code ≡ code = ap (λ x. x.code) same in
      let held = ap (λ x. lookup code x.1.inner) e ∙ lookup-insert_self code code_row repo.inner in
      (
        ap (λ x. x.target_url) same,
        ap (λ c. lookup c repo.inner) coded ∙ free,
        redirect-moved redis serde g.code later hit_at (record { repo = after; cache = cache })
            code_row req.target_url false (ap (λ c. lookup c after.inner) coded ∙ held) refl refl,
      )
