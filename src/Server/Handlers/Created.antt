-- ===== src/Server/Handlers/Created.antt =====
-- `create_link`, and `redirect` of the code that it answers with.
use otus_rusthomework_http_a.Common.{
  ℕ, zero, suc, String, str_append, ◌≡◌, refl, sym, ap, ◌∙◌, subst, Bool, true, false, Option, none,
  some, Option-cases, inl, inr, arith, leb_ℤ,
}
use otus_rusthomework_http_a.Common.Outcome.{
  Outcome, ok, err, Exec, ◌>>=◌, lift, map_err, chain-ok, ◌>>◌, pure,
}
use otus_rusthomework_http_a.Common.Dict.{lookup, insert, lookup-insert_self}
use otus_rusthomework_http_a.Common.Time.{SystemTime}
use otus_rusthomework_http_a.Domain.Link.{new, with_expires_at, is_expired}
use otus_rusthomework_http_a.Storage.InMemory.{
  LinkEntry, InMemoryRepo, in_memory, get_sync, stats_sync, record_hit_sync, new_entry, entry_stats,
}
use otus_rusthomework_http_a.Server.Error.{AppError, app_not_found, from_repo_error}
use otus_rusthomework_http_a.Server.Dto.{
  CreateLinkRequest, LinkResponse, UrlParser, from_stats, parse_target_url, validate_custom_code,
  expires_at_from_ttl,
}
use otus_rusthomework_http_a.Server.Cache.{Redis, Serde}
use otus_rusthomework_http_a.Server.Handlers.{
  World, Response, Draw, call, new_link, insert_link, choose_code, created, create_for, create_link,
  redirect, redirect_live,
}
use otus_rusthomework_http_a.Server.Handlers.Generate.{
  first_free, entry_of, insert_free, insert_taken, chosen, generate_code-first_free,
}

first_free-lookup :
    (n : ℕ) (draw : ℕ → Draw) (repo : InMemoryRepo) (d : Draw)
    → first_free n draw repo ≡ some d
    → lookup d.code repo.inner ≡ none
unfolding first_free
first_free-lookup zero draw repo d h = cc
first_free-lookup (suc n) draw repo d h = elim (Option-cases (lookup (draw n).code repo.inner)) [
  | inl free ↦
      let same : draw n ≡ d = ground arith in
      ap (λ (x : Draw). lookup x.code repo.inner) (sym same) ∙ free
  | inr held ↦ first_free-lookup n draw repo d (ground (arith, held.1))
]

-- What `redirect` answers for a link: it is moved to the URL before it expires.
abbrev pub moved : String → Bool → Outcome AppError (Response Unit)
moved url true = err app_not_found
moved url false = ok (record { status = 307; location = some url; body = tt })

-- The link of a stored code has the URL, and the expiry.
abbrev pub is_past : Option SystemTime → SystemTime → Bool
is_past none now = false
is_past (some at) now = leb_ℤ at now

link_is_expired :
    (code url : String) (expires : Option SystemTime) (made later : SystemTime)
    → (is_expired (new_link code url expires made) later ≡ is_past expires later)
      × ((new_link code url expires made).target_url ≡ url)
      × ((new_link code url expires made).code ≡ code)
unfolding new_link new with_expires_at is_expired
link_is_expired code url none made later = (refl, refl, refl)
link_is_expired code url (some at) made later = (refl, refl, refl)

abbrev State : Type 0 → Type 0
State D = World InMemoryRepo D

module _ {D : Type 0} where
  -- The code was free, and its entry is now the one for the link with no hits.
  record IsStored (url : String) (expires : Option SystemTime) (w w' : State D) (code : String)
      : Type 0 where
    at : SystemTime
    was_free : lookup code w.repo.inner ≡ none
    is_held :
        lookup code w'.repo.inner ≡ some (entry_of url expires (record { code = code; now = at }))

  IsStored-of :
      (url : String) (expires : Option SystemTime) (d : Draw) (w w' : State D)
      → lookup d.code w.repo.inner ≡ none
      → w'.repo.inner ≡ insert d.code (entry_of url expires d) w.repo.inner
      → IsStored url expires w w' d.code
  IsStored-of url expires d w w' free e = record {
    at = d.now;
    was_free = free;
    is_held =
        ap (lookup d.code) e ∙ lookup-insert_self d.code (entry_of url expires d) w.repo.inner;
  }

  module _ (url : String) (expires : Option SystemTime) (w : State D) where
    chosen-IsStored :
        (attempts : ℕ) (o : Option Draw) (code : String)
        → ((d : Draw) → o ≡ some d → lookup d.code w.repo.inner ≡ none)
        → (chosen url expires attempts w o).0 ≡ ok code
        → IsStored url expires w (chosen url expires attempts w o).1 code
    unfolding chosen
    chosen-IsStored attempts none code free h = cc
    chosen-IsStored attempts (some d) code free h =
        let same : d.code ≡ code = cc in
        subst (IsStored url expires w (chosen url expires attempts w (some d)).1) same
          (IsStored-of url expires d w _ (free d refl) refl)

    inserted-IsStored :
        (d : Draw)
        → (insert_link in_memory d.code url expires d.now w).0 ≡ ok tt
        → IsStored url expires w (insert_link in_memory d.code url expires d.now w).1 d.code
    unfolding insert_link from_repo_error
    inserted-IsStored d h = elim (Option-cases (lookup d.code w.repo.inner)) [
      | inl free ↦
          IsStored-of url expires d w _ free
            (ap (λ x. x.1.inner) (insert_free url expires d w.repo free))
      | inr held ↦
          let clash =
            sym h
            ∙ ap (λ x. map_err from_repo_error x.0)
                (insert_taken url expires d w.repo held.0 held.1) in
          cc
    ]

    choose_code-IsStored :
        (custom : Option String) (attempts : ℕ) (draw : ℕ → Draw) (inserted : SystemTime)
        (code : String)
        → (choose_code in_memory custom attempts draw url expires inserted w).0 ≡ ok code
        → IsStored url expires w
            (choose_code in_memory custom attempts draw url expires inserted w).1
            code
    unfolding choose_code
    choose_code-IsStored none attempts draw inserted code h =
        let e = generate_code-first_free url expires attempts draw w in
        subst (λ (x : Outcome AppError String × State D). IsStored url expires w x.1 code) (sym e)
          (chosen-IsStored attempts (first_free attempts draw w.repo) code
            (first_free-lookup attempts draw w.repo) (ap (λ x. x.0) (sym e) ∙ h))
    choose_code-IsStored (some given) attempts draw inserted code h =
        let d : Draw = record { code = given; now = inserted } in
        let later : Exec (State D) AppError String =
          insert_link in_memory given url expires inserted >> pure given in
        let (a, _, h1, e1) = chain-ok (lift (validate_custom_code given)) (λ _. later) w code h in
        let (b, h2, h3, e2) =
          chain-ok (insert_link in_memory given url expires inserted) (λ _. pure given) w code h1 in
        let same : given ≡ code = cc in
        subst (λ (x : Outcome AppError String × State D). IsStored url expires w x.1 code)
          (sym (e1 ∙ e2)) (subst (IsStored url expires w _) same (inserted-IsStored d h2))

  answered_of :
      (code : String) (e : LinkEntry) (w : State D)
      → lookup code w.repo.inner ≡ some e
      → (call (in_memory.stats code) >>= λ stats. pure (created code stats)) w
        ≡ (ok (created code (entry_stats e)), w)
  unfolding stats_sync from_repo_error
  answered_of code e w held = rw (stats_sync, held) refl

  -- A successful `create_for` has stored the code of its answer, and answers for that entry.
  create_for-IsStored :
      (custom : Option String) (attempts : ℕ) (draw : ℕ → Draw) (url : String)
      (inserted : SystemTime) (expires : Option SystemTime) (w : State D)
      (r : Response LinkResponse)
      → (create_for in_memory custom attempts draw url inserted expires w).0 ≡ ok r
      → (code : String) × (s : IsStored url expires w
          (create_for in_memory custom attempts draw url inserted expires w).1
          code)
        × (r
            ≡ created code
                (entry_stats (entry_of url expires (record { code = code; now = s.at }))))
  unfolding create_for from_repo_error
  create_for-IsStored custom attempts draw url inserted expires w r h =
      let (code, h1, h2, e1) =
        chain-ok (choose_code in_memory custom attempts draw url expires inserted)
          (λ code. call (in_memory.stats code) >>= λ stats. pure (created code stats)) w r h in
      let s = choose_code-IsStored url expires w custom attempts draw inserted code h1 in
      let d : Draw = record { code = code; now = s.at } in
      let w' = (choose_code in_memory custom attempts draw url expires inserted w).1 in
      let e2 = answered_of code (entry_of url expires d) w' s.is_held in
      let e3 : ok r ≡ ok (created code (entry_stats (entry_of url expires d))) =
        sym h ∙ ap (λ x. x.0) (e1 ∙ e2) in
      (
        code,
        record {
          at = s.at;
          was_free = s.was_free;
          is_held = ap (λ x. lookup code x.1.repo.inner) (e1 ∙ e2) ∙ s.is_held;
        },
        cc,
      )

  module _ (redis : Redis D) (serde : Serde LinkResponse) where
    pub redirect-moved :
        (code : String) (later hit_at : SystemTime) (w : State D) (e : LinkEntry) (url : String)
        (is_past : Bool)
        → lookup code w.repo.inner ≡ some e
        → e.link.target_url ≡ url
        → is_expired e.link later ≡ is_past
        → (redirect in_memory redis serde code later hit_at w).0 ≡ moved url is_past
    unfolding redirect redirect_live from_repo_error get_sync record_hit_sync
    redirect-moved code later hit_at w e url true held target past = rw (get_sync, held, past) refl
    redirect-moved code later hit_at w e url false held target live =
        rw (get_sync, held, live, record_hit_sync, held, target) refl

    -- For the repository in memory, a request to create a link that is answered with a response, for
    -- a custom code or a generated one, has stored a link whose code was free: the response is the
    -- status 201 with the path of the link and the text of the URL, and from then on `redirect` of the code answers 307 with
    -- the text of the URL before the expiry that the time to live asks for, and 404 from it on.
    pub create_link-redirect :
        (urls : UrlParser) (attempts : ℕ) (draw : ℕ → Draw) (req : CreateLinkRequest)
        (now inserted : SystemTime) (w : State D) (url : urls.Url) (expires : Option SystemTime)
        (r : Response LinkResponse) (later hit_at : SystemTime)
        → parse_target_url urls req.target_url ≡ ok url
        → expires_at_from_ttl req.ttl_seconds now ≡ ok expires
        → (create_link in_memory urls attempts draw req now inserted w).0 ≡ ok r
        → (r.status ≡ 201)
          × (r.location ≡ some (str_append "/api/v1/links/" r.body.code))
          × (r.body.target_url ≡ urls.as_str url)
          × (lookup r.body.code w.repo.inner ≡ none)
          × ((redirect in_memory redis serde r.body.code later hit_at
                (create_link in_memory urls attempts draw req now inserted w).1).0
              ≡ moved (urls.as_str url) (is_past expires later))
    unfolding create_link created from_stats new_link new with_expires_at new_entry entry_stats
    create_link-redirect urls attempts draw req now inserted w url expires r later hit_at parsed
          timed h =
        let e : create_link in_memory urls attempts draw req now inserted w
            ≡ create_for in_memory req.custom_code attempts draw (urls.as_str url) inserted expires
                w =
          rw (parsed, timed) refl in
        let (code, s, shown) =
          create_for-IsStored req.custom_code attempts draw (urls.as_str url) inserted expires w r
            (ap (λ x. x.0) (sym e) ∙ h) in
        let (past, target, same) = link_is_expired code (urls.as_str url) expires s.at later in
        let coded : r.body.code ≡ code = ap (λ x. x.body.code) shown ∙ same in
        let w' = (create_link in_memory urls attempts draw req now inserted w).1 in
        let held =
          ap (λ c. lookup c w'.repo.inner) coded
          ∙ ap (λ x. lookup code x.1.repo.inner) e
          ∙ s.is_held in
        (
          ap (λ x. x.status) shown,
          rw (coded) (ap (λ x. x.location) shown),
          ap (λ x. x.body.target_url) shown ∙ target,
          ap (λ c. lookup c w.repo.inner) coded ∙ s.was_free,
          redirect-moved r.body.code later hit_at w' _ (urls.as_str url) (is_past expires later)
              held target past,
        )
