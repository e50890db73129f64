-- ===== src/Server/Handlers/Generate.antt =====
-- `generate_code` over the repository in memory.
use otus_rusthomework_http_a.Common.{
  ℕ, zero, suc, String, str_append, ◌≡◌, refl, sym, ap, ◌∙◌, Option, none, some, Option-cases, inl,
  inr, arith,
}
use otus_rusthomework_http_a.Common.Outcome.{Outcome, ok, err, Exec}
use otus_rusthomework_http_a.Common.Dict.{lookup, insert}
use otus_rusthomework_http_a.Common.Text.{to_string}
use otus_rusthomework_http_a.Common.Time.{SystemTime}
use otus_rusthomework_http_a.Domain.Link.{RepoError, code_taken, new, with_expires_at}
use otus_rusthomework_http_a.Storage.InMemory.{
  LinkEntry, InMemoryRepo, in_memory, insert_sync, new_entry,
}
use otus_rusthomework_http_a.Server.Error.{AppError, app_internal}
use otus_rusthomework_http_a.Server.Handlers.{
  World, Draw, try_insert_link, next_attempt, attempt, generate_from, generate_code, new_link,
}

-- The first of the `n` draws, from the last index down, whose code no stored link has.
unfoldable pub first_free : ℕ → (ℕ → Draw) → InMemoryRepo → Option Draw
unfolding lookup
first_free zero draw repo = none
first_free (suc n) draw repo =
    let rest = first_free n draw repo in
    elim (lookup (draw n).code repo.inner) [ none ↦ some (draw n) | some _ ↦ rest ]

abbrev pub entry_of : String → Option SystemTime → Draw → LinkEntry
entry_of url expires d = new_entry (new_link d.code url expires d.now)

-- An insertion of the link for a draw.
pub insert_free :
    (url : String) (expires : Option SystemTime) (d : Draw) (repo : InMemoryRepo)
    → lookup d.code repo.inner ≡ none
    → try_insert_link in_memory d.code url expires d.now repo
      ≡ (ok tt, record repo { inner = insert d.code (entry_of url expires d) repo.inner })
unfolding try_insert_link insert_sync new_link new with_expires_at
insert_free url none d repo free = ground arith
insert_free url (some at) d repo free = ground arith

pub insert_taken :
    (url : String) (expires : Option SystemTime) (d : Draw) (repo : InMemoryRepo) (e : LinkEntry)
    → lookup d.code repo.inner ≡ some e
    → try_insert_link in_memory d.code url expires d.now repo ≡ (err (code_taken d.code), repo)
unfolding try_insert_link insert_sync new_link new with_expires_at
insert_taken url none d repo e held = ground arith
insert_taken url (some at) d repo e held = ground arith

module _ {D : Type 0} (url : String) (expires : Option SystemTime) where
  -- The answer and the state for the draw that is taken, or for none.
  unfoldable pub chosen :
      ℕ → World InMemoryRepo D → Option Draw → Outcome AppError String × World InMemoryRepo D
  unfolding to_string insert new_entry new_link
  chosen total w none = (
    err (
        app_internal (
          str_append "failed to generate a unique code in "
            (str_append (to_string total) " attempts"))),
    w,
  )
  chosen total w (some d) = (
    ok d.code,
    record w {
      repo = record w.repo { inner = insert d.code (entry_of url expires d) w.repo.inner };
    },
  )

  -- One turn of the loop, for the answer of the insertion.
  attempt_of :
      (d : Draw) (rest : Exec (World InMemoryRepo D) AppError String) (w : World InMemoryRepo D)
      (r : Outcome RepoError Unit × InMemoryRepo)
      → try_insert_link in_memory d.code url expires d.now w.repo ≡ r
      → attempt in_memory d url expires rest w
        ≡ next_attempt in_memory d.code rest r.0 (record w { repo = r.1 })
  unfolding attempt
  attempt_of d rest w r e =
      ap
        (λ (p : Outcome RepoError Unit × InMemoryRepo).
          next_attempt in_memory d.code rest p.0 (record w { repo = p.1 }))
        e

  generate_from-eq :
      (total n : ℕ) (draw : ℕ → Draw) (w : World InMemoryRepo D)
      → generate_from in_memory total n draw url expires w
        ≡ chosen total w (first_free n draw w.repo)
  unfolding generate_from first_free chosen next_attempt
  generate_from-eq total zero draw w = refl
  generate_from-eq total (suc n) draw w =
      let d = draw n in
      let rest : Exec (World InMemoryRepo D) AppError String =
        generate_from in_memory total n draw url expires in
      elim (Option-cases (lookup d.code w.repo.inner)) [
        | inl free ↦
            let first : first_free (suc n) draw w.repo ≡ some d = ground (arith, free) in
            attempt_of d rest w _ (insert_free url expires d w.repo free)
            ∙ ap (chosen total w) (sym first)
        | inr held ↦
            let later : first_free (suc n) draw w.repo ≡ first_free n draw w.repo =
              ground (arith, held.1) in
            attempt_of d rest w _ (insert_taken url expires d w.repo held.0 held.1)
            ∙ generate_from-eq total n draw w
            ∙ ap (chosen total w) (sym later)
      ]

  -- For the repository in memory, `generate_code` takes the first drawn code that no stored link
  -- has, stores the link under it with no hits, and changes nothing else. It answers with an
  -- internal error, and changes nothing, where all codes of the allowed attempts are taken.
  pub generate_code-first_free :
      (attempts : ℕ) (draw : ℕ → Draw) (w : World InMemoryRepo D)
      → generate_code in_memory attempts draw url expires w
        ≡ chosen attempts w (first_free attempts draw w.repo)
  unfolding generate_code
  generate_code-first_free attempts draw w = generate_from-eq attempts attempts draw w
