-- ===== src/Server/Handlers/Flights/Counts.antt =====
-- The hits that redirections in flight count.
use otus_rusthomework_http_a.Common.{
  ℕ, zero, suc, ◌+◌, ◌%◌, ◌^◌, String, ◌≡◌, ◌≢◌, refl, sym, ap, ◌∙◌, subst, Bool, true, false, ◌&&◌,
  Option, none, some, Option-cases, inl, inr, List, [], ◌∷◌, arith, str_eq, eq_iff, All,
  if◌then◌else◌,
}
use otus_rusthomework_http_a.Common.Outcome.{Outcome, ok, err, panic}
use otus_rusthomework_http_a.Common.Dict.{
  lookup, insert, lookup-insert_self, lookup-insert_ne, eq_cases,
}
use otus_rusthomework_http_a.Common.Time.{SystemTime}
use otus_rusthomework_http_a.Domain.Link.{ShortLink, is_expired, RepoError, not_found}
use otus_rusthomework_http_a.Storage.InMemory.{
  LinkEntry, InMemoryRepo, in_memory, insert_sync, get_sync, remove_sync, record_hit_sync,
  update_sync, new_entry, updated,
}
use otus_rusthomework_http_a.Storage.InMemory.Contract.{remove_others, get_keeps}
use otus_rusthomework_http_a.Server.Dto.{LinkResponse}
use otus_rusthomework_http_a.Server.Cache.{Redis, Serde}
use otus_rusthomework_http_a.Server.Handlers.{World}
use otus_rusthomework_http_a.Server.Handlers.Hits.{
  Phase, waiting, found, counted, answered, Redirection, after_get, after_hit, found_or_gone,
  advance, step_from, at_phase,
}
use otus_rusthomework_http_a.Server.Handlers.Flights.{
  Move, turn, insertion, updating, removal, Spares, Flight, is_counted, count_of, advance_at, move,
  move_all,
}

-- The code has an entry with the hits, modulo 2^64.
abbrev pub Holds : String → ℕ → InMemoryRepo → Type 0
Holds code hits repo =
    (e : LinkEntry) × (lookup code repo.inner ≡ some e) × (e.hits ≡ hits % 2 ^ 64)

alike :
    (code : String) (m n : ℕ) (a b : InMemoryRepo)
    → m ≡ n
    → lookup code b.inner ≡ lookup code a.inner
    → Holds code m a
    → Holds code n b
alike code m n a b same kept (e, held, hits) = (e, kept ∙ held, hits ∙ ap (λ k. k % 2 ^ 64) same)

module _ {D : Type 0} (redis : Redis D) (serde : Serde LinkResponse) (code : String) where
  abbrev weight : String → Phase → ℕ
  weight other phase = if str_eq other code && is_counted phase then 1 else 0

  uncounted : (other : String) (phase : Phase) → is_counted phase ≡ false → weight other phase ≡ 0
  uncounted other phase no_hit = ground arith

  after_get-uncounted :
      (now : SystemTime) (o : Outcome RepoError ShortLink) → is_counted (after_get now o) ≡ false
  unfolding after_get
  after_get-uncounted now (ok link) = by_expiry (is_expired link now)
    where
      by_expiry : (b : Bool) → is_counted (found_or_gone link b) ≡ false
      by_expiry true = refl
      by_expiry false = refl
  after_get-uncounted now (err e) = refl
  after_get-uncounted now panic = refl

  module _ (other : String) (now hit_at : SystemTime) (w : World InMemoryRepo D) (k : ℕ) where
    -- The hit of a stored link, for its own code and for another one.
    hit_counts :
        (link : ShortLink) (e : LinkEntry)
        → lookup other w.repo.inner ≡ some e
        → Holds code k w.repo
        → Holds code (k + weight other (counted link)) (record_hit_sync other hit_at w.repo).1
    unfolding record_hit_sync
    hit_counts link e here (e', held, hits) =
        let row : LinkEntry = record e { hits = (e.hits + 1) % 2 ^ 64 } in
        let after : (record_hit_sync other hit_at w.repo).1.inner ≡ insert other row w.repo.inner =
          rw (record_hit_sync, here) refl in
        elim (eq_cases other code) [
          | inl same ↦
              let own : some e ≡ some e' = sym here ∙ ap (λ c. lookup c w.repo.inner) same ∙ held in
              let e_e' : e.hits ≡ e'.hits = cc in
              (
                row,
                ap (lookup code) after
                    ∙ ap (λ c. lookup c (insert other row w.repo.inner)) (sym same)
                    ∙ lookup-insert_self other row w.repo.inner,
                ground (arith, e_e', hits, eq_iff other code, same),
              )
          | inr ne ↦ (
            e',
            ap (lookup code) after ∙ lookup-insert_ne other code row w.repo.inner ne ∙ held,
            ground (arith, hits, eq_iff other code),
          )
        ]

    -- A redirection whose hit finds its link, or does not.
    found_counts :
        (link : ShortLink) (o : Option LinkEntry)
        → lookup other w.repo.inner ≡ o
        → Holds code k w.repo
        → Holds code
            (k + weight other (after_hit link (record_hit_sync other hit_at w.repo).0))
            (record_hit_sync other hit_at w.repo).1
    unfolding record_hit_sync after_hit
    found_counts link none gone h =
        let missed : record_hit_sync other hit_at w.repo ≡ (err (not_found other), w.repo) =
          rw (record_hit_sync, gone) refl in
        subst
          (λ (x : Outcome RepoError ℕ × InMemoryRepo).
            Holds code (k + weight other (after_hit link x.0)) x.1)
          (sym missed)
          (alike code _ _ w.repo w.repo
            (omega (arith, uncounted other (after_hit link (err (not_found other))) refl)) refl h)
    found_counts link (some e) here h =
        let n = (e.hits + 1) % 2 ^ 64 in
        let hit : (record_hit_sync other hit_at w.repo).0 ≡ ok n =
          rw (record_hit_sync, here) refl in
        alike code _ _ (record_hit_sync other hit_at w.repo).1
          (record_hit_sync other hit_at w.repo).1
          (ap (λ (x : Outcome RepoError ℕ). k + weight other (after_hit link x)) (sym hit)) refl
          (hit_counts link e here h)

    step_counts :
        (phase : Phase)
        → Holds code (k + weight other phase) w.repo
        → let out = step_from in_memory redis serde phase (at_phase other now hit_at phase) w in
          Holds code (k + weight other out.0) out.1.repo
    step_counts waiting h =
        let o = (get_sync other w.repo).0 in
        alike code _ _ w.repo (get_sync other w.repo).1
          (omega (
            arith,
            uncounted other waiting refl,
            uncounted other (after_get now o) (after_get-uncounted now o),
          ))
          (ap (λ r. lookup code r.inner) (get_keeps other w.repo)) h
    step_counts (found link) h =
        found_counts link (lookup other w.repo.inner) refl
          (alike code _ _ w.repo w.repo (omega (arith, uncounted other (found link) refl)) refl h)
    step_counts (counted link) h = h
    step_counts (answered o) h = h

  advance_counts :
      (r : Redirection) (w : World InMemoryRepo D) (k : ℕ)
      → Holds code (k + weight r.code r.phase) w.repo
      → let out = advance in_memory redis serde r w in
        Holds code (k + weight out.0.code out.0.phase) out.1.repo
  unfolding advance
  advance_counts r w k h = step_counts r.code r.now r.hit_at w k r.phase h

  -- A step of any one of the redirections.
  advance_at_counts :
      (n : ℕ) (rs : List Redirection) (w : World InMemoryRepo D) (k : ℕ)
      → Holds code (k + count_of code rs) w.repo
      → let out = advance_at redis serde n rs w in Holds code (k + count_of code out.0) out.1.repo
  unfolding advance_at count_of
  advance_at_counts n [] w k h = h
  advance_at_counts zero (r ∷ rs) w k h =
      let out = advance in_memory redis serde r w in
      let rest = count_of code rs in
      alike code _ _ out.1.repo out.1.repo (omega arith) refl
        (advance_counts r w (k + rest) (alike code _ _ w.repo w.repo (omega arith) refl h))
  advance_at_counts (suc n) (r ∷ rs) w k h =
      let out = advance_at redis serde n rs w in
      let first = weight r.code r.phase in
      alike code _ _ out.1.repo out.1.repo (omega arith) refl
        (advance_at_counts n rs w (k + first) (alike code _ _ w.repo w.repo (omega arith) refl h))

  insertion_counts :
      (link : ShortLink) (repo : InMemoryRepo) (k : ℕ)
      → Holds code k repo
      → Holds code k (insert_sync link repo).1
  unfolding insert_sync
  insertion_counts link repo k (e, held, hits) = elim (Option-cases (lookup link.code repo.inner)) [
    | inl free ↦
        let ne : link.code ≢ code = λ same.
          let clash : none ≡ some e = sym free ∙ ap (λ c. lookup c repo.inner) same ∙ held in cc in
        (
          e,
          rw (insert_sync, free) (lookup-insert_ne link.code code (new_entry link) repo.inner ne)
              ∙ held,
          hits,
        )
    | inr (x, taken) ↦ (e, rw (insert_sync, taken) held, hits)
  ]

  updating_counts :
      (other url : String) (now : SystemTime) (repo : InMemoryRepo) (k : ℕ)
      → Holds code k repo
      → Holds code k (update_sync other url now repo).1
  unfolding update_sync
  updating_counts other url now repo k (e, held, hits) =
      elim (Option-cases (lookup other repo.inner)) [
        | inl gone ↦ (e, rw (update_sync, gone) held, hits)
        | inr (x, here) ↦
            let row : LinkEntry = record x { link = updated x.link url now } in
            let after : (update_sync other url now repo).1.inner ≡ insert other row repo.inner =
              rw (update_sync, here) refl in
            elim (eq_cases other code) [
              | inl same ↦
                  let own : some x ≡ some e =
                    sym here ∙ ap (λ c. lookup c repo.inner) same ∙ held in
                  let x_e : x.hits ≡ e.hits = cc in
                  (
                    row,
                    ap (lookup code) after
                        ∙ ap (λ c. lookup c (insert other row repo.inner)) (sym same)
                        ∙ lookup-insert_self other row repo.inner,
                    x_e ∙ hits,
                  )
              | inr ne ↦ (
                e,
                ap (lookup code) after ∙ lookup-insert_ne other code row repo.inner ne ∙ held,
                hits,
              )
            ]
      ]

  move_counts :
      (m : Move) (s : Flight D) (k : ℕ)
      → Spares code m
      → Holds code (k + count_of code s.redirections) s.world.repo
      → let s' = move redis serde m s in
        Holds code (k + count_of code s'.redirections) s'.world.repo
  unfolding move
  move_counts (turn n) s k spares h = advance_at_counts n s.redirections s.world k h
  move_counts (insertion link) s k spares h = insertion_counts link s.world.repo _ h
  move_counts (updating other url now) s k spares h = updating_counts other url now s.world.repo _ h
  move_counts (removal other) s k spares h =
      alike code _ _ s.world.repo (remove_sync other s.world.repo).1 refl
        (remove_others other s.world.repo code λ e. spares (sym e)) h

  -- Any number of redirections, in any order of their steps and of insertions, updates and removals
  -- of other codes by other requests: no hit is lost and none is counted twice. The hits of a code
  -- are those before, plus the redirections of the code that have recorded theirs, modulo 2^64.
  pub move_all-counts :
      (moves : List Move) (s : Flight D) (k : ℕ)
      → All (Spares code) moves
      → Holds code (k + count_of code s.redirections) s.world.repo
      → let s' = move_all redis serde moves s in
        Holds code (k + count_of code s'.redirections) s'.world.repo
  unfolding move_all
  move_all-counts [] s k spares h = h
  move_all-counts (m ∷ moves) s k (spare, spares) h =
      move_all-counts moves (move redis serde m s) k spares (move_counts m s k spare h)
