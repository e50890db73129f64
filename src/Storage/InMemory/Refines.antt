-- ===== src/Storage/InMemory/Refines.antt =====
-- The repository against its specification: the codes that are stored, and what each of them finds.
use mathlib.Core.Path.{fun_ext, ap₂}
use otus_rusthomework_http_a.Common.{
  ◌+◌, ◌%◌, ◌^◌, String, ◌≡◌, refl, sym, ap, ◌∙◌, not, none, some, List, [], ◌∷◌, ◌++◌, arith,
  filter, length, All, Option-cases, inl, inr, str_eq,
}
use otus_rusthomework_http_a.Common.Dict.{
  Dict, lookup, insert, remove, lookup-filter, lookup-insert, lookup-remove,
}
use otus_rusthomework_http_a.Common.Time.{SystemTime}
use otus_rusthomework_http_a.Domain.Link.{ShortLink}
use otus_rusthomework_http_a.Domain.Stats.{StatsStorage}
use otus_rusthomework_http_a.Storage.InMemory.{
  LinkEntry, InMemoryRepo, new_entry, entry_stats, updated, insert_sync, get_sync, remove_sync,
  record_hit_sync, update_sync, stats_sync,
}
use otus_rusthomework_http_a.Storage.InMemory.Calls.{
  Request, insert_link, get_link, remove_link, get_stats, hit_link, update_link, purge, Reply,
  a_count, perform, Links, links, put, due, drop_expired, specify, view_entry, view,
}
use otus_rusthomework_http_a.Storage.InMemory.Map.{
  IsWellFormed, insert_sync-IsWellFormed, remove_sync-IsWellFormed, record_hit_sync-IsWellFormed,
  update_sync-IsWellFormed, purge_expired_sync-IsWellFormed,
}
use otus_rusthomework_http_a.Storage.InMemory.Codes.{
  codes_of, codes_of-insert_new, codes_of-insert_old, codes_of-remove, codes_of-filter,
  length-codes_of, entries-found, of-found,
}
use otus_rusthomework_http_a.Storage.InMemory.Purge.{has_expired, purge_expired_sync_lem}

module _ (repo : InMemoryRepo) (code : String) where
  find-insert :
      (e : LinkEntry)
      → (λ j. view_entry (lookup j (insert code e repo.inner)))
        ≡ put code (some (entry_stats e)) (view repo).find
  unfolding view put
  find-insert e = fun_ext (λ j. ground (arith, lookup-insert code j e repo.inner))

  -- An entry under a new code, and one in place of another.
  view-insert_new :
      (e : LinkEntry) (stats : StatsStorage)
      → lookup code repo.inner ≡ none
      → view (record { inner = insert code e repo.inner; stats = stats })
        ≡ links ((view repo).codes ++ code ∷ []) (put code (some (entry_stats e)) (view repo).find)
  unfolding view
  view-insert_new e stats free =
      ap₂ links (codes_of-insert_new code e repo.inner free) (find-insert e)

  view-insert_old :
      (e old : LinkEntry) (stats : StatsStorage)
      → lookup code repo.inner ≡ some old
      → view (record { inner = insert code e repo.inner; stats = stats })
        ≡ links (view repo).codes (put code (some (entry_stats e)) (view repo).find)
  unfolding view
  view-insert_old e old stats there =
      ap₂ links (codes_of-insert_old code e old repo.inner there) (find-insert e)

  view-remove :
      (stats : StatsStorage)
      → view (record { inner = remove code repo.inner; stats = stats })
        ≡ links
            (filter (λ j. not (str_eq j code)) (view repo).codes)
            (put code none (view repo).find)
  unfolding view put
  view-remove stats =
      ap₂ links (codes_of-remove code repo.inner)
        (fun_ext (λ j. ground (arith, lookup-remove code j repo.inner)))

-- The call of the repository does what the contract says of the call on the links.
abbrev pub Meets : Request → InMemoryRepo → Type 0
Meets r repo =
    ((perform r repo).0 ≡ (specify r (view repo)).0)
    × (view (perform r repo).1 ≡ (specify r (view repo)).1)

module _ (repo : InMemoryRepo) where
  insert_link-Meets : (link : ShortLink) → Meets (insert_link link) repo
  unfolding perform specify view insert_sync
  insert_link-Meets link = elim (Option-cases (lookup link.code repo.inner)) [
    | inl free ↦
        rw (free, insert_sync, specify)
          (refl, view-insert_new repo link.code (new_entry link) repo.stats free)
    | inr (e, taken) ↦ rw (taken, insert_sync, specify, view) (refl, refl)
  ]

  get_link-Meets : (code : String) → Meets (get_link code) repo
  unfolding perform specify view get_sync
  get_link-Meets code = elim (Option-cases (lookup code repo.inner)) [
    | inl absent ↦ rw (absent, get_sync, specify, view) (refl, refl)
    | inr (e, there) ↦ rw (there, get_sync, specify, view) (refl, refl)
  ]

  get_stats-Meets : (code : String) → Meets (get_stats code) repo
  unfolding perform specify view stats_sync
  get_stats-Meets code = elim (Option-cases (lookup code repo.inner)) [
    | inl absent ↦ rw (absent, stats_sync, specify, view) (refl, refl)
    | inr (e, there) ↦ rw (there, stats_sync, specify, view) (refl, refl)
  ]

  remove_link-Meets : (code : String) → Meets (remove_link code) repo
  unfolding perform specify view remove_sync
  remove_link-Meets code = elim (Option-cases (lookup code repo.inner)) [
    | inl absent ↦ rw (absent, remove_sync, specify, view) (refl, refl)
    | inr (e, there) ↦
        rw (there, remove_sync, specify, view) (refl, view-remove repo code repo.stats)
  ]

  hit_link-Meets : (code : String) (now : SystemTime) → Meets (hit_link code now) repo
  unfolding perform specify view record_hit_sync
  hit_link-Meets code now = elim (Option-cases (lookup code repo.inner)) [
    | inl absent ↦ rw (absent, record_hit_sync, specify, view) (refl, refl)
    | inr (e, there) ↦
        rw (there, record_hit_sync, specify, view)
          (
            refl,
            view-insert_old repo code (record e { hits = (e.hits + 1) % 2 ^ 64 }) e repo.stats
                there,
          )
  ]

  update_link-Meets : (code url : String) (now : SystemTime) → Meets (update_link code url now) repo
  unfolding perform specify view update_sync
  update_link-Meets code url now = elim (Option-cases (lookup code repo.inner)) [
    | inl absent ↦ rw (absent, update_sync, specify, view) (refl, refl)
    | inr (e, there) ↦
        rw (there, update_sync, specify, view)
          (
            refl,
            view-insert_old repo code (record e { link = updated e.link url now }) e repo.stats
                there,
          )
  ]

  -- Of each entry, whether its code finds a link that is due.
  codes-due :
      (now : SystemTime)
      → IsWellFormed repo
      → All (λ e. due now (view_entry (lookup e.0 repo.inner)) ≡ has_expired now e) repo.inner
  unfolding due view_entry entry_stats
  codes-due now w =
      of-found (has_expired now) (λ o. due now (view_entry o)) repo.inner repo.inner (λ e. refl)
        (entries-found repo.inner w.distinct)

  codes-not-due :
      (now : SystemTime)
      → IsWellFormed repo
      → All
          (λ e. not (due now (view_entry (lookup e.0 repo.inner))) ≡ not (has_expired now e))
          repo.inner
  unfolding due view_entry entry_stats
  codes-not-due now w =
      of-found (λ e. not (has_expired now e)) (λ o. not (due now (view_entry o))) repo.inner
        repo.inner (λ e. refl) (entries-found repo.inner w.distinct)

  purge-Meets : (now : SystemTime) → IsWellFormed repo → Meets (purge now) repo
  unfolding perform specify view
  purge-Meets now w =
      let (kept, counted, windows) = purge_expired_sync_lem now repo w in
      (
        ap a_count (
            counted
            ∙ sym (length-codes_of (filter (has_expired now) repo.inner))
            ∙ ap (λ (l : List String). length l)
                (codes_of-filter (has_expired now) _ repo.inner (codes-due now w))),
        ap (λ (m : Dict LinkEntry). links (codes_of m) (λ code. view_entry (lookup code m))) kept
            ∙ ap₂ links (codes_of-filter _ _ repo.inner (codes-not-due now w)) (
                fun_ext (λ code.
                  ap view_entry
                    (lookup-filter (λ e. not (has_expired now e)) code repo.inner w.distinct)
                  ∙ unfold view_entry entry_stats drop_expired in ground arith)),
      )

  -- Each call of a well-formed repository does what the contract says, on every branch.
  pub perform-Meets : (r : Request) → IsWellFormed repo → Meets r repo
  perform-Meets (insert_link link) w = insert_link-Meets link
  perform-Meets (get_link code) w = get_link-Meets code
  perform-Meets (remove_link code) w = remove_link-Meets code
  perform-Meets (get_stats code) w = get_stats-Meets code
  perform-Meets (hit_link code now) w = hit_link-Meets code now
  perform-Meets (update_link code url now) w = update_link-Meets code url now
  perform-Meets (purge now) w = purge-Meets now w

  pub perform-IsWellFormed : (r : Request) → IsWellFormed repo → IsWellFormed (perform r repo).1
  unfolding perform
  perform-IsWellFormed (insert_link link) w = insert_sync-IsWellFormed repo w link
  perform-IsWellFormed (get_link code) w = unfold get_sync in ground arith
  perform-IsWellFormed (remove_link code) w = remove_sync-IsWellFormed repo w code
  perform-IsWellFormed (get_stats code) w = unfold stats_sync in ground arith
  perform-IsWellFormed (hit_link code now) w = record_hit_sync-IsWellFormed repo w code now
  perform-IsWellFormed (update_link code url now) w = update_sync-IsWellFormed repo w code url now
  perform-IsWellFormed (purge now) w = purge_expired_sync-IsWellFormed now repo w

-- The answers to calls in a row.
pub replies : List Request → InMemoryRepo → List Reply
replies [] repo = []
replies (r ∷ rs) repo = (perform r repo).0 ∷ replies rs (perform r repo).1

pub contract_replies : List Request → Links → List Reply
contract_replies [] l = []
contract_replies (r ∷ rs) l = (specify r l).0 ∷ contract_replies rs (specify r l).1

-- A well-formed repository answers any calls in a row, other than listings, as the contract does on
-- the codes and the links that the repository stands for, with the number that each purge removes.
pub replies-eq-contract_replies :
    (rs : List Request) (repo : InMemoryRepo)
    → IsWellFormed repo
    → replies rs repo ≡ contract_replies rs (view repo)
unfolding replies contract_replies
replies-eq-contract_replies [] repo w = refl
replies-eq-contract_replies (r ∷ rs) repo w =
    let (reply, after) = perform-Meets repo r w in
    let ih = replies-eq-contract_replies rs (perform r repo).1 (perform-IsWellFormed repo r w) in
    ap₂ ◌∷◌ reply (ih ∙ ap (contract_replies rs) after)
