-- ===== src/Storage/InMemory/Contract.antt =====
-- The repository in memory keeps the contract that the server relies on.
use otus_rusthomework_http_a.Common.{
  ℕ, ◌+◌, ◌%◌, ◌^◌, String, ◌≡◌, refl, sym, ◌≢◌, Option, none, some, Option-cases, inl, inr, arith,
  ap,
}
use otus_rusthomework_http_a.Common.Outcome.{Outcome, ok, err}
use otus_rusthomework_http_a.Common.Dict.{lookup, lookup-insert_ne, lookup-remove_ne, eq_cases}
use otus_rusthomework_http_a.Common.Time.{SystemTime}
use otus_rusthomework_http_a.Domain.Link.{
  ShortLink, LinkStats, IsLinkRepository, RepoError, not_found,
}
use otus_rusthomework_http_a.Storage.InMemory.{
  LinkEntry, InMemoryRepo, in_memory, insert_sync, get_sync, remove_sync, record_hit_sync,
  update_sync, stats_sync, entry_stats, new_entry, updated,
}

stats_of : String → Option LinkEntry → Outcome RepoError LinkStats
unfolding entry_stats
stats_of code none = err (not_found code)
stats_of code (some e) = ok (entry_stats e)

stats_sync-eq :
    (code : String) (repo : InMemoryRepo)
    → (stats_sync code repo).0 ≡ stats_of code (lookup code repo.inner)
unfolding stats_sync stats_of
stats_sync-eq code repo = ground arith

-- The statistics of a code depend on its entry only.
same_stats :
    (code : String) (a b : InMemoryRepo)
    → lookup code a.inner ≡ lookup code b.inner
    → (stats_sync code a).0 ≡ (stats_sync code b).0
same_stats code a b e =
    ground (arith, stats_sync-eq code a, stats_sync-eq code b, ap (stats_of code) e)

answered_alike :
    (code : String) {a b : InMemoryRepo} → a ≡ b → (stats_sync code a).0 ≡ (stats_sync code b).0
answered_alike code e = ap (λ r. (stats_sync code r).0) e

insert_keeps :
    (link : ShortLink) (repo : InMemoryRepo) (code : String) (s : LinkStats)
    → (stats_sync code repo).0 ≡ ok s
    → (stats_sync code (insert_sync link repo).1).0 ≡ ok s
unfolding stats_sync insert_sync
insert_keeps link repo code s h = elim (eq_cases link.code code) [
  | inl same ↦ ground (arith, same)
  | inr other ↦ ground (arith, lookup-insert_ne link.code code (new_entry link) repo.inner other)
]

pub update_others :
    (code url : String) (now : SystemTime) (repo : InMemoryRepo) (other : String)
    → other ≢ code
    → lookup other (update_sync code url now repo).1.inner ≡ lookup other repo.inner
unfolding update_sync
update_others code url now repo other n =
    let ne : code ≢ other = λ e. n (sym e) in
    elim (Option-cases (lookup code repo.inner)) [
      | inl absent ↦ ground (arith, absent)
      | inr found ↦ ground (
        arith,
        found.1,
        lookup-insert_ne code other (record found.0 { link = updated found.0.link url now })
            repo.inner ne,
      )
    ]

pub remove_others :
    (code : String) (repo : InMemoryRepo) (other : String)
    → other ≢ code
    → lookup other (remove_sync code repo).1.inner ≡ lookup other repo.inner
unfolding remove_sync
remove_others code repo other n =
    let ne : code ≢ other = λ e. n (sym e) in
    elim (Option-cases (lookup code repo.inner)) [
      | inl absent ↦ ground (arith, absent)
      | inr found ↦ ground (arith, found.1, lookup-remove_ne code other repo.inner ne)
    ]

hit_others :
    (code : String) (now : SystemTime) (repo : InMemoryRepo) (other : String)
    → other ≢ code
    → lookup other (record_hit_sync code now repo).1.inner ≡ lookup other repo.inner
unfolding record_hit_sync
hit_others code now repo other n =
    let ne : code ≢ other = λ e. n (sym e) in
    elim (Option-cases (lookup code repo.inner)) [
      | inl absent ↦ ground (arith, absent)
      | inr found ↦ ground (
        arith,
        found.1,
        lookup-insert_ne code other (record found.0 { hits = (found.0.hits + 1) % 2 ^ 64 })
            repo.inner ne,
      )
    ]

module _ (code : String) (repo : InMemoryRepo) where
  pub get_keeps : (get_sync code repo).1 ≡ repo
  unfolding get_sync
  get_keeps = ground arith

  stats_keeps : (stats_sync code repo).1 ≡ repo
  unfolding stats_sync
  stats_keeps = ground arith

  update_fails :
      (url : String) (now : SystemTime)
      → ((link : ShortLink) → (update_sync code url now repo).0 ≢ ok link)
      → (update_sync code url now repo).1 ≡ repo
  unfolding update_sync
  update_fails url now h = elim (Option-cases (lookup code repo.inner)) [
    | inl absent ↦ ground (arith, absent)
    | inr found ↦ ground (arith, found.1, h (updated found.0.link url now))
  ]

  remove_fails : ((u : Unit) → (remove_sync code repo).0 ≢ ok u) → (remove_sync code repo).1 ≡ repo
  unfolding remove_sync
  remove_fails h = ground (arith, h tt)

  hit_fails :
      (now : SystemTime)
      → ((n : ℕ) → (record_hit_sync code now repo).0 ≢ ok n)
      → (record_hit_sync code now repo).1 ≡ repo
  unfolding record_hit_sync
  hit_fails now h = elim (Option-cases (lookup code repo.inner)) [
    | inl absent ↦ ground (arith, absent)
    | inr found ↦ ground (arith, found.1, h ((found.0.hits + 1) % 2 ^ 64))
  ]

-- The repository in memory changes what it stores for the code of a call only, and for a call that
-- succeeds only; an insertion keeps every stored link.
pub in_memory-IsLinkRepository : IsLinkRepository in_memory
in_memory-IsLinkRepository = record {
  get_keeps = λ code r other. answered_alike other (get_keeps code r);
  stats_keeps = λ code r other. answered_alike other (stats_keeps code r);
  list_keeps = λ limit c r other. refl;
  insert_keeps = λ link now. insert_keeps link;
  update_others =
      λ code url version now r other n. same_stats other _ _ (update_others code url now r other n);
  update_fails =
      λ code url version now r h other. answered_alike other (update_fails code r url now h);
  remove_others = λ code r other n. same_stats other _ _ (remove_others code r other n);
  remove_fails = λ code r h other. answered_alike other (remove_fails code r h);
  hit_others = λ code now r other n. same_stats other _ _ (hit_others code now r other n);
  hit_fails = λ code now r h other. answered_alike other (hit_fails code r now h);
}
