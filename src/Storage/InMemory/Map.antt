-- ===== src/Storage/InMemory/Map.antt =====
-- The invariant of the repository: a code names one entry, whose link has that code.
use otus_rusthomework_http_a.Common.{
  ◌+◌, ◌%◌, ◌^◌, String, ◌≡◌, refl, sym, ◌≢◌, some, List, [], ◌∷◌, arith, All, Option-cases, inl,
  inr, eq_iff, subst, ◌∙◌,
}
use otus_rusthomework_http_a.Common.Dict.{
  Dict, lookup, insert, remove, IsFresh, HasDistinctKeys, insert-HasDistinctKeys,
  remove-HasDistinctKeys,
}
use otus_rusthomework_http_a.Common.Sorting.{Pairwise, sort_by-Pairwise}
use otus_rusthomework_http_a.Common.Time.{SystemTime}
use otus_rusthomework_http_a.Domain.Link.{ShortLink}
use otus_rusthomework_http_a.Storage.InMemory.{
  LinkEntry, InMemoryRepo, insert_sync, remove_sync, record_hit_sync, update_sync, updated,
  newer_first, new_entry, expired_codes, remove_codes, purge_expired_sync, sorted_links, links_of,
}

-- Each entry's link has the entry's key for its code.
abbrev pub HasOwnKeys : Dict LinkEntry → Type 0
HasOwnKeys = All (λ e. e.1.link.code ≡ e.0)

pub record IsWellFormed (repo : InMemoryRepo) : Type 0 where
  pub distinct : HasDistinctKeys repo.inner
  pub own : HasOwnKeys repo.inner

insert-HasOwnKeys :
    (code : String) (e : LinkEntry) (m : Dict LinkEntry)
    → e.link.code ≡ code
    → HasOwnKeys m
    → HasOwnKeys (insert code e m)
unfolding insert
insert-HasOwnKeys code e [] h k = (h, tt)
insert-HasOwnKeys code e ((j, f) ∷ m) h (own, k) =
    ground (arith, eq_iff j code, insert-HasOwnKeys code e m h k)

remove-HasOwnKeys : (code : String) (m : Dict LinkEntry) → HasOwnKeys m → HasOwnKeys (remove code m)
unfolding remove
remove-HasOwnKeys code [] k = tt
remove-HasOwnKeys code ((j, f) ∷ m) (own, k) = ground (arith, remove-HasOwnKeys code m k)

pub own_of_lookup :
    (code : String) (e : LinkEntry) (m : Dict LinkEntry)
    → HasOwnKeys m
    → lookup code m ≡ some e
    → e.link.code ≡ code
unfolding lookup
own_of_lookup code e [] k h = cc
own_of_lookup code e ((j, f) ∷ m) (own, k) h =
    ground (arith, eq_iff j code, own_of_lookup code e m k)

module _ (repo : InMemoryRepo) (w : IsWellFormed repo) where
  -- A write of an entry under the code of its link.
  insert-IsWellFormed :
      (code : String) (e : LinkEntry)
      → e.link.code ≡ code
      → HasDistinctKeys (insert code e repo.inner) × HasOwnKeys (insert code e repo.inner)
  insert-IsWellFormed code e h = (
    insert-HasDistinctKeys code e repo.inner w.distinct,
    insert-HasOwnKeys code e repo.inner h w.own,
  )

  pub insert_sync-IsWellFormed : (link : ShortLink) → IsWellFormed (insert_sync link repo).1
  unfolding insert_sync
  insert_sync-IsWellFormed link = elim (Option-cases (lookup link.code repo.inner)) [
    | inl free ↦
        rw (free, insert_sync)
          (let (d, o) = insert-IsWellFormed link.code (new_entry link) (unfold new_entry in refl) in
            record { distinct = d; own = o })
    | inr (e, taken) ↦ rw (taken, insert_sync) w
  ]

  pub remove_sync-IsWellFormed : (code : String) → IsWellFormed (remove_sync code repo).1
  unfolding remove_sync
  remove_sync-IsWellFormed code = elim (Option-cases (lookup code repo.inner)) [
    | inl absent ↦ rw (absent, remove_sync) w
    | inr (e, there) ↦
        rw (there, remove_sync)
          (record {
            distinct = remove-HasDistinctKeys code repo.inner w.distinct;
            own = remove-HasOwnKeys code repo.inner w.own;
          })
  ]

  pub record_hit_sync-IsWellFormed :
      (code : String) (now : SystemTime) → IsWellFormed (record_hit_sync code now repo).1
  unfolding record_hit_sync
  record_hit_sync-IsWellFormed code now = elim (Option-cases (lookup code repo.inner)) [
    | inl absent ↦ rw (absent, record_hit_sync) w
    | inr (e, there) ↦
        rw (there, record_hit_sync)
          (let (d, o) =
              insert-IsWellFormed code (record e { hits = (e.hits + 1) % 2 ^ 64 })
                (own_of_lookup code e repo.inner w.own there) in
            record { distinct = d; own = o })
  ]

  pub update_sync-IsWellFormed :
      (code url : String) (now : SystemTime) → IsWellFormed (update_sync code url now repo).1
  unfolding update_sync updated
  update_sync-IsWellFormed code url now = elim (Option-cases (lookup code repo.inner)) [
    | inl absent ↦ rw (absent, update_sync) w
    | inr (e, there) ↦
        rw (there, update_sync)
          (let (d, o) =
              insert-IsWellFormed code (record e { link = updated e.link url now })
                (own_of_lookup code e repo.inner w.own there) in
            record { distinct = d; own = o })
  ]

pub remove_codes-IsWellFormed :
    (codes : List String) (repo : InMemoryRepo)
    → IsWellFormed repo
    → IsWellFormed (remove_codes codes repo)
unfolding remove_codes
remove_codes-IsWellFormed [] repo w = w
remove_codes-IsWellFormed (code ∷ codes) repo w = remove_codes-IsWellFormed codes _ (record {
  distinct = remove-HasDistinctKeys code repo.inner w.distinct;
  own = remove-HasOwnKeys code repo.inner w.own;
})

pub purge_expired_sync-IsWellFormed :
    (now : SystemTime) (repo : InMemoryRepo)
    → IsWellFormed repo
    → IsWellFormed (purge_expired_sync now repo).1
unfolding purge_expired_sync
purge_expired_sync-IsWellFormed now repo w =
    remove_codes-IsWellFormed (expired_codes now repo.inner) repo w

-- Links with distinct codes.
abbrev pub OtherCode : ShortLink → ShortLink → Type 0
OtherCode a b = a.code ≢ b.code

links-OtherCode :
    (link : ShortLink) (m : Dict LinkEntry)
    → IsFresh link.code m
    → HasOwnKeys m
    → All (OtherCode link) (links_of m)
unfolding links_of
links-OtherCode link [] f o = tt
links-OtherCode link ((j, e) ∷ m) (n, f) (own, o) =
    ((λ same. n (sym own ∙ sym same)), links-OtherCode link m f o)

links-Pairwise :
    (m : Dict LinkEntry) → HasDistinctKeys m → HasOwnKeys m → Pairwise OtherCode (links_of m)
unfolding links_of
links-Pairwise [] d o = tt
links-Pairwise ((j, e) ∷ m) (f, d) (own, o) =
    (links-OtherCode e.link m (subst (λ k. IsFresh k m) (sym own) f) o, links-Pairwise m d o)

-- The listing holds every code once.
pub sorted_links-Pairwise :
    (repo : InMemoryRepo) → IsWellFormed repo → Pairwise OtherCode (sorted_links repo)
unfolding sorted_links
sorted_links-Pairwise repo w =
    sort_by-Pairwise newer_first OtherCode (λ a b h e. h (sym e)) (links_of repo.inner)
      (links-Pairwise repo.inner w.distinct w.own)
