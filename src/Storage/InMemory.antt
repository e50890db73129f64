-- ===== src/Storage/InMemory.antt =====
-- crates/storage/src/in_memory.rs: the repository in memory. Each operation runs under the lock of
-- `inner`, so that it is one step of the state.
pub mod Order
pub mod Map
pub mod Paging
pub mod Codes
pub mod Calls
pub mod Refines
pub mod Purge
pub mod Contract
pub mod Tests
use otus_rusthomework_http_a.Common.{
  ℕ, zero, suc, ◌+◌, ◌-◌, ◌%◌, ◌^◌, String, Bool, true, false, ◌&&◌, ◌||◌, Option, none, some, List,
  [], ◌∷◌, map, ltb, if◌then◌else◌, length, take, drop, last, position, filter, min, ℤ, eq_ℤ, leb_ℤ,
  i64_succ, str_eq,
}
use otus_rusthomework_http_a.Common.Outcome.{Outcome, ok, err, panic, Exec}
use otus_rusthomework_http_a.Common.Dict.{Dict, lookup, insert, remove, values}
use otus_rusthomework_http_a.Common.Text.{str_leb, to_string}
use otus_rusthomework_http_a.Common.Time.{SystemTime, as_unix_secs}
use otus_rusthomework_http_a.Common.Sorting.{sort_by}
use otus_rusthomework_http_a.Domain.Link.{
  ShortLink, LinkStats, RepoError, code_taken, not_found, is_expired, LinkRepository,
}
use otus_rusthomework_http_a.Domain.Stats.{StatsStorage, record_hit_for, remove_stats}

-- The atomic counter is a number below 2^64.
pub record LinkEntry : Type 0 where
  pub link : ShortLink
  pub hits : ℕ

pub record InMemoryRepo : Type 0 where
  pub inner : Dict LinkEntry
  pub stats : StatsStorage

abbrev pub Cursor : Type 0
Cursor = Option (String × String)

abbrev pub empty : InMemoryRepo
empty = record { inner = []; stats = [] }

unfoldable pub new_entry : ShortLink → LinkEntry
new_entry link = record { link = link; hits = 0 }

unfoldable pub entry_stats : LinkEntry → LinkStats
entry_stats e = record { link = e.link; hits = e.hits }

unfoldable pub insert_sync : ShortLink → Exec InMemoryRepo RepoError Unit
unfolding lookup insert new_entry
insert_sync link repo = elim (lookup link.code repo.inner) [
  | some _ ↦ (err (code_taken link.code), repo)
  | none ↦ (ok tt, record repo { inner = insert link.code (new_entry link) repo.inner })
]

unfoldable pub get_sync : String → Exec InMemoryRepo RepoError ShortLink
unfolding lookup
get_sync code repo = elim (lookup code repo.inner) [
  | some e ↦ (ok e.link, repo)
  | none ↦ (err (not_found code), repo)
]

-- The window of the code stays in `stats`.
unfoldable pub remove_sync : String → Exec InMemoryRepo RepoError Unit
unfolding lookup remove
remove_sync code repo = elim (lookup code repo.inner) [
  | some _ ↦ (ok tt, record repo { inner = remove code repo.inner })
  | none ↦ (err (not_found code), repo)
]

-- `fetch_add(1) + 1`, and a hit in the window.
unfoldable pub record_hit_sync : String → SystemTime → Exec InMemoryRepo RepoError ℕ
unfolding lookup insert record_hit_for
record_hit_sync code now repo = elim (lookup code repo.inner) [
  | some e ↦
      let new_hits = (e.hits + 1) % 2 ^ 64 in
      (
        ok new_hits,
        record {
          inner = insert code (record e { hits = new_hits }) repo.inner;
          stats = record_hit_for repo.stats code now;
        },
      )
  | none ↦ (err (not_found code), repo)
]

unfoldable pub updated : ShortLink → String → SystemTime → ShortLink
unfolding i64_succ
updated link target_url now = record link {
  target_url = target_url;
  updated_at = now;
  version = i64_succ link.version;
}

unfoldable pub update_sync : String → String → SystemTime → Exec InMemoryRepo RepoError ShortLink
unfolding lookup insert updated
update_sync code target_url now repo = elim (lookup code repo.inner) [
  | some e ↦
      let link = updated e.link target_url now in
      (ok link, record repo { inner = insert code (record e { link = link }) repo.inner })
  | none ↦ (err (not_found code), repo)
]

-- `b.created_at.cmp(&a.created_at).then(b.code.cmp(&a.code))` does not put `b` before `a`.
unfoldable pub newer_first : ShortLink → ShortLink → Bool
unfolding str_leb
newer_first a b =
    if eq_ℤ a.created_at b.created_at
    then str_leb b.code a.code
    else leb_ℤ b.created_at a.created_at

unfoldable pub cursor_of : ShortLink → String × String
unfolding to_string as_unix_secs
cursor_of link = (to_string (as_unix_secs link.created_at), link.code)

unfoldable pub is_at_cursor : String × String → ShortLink → Bool
unfolding cursor_of
is_at_cursor c link = str_eq (cursor_of link).0 c.0 && str_eq link.code c.1

unfoldable pub start_of : Cursor → List ShortLink → ℕ
unfolding is_at_cursor position
start_of none entries = 0
start_of (some c) entries = elim (position (is_at_cursor c) entries) [ none ↦ 0 | some i ↦ i + 1 ]

-- `entries[start..end].to_vec()`, which panics where the range is not one.
unfoldable pub slice {ℓ} : {A : Type ℓ} {E : Type ℓ} → List A → ℕ → ℕ → Outcome E (List A)
slice xs start end =
    if ltb end start || ltb (length xs) end then panic else ok (take (end - start) (drop start xs))

abbrev pub Page : Type 0
Page = List ShortLink × Cursor

unfoldable pub page_of : Outcome RepoError (List ShortLink) → Outcome RepoError Page
unfolding cursor_of
page_of (ok page) = ok (page, elim (last page) [ none ↦ none | some link ↦ some (cursor_of link) ])
page_of (err e) = err e
page_of panic = panic

unfoldable pub links_of : Dict LinkEntry → List ShortLink
links_of m = map (λ e. e.link) (values m)

-- The links in the order of the listing.
unfoldable pub sorted_links : InMemoryRepo → List ShortLink
unfolding sort_by newer_first links_of
sorted_links repo = sort_by newer_first (links_of repo.inner)

-- The page of sorted entries. The sum of two `usize` wraps.
unfoldable pub list_entries : ℕ → Cursor → List ShortLink → Outcome RepoError Page
unfolding start_of slice page_of
list_entries limit cursor entries =
    let start = start_of cursor entries in
    let end = min ((start + limit) % 2 ^ 64) (length entries) in page_of (slice entries start end)

unfoldable pub list_sync : ℕ → Cursor → InMemoryRepo → Outcome RepoError Page
unfolding list_entries sorted_links
list_sync limit cursor repo = list_entries limit cursor (sorted_links repo)

unfoldable pub stats_sync : String → Exec InMemoryRepo RepoError LinkStats
unfolding lookup entry_stats
stats_sync code repo = elim (lookup code repo.inner) [
  | some e ↦ (ok (entry_stats e), repo)
  | none ↦ (err (not_found code), repo)
]

unfoldable pub expired_codes : SystemTime → Dict LinkEntry → List String
unfolding is_expired filter
expired_codes now inner = map (λ e. e.0) (filter (λ e. is_expired e.1.link now) inner)

-- The loop over `expired_codes`.
unfoldable pub remove_codes : List String → InMemoryRepo → InMemoryRepo
unfolding remove remove_stats
remove_codes [] repo = repo
remove_codes (code ∷ codes) repo =
    remove_codes codes
      (record { inner = remove code repo.inner; stats = remove_stats repo.stats code })

unfoldable pub purge_expired_sync : SystemTime → InMemoryRepo → ℕ × InMemoryRepo
unfolding expired_codes remove_codes
purge_expired_sync now repo =
    let purged = remove_codes (expired_codes now repo.inner) repo in
    (length repo.inner - length purged.inner, purged)

-- `impl LinkRepository for InMemoryRepo`: the version of an update is not looked at.
abbrev pub in_memory : LinkRepository InMemoryRepo
in_memory = record {
  insert = λ link now. insert_sync link;
  get = get_sync;
  update = λ code target_url version now. update_sync code target_url now;
  remove = remove_sync;
  record_hit = record_hit_sync;
  stats = stats_sync;
  list = λ limit cursor repo. (list_sync limit cursor repo, repo);
  purge_expired = purge_expired_sync;
}
