-- ===== src/Storage/InMemory/Calls.antt =====
-- The calls of the repository, and what its contract says of each.
use otus_rusthomework_http_a.Common.{
  ℕ, ◌+◌, ◌%◌, ◌^◌, String, Bool, false, not, Option, none, some, List, [], ◌∷◌, ◌++◌, filter,
  length, str_eq, if◌then◌else◌,
}
use otus_rusthomework_http_a.Common.Outcome.{Outcome, ok, err, panic}
use otus_rusthomework_http_a.Common.Dict.{lookup}
use otus_rusthomework_http_a.Common.Time.{SystemTime}
use otus_rusthomework_http_a.Domain.Link.{
  ShortLink, LinkStats, RepoError, code_taken, not_found, is_expired,
}
use otus_rusthomework_http_a.Storage.InMemory.{
  LinkEntry, InMemoryRepo, entry_stats, updated, insert_sync, get_sync, remove_sync,
  record_hit_sync, update_sync, stats_sync, purge_expired_sync,
}
use otus_rusthomework_http_a.Storage.InMemory.Codes.{codes_of}

-- A call of the repository other than a listing, and what it answers.
pub data Request : Type 0 where
  insert_link : ShortLink → Request
  get_link remove_link get_stats : String → Request
  hit_link : String → SystemTime → Request
  update_link : String → String → SystemTime → Request
  purge : SystemTime → Request

pub data Reply : Type 0 where
  done panicked : Reply
  a_link : ShortLink → Reply
  a_count : ℕ → Reply
  a_stats : LinkStats → Reply
  failed : RepoError → Reply

abbrev pub to_reply : {A : Type 0} → (A → Reply) → Outcome RepoError A → Reply
to_reply f (ok a) = f a
to_reply f (err e) = failed e
to_reply f panic = panicked

-- The repository's answer, and its state afterwards.
unfoldable pub perform : Request → InMemoryRepo → Reply × InMemoryRepo
perform (insert_link link) repo =
    let (r, repo') = insert_sync link repo in (to_reply (λ _. done) r, repo')
perform (get_link code) repo = let (r, repo') = get_sync code repo in (to_reply a_link r, repo')
perform (remove_link code) repo =
    let (r, repo') = remove_sync code repo in (to_reply (λ _. done) r, repo')
perform (get_stats code) repo = let (r, repo') = stats_sync code repo in (to_reply a_stats r, repo')
perform (hit_link code now) repo =
    let (r, repo') = record_hit_sync code now repo in (to_reply a_count r, repo')
perform (update_link code url now) repo =
    let (r, repo') = update_sync code url now repo in (to_reply a_link r, repo')
perform (purge now) repo = let (n, repo') = purge_expired_sync now repo in (a_count n, repo')

pub record Links : Type 0 where
  pub codes : List String
  pub find : String → Option LinkStats

abbrev pub links : List String → (String → Option LinkStats) → Links
links codes find = record { codes = codes; find = find }

unfoldable pub put :
    String → Option LinkStats → (String → Option LinkStats) → String → Option LinkStats
put code o find = λ j. if str_eq code j then o else find j

unfoldable pub due : SystemTime → Option LinkStats → Bool
due now none = false
due now (some s) = is_expired s.link now

unfoldable pub drop_expired : SystemTime → Option LinkStats → Option LinkStats
drop_expired now none = none
drop_expired now (some s) = if is_expired s.link now then none else some s

-- What the contract says of each call.
unfoldable pub specify : Request → Links → Reply × Links
unfolding put due drop_expired filter
specify (insert_link link) l = elim (l.find link.code) [
  | none ↦ (
    done,
    links (l.codes ++ link.code ∷ [])
        (put link.code (some (record { link = link; hits = 0 })) l.find),
  )
  | some _ ↦ (failed (code_taken link.code), l)
]
specify (get_link code) l = elim (l.find code) [
  | none ↦ (failed (not_found code), l)
  | some s ↦ (a_link s.link, l)
]
specify (remove_link code) l = elim (l.find code) [
  | none ↦ (failed (not_found code), l)
  | some _ ↦ (done, links (filter (λ j. not (str_eq j code)) l.codes) (put code none l.find))
]
specify (get_stats code) l = elim (l.find code) [
  | none ↦ (failed (not_found code), l)
  | some s ↦ (a_stats s, l)
]
specify (hit_link code now) l = elim (l.find code) [
  | none ↦ (failed (not_found code), l)
  | some s ↦
      let hits = (s.hits + 1) % 2 ^ 64 in
      (a_count hits, links l.codes (put code (some (record s { hits = hits })) l.find))
]
specify (update_link code url now) l = elim (l.find code) [
  | none ↦ (failed (not_found code), l)
  | some s ↦
      let link = updated s.link url now in
      (a_link link, links l.codes (put code (some (record s { link = link })) l.find))
]
specify (purge now) l = (
  a_count (length (filter (λ code. due now (l.find code)) l.codes)),
  links (filter (λ code. not (due now (l.find code))) l.codes)
      (λ code. drop_expired now (l.find code)),
)

unfoldable pub view_entry : Option LinkEntry → Option LinkStats
unfolding entry_stats
view_entry none = none
view_entry (some e) = some (entry_stats e)

-- The links that the repository stands for.
unfoldable pub view : InMemoryRepo → Links
unfolding view_entry
view repo = links (codes_of repo.inner) (λ code. view_entry (lookup code repo.inner))
