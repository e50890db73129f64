-- ===== src/Domain/Link.antt =====
-- crates/domain/src/lib.rs: the short link, its errors, and the contract of a repository.
use otus_rusthomework_http_a.Common.{
  ℕ, ℤ, pos, String, Bool, false, Option, none, some, List, leb_ℤ, ◌≡◌, ◌≢◌,
}
use otus_rusthomework_http_a.Common.Outcome.{Exec, ok}
use otus_rusthomework_http_a.Common.Time.{SystemTime}

-- An id is a UUID in its text form.
pub record ShortLink : Type 0 where
  pub id : Option String
  pub code : String
  pub target_url : String
  pub created_at : SystemTime
  pub updated_at : SystemTime
  pub expires_at : Option SystemTime
  pub version : ℤ

pub record LinkStats : Type 0 where
  pub link : ShortLink
  pub hits : ℕ

-- `internal` carries the message of the `anyhow::Error`.
pub data RepoError : Type 0 where
  code_taken not_found : String → RepoError
  version_conflict unavailable : RepoError
  internal : String → RepoError

-- `now` is the reading of the clock.
unfoldable pub new : String → String → SystemTime → ShortLink
new code target_url now = record {
  id = none;
  code = code;
  target_url = target_url;
  created_at = now;
  updated_at = now;
  expires_at = none;
  version = pos 1;
}

unfoldable pub with_expires_at : ShortLink → SystemTime → ShortLink
with_expires_at link expires_at = record link { expires_at = some expires_at }

unfoldable pub is_expired : ShortLink → SystemTime → Bool
is_expired link now = elim link.expires_at [ none ↦ false | some exp ↦ leb_ℤ exp now ]

-- The trait, over the state `R` of a repository. An operation that reads the clock, itself or in
-- the database, has the reading as its last argument.
pub record LinkRepository (R : Type 0) : Type 0 where
  pub insert : ShortLink → SystemTime → Exec R RepoError Unit
  pub get : String → Exec R RepoError ShortLink
  pub update : String → String → ℤ → SystemTime → Exec R RepoError ShortLink
  pub remove : String → Exec R RepoError Unit
  pub record_hit : String → SystemTime → Exec R RepoError ℕ
  pub stats : String → Exec R RepoError LinkStats
  pub list :
      ℕ → Option (String × String) → Exec R RepoError (List ShortLink × Option (String × String))
  pub purge_expired : SystemTime → R → ℕ × R

-- What the clients of the trait rely on, as the statistics show it: only an insertion, an update, a
-- removal or a hit changes what is stored, each for its own code, and none of them where it fails.
pub record IsLinkRepository {R : Type 0} (repo : LinkRepository R) : Type 0 where
  pub get_keeps :
      (code : String) (r : R) (other : String)
      → (repo.stats other (repo.get code r).1).0 ≡ (repo.stats other r).0
  pub stats_keeps :
      (code : String) (r : R) (other : String)
      → (repo.stats other (repo.stats code r).1).0 ≡ (repo.stats other r).0
  pub list_keeps :
      (limit : ℕ) (c : Option (String × String)) (r : R) (other : String)
      → (repo.stats other (repo.list limit c r).1).0 ≡ (repo.stats other r).0
  pub insert_keeps :
      (link : ShortLink) (now : SystemTime) (r : R) (code : String) (s : LinkStats)
      → (repo.stats code r).0 ≡ ok s
      → (repo.stats code (repo.insert link now r).1).0 ≡ ok s
  pub update_others :
      (code url : String) (version : ℤ) (now : SystemTime) (r : R) (other : String)
      → other ≢ code
      → (repo.stats other (repo.update code url version now r).1).0 ≡ (repo.stats other r).0
  pub update_fails :
      (code url : String) (version : ℤ) (now : SystemTime) (r : R)
      → ((link : ShortLink) → (repo.update code url version now r).0 ≢ ok link)
      → (other : String)
      → (repo.stats other (repo.update code url version now r).1).0 ≡ (repo.stats other r).0
  pub remove_others :
      (code : String) (r : R) (other : String)
      → other ≢ code
      → (repo.stats other (repo.remove code r).1).0 ≡ (repo.stats other r).0
  pub remove_fails :
      (code : String) (r : R)
      → ((u : Unit) → (repo.remove code r).0 ≢ ok u)
      → (other : String) → (repo.stats other (repo.remove code r).1).0 ≡ (repo.stats other r).0
  pub hit_others :
      (code : String) (now : SystemTime) (r : R) (other : String)
      → other ≢ code
      → (repo.stats other (repo.record_hit code now r).1).0 ≡ (repo.stats other r).0
  pub hit_fails :
      (code : String) (now : SystemTime) (r : R)
      → ((n : ℕ) → (repo.record_hit code now r).0 ≢ ok n)
      → (other : String)
      → (repo.stats other (repo.record_hit code now r).1).0 ≡ (repo.stats other r).0
