-- ===== src/Storage/Postgres.antt =====
-- crates/storage/src/postgres.rs: the repository in PostgreSQL. The statements that it sends, and
-- the conversions of chrono, are a parameter over the state of the database.
pub mod Sql
pub mod Contract
pub mod Steps
pub mod Updates
pub mod Refines
pub mod Update
pub mod Paging
pub mod Replies
pub mod Keeps
pub mod TableDatabase
pub mod Tests
use otus_rusthomework_http_a.Common.{
  ℕ, zero, suc, ◌*◌, ℤ, pos, String, Bool, true, false, Option, none, some, List, map, last,
  i64_as_u64, str_eq, if◌then◌else◌, ◌||◌,
}
use otus_rusthomework_http_a.Common.Outcome.{
  Outcome, ok, err, panic, map_err, Exec, pure, throw, lift, ◌>>=◌, ◌>>◌,
}
use otus_rusthomework_http_a.Common.Text.{strip_prefix}
use otus_rusthomework_http_a.Common.Time.{SystemTime, as_unix_secs, at_secs}
use otus_rusthomework_http_a.Domain.Link.{
  ShortLink, LinkStats, RepoError, code_taken, not_found, version_conflict, unavailable, internal,
  LinkRepository,
}
use otus_rusthomework_http_a.Server.Cache.{as_i64}

pub record LinkRow : Type 0 where
  pub id : String
  pub code : String
  pub target_url : String
  pub created_at : SystemTime
  pub updated_at : SystemTime
  pub expires_at : Option SystemTime
  pub version : ℤ
  pub hits : ℤ

-- The errors of sqlx that the code tells apart; the texts are what they display.
pub data SqlError : Type 0 where
  row_not_found pool_timed_out pool_closed : SqlError
  database : Option String → String → SqlError
  other_sql_error : String → SqlError

-- The statements over the state `B` of the database. A statement that reads `now()` has the reading
-- as an argument; `rollback` is the transaction dropped before its commit. A page of the listing is
-- read behind a time and a code, or from the start.
pub record Database (B : Type 0) : Type 0 where
  pub select_link : String → Exec B SqlError (Option LinkRow)
  pub exists_link : String → Exec B SqlError Bool
  pub update_link : String → String → ℤ → SystemTime → Exec B SqlError (Option LinkRow)
  pub delete_link : String → Exec B SqlError ℕ
  pub increment_hits : String → Exec B SqlError (Option ℤ)
  pub begin : Exec B SqlError Unit
  pub insert_link : String → String → Option SystemTime → SystemTime → Exec B SqlError Unit
  pub commit : Exec B SqlError Unit
  pub rollback : B → B
  pub select_page : Option (SystemTime × String) → ℤ → Exec B SqlError (List LinkRow)
  pub delete_expired : SystemTime → Exec B SqlError ℕ

-- The conversions of chrono.
pub record Chrono : Type 0 where
  pub from_timestamp : ℤ → Option SystemTime
  pub parse_rfc3339 : String → Option SystemTime
  pub to_rfc3339 : SystemTime → String

unfoldable pub link_of_row : LinkRow → ShortLink
link_of_row row = record {
  id = some row.id;
  code = row.code;
  target_url = row.target_url;
  created_at = row.created_at;
  updated_at = row.updated_at;
  expires_at = row.expires_at;
  version = row.version;
}

-- `s.contains(p)`
unfoldable pub contains : String → String → Bool
unfolding strip_prefix
contains String.[] p = str_eq p ""
contains (String.◌∷◌ c s) p =
    let rest = contains s p in
    elim (strip_prefix (String.◌∷◌ c s) p) [ none ↦ rest | some _ ↦ true ]

unfoldable pub is_unique_violation : Option String → Bool
is_unique_violation none = false
is_unique_violation (some code) = str_eq code "23505"

unfoldable pub map_sql_error : SqlError → RepoError
unfolding is_unique_violation contains
map_sql_error row_not_found = not_found "not found"
map_sql_error (database code message) =
    if is_unique_violation code
    then (if contains message "code"
        then code_taken "code already exists"
        else code_taken "duplicate value")
    else internal message
map_sql_error pool_timed_out = unavailable
map_sql_error pool_closed = unavailable
map_sql_error (other_sql_error text) = internal text

module _ {B : Type 0} (db : Database B) where
  -- `.await.map_err(map_sql_error)?`
  abbrev pub run : {A : Type 0} → Exec B SqlError A → Exec B RepoError A
  run m b = let (r, s) = m b in (map_err map_sql_error r, s)

  unfoldable pub stats_of_row : String → Option LinkRow → Exec B RepoError LinkStats
  unfolding link_of_row i64_as_u64
  stats_of_row code none = throw (not_found code)
  stats_of_row code (some row) =
      pure (record { link = link_of_row row; hits = i64_as_u64 row.hits })

  unfoldable pub get_stats_internal : String → Exec B RepoError LinkStats
  unfolding map_sql_error stats_of_row
  get_stats_internal code = do row ← run (db.select_link code); stats_of_row code row

  unfoldable pub link_of : String → Option LinkRow → Exec B RepoError ShortLink
  unfolding link_of_row
  link_of code none = throw (not_found code)
  link_of code (some row) = pure (link_of_row row)

  unfoldable pub get : String → Exec B RepoError ShortLink
  unfolding map_sql_error link_of
  get code = do row ← run (db.select_link code); link_of code row

  unfoldable pub removed : String → ℕ → Exec B RepoError Unit
  removed code zero = throw (not_found code)
  removed code (suc n) = pure tt

  unfoldable pub remove : String → Exec B RepoError Unit
  unfolding map_sql_error removed
  remove code = do n ← run (db.delete_link code); removed code n

  unfoldable pub hits_of : String → Option ℤ → Exec B RepoError ℕ
  unfolding i64_as_u64
  hits_of code none = throw (not_found code)
  hits_of code (some hits) = pure (i64_as_u64 hits)

  unfoldable pub record_hit : String → Exec B RepoError ℕ
  unfolding map_sql_error hits_of
  record_hit code = do hits ← run (db.increment_hits code); hits_of code hits

  unfoldable pub conflict : String → Bool → Exec B RepoError ShortLink
  conflict code true = throw version_conflict
  conflict code false = throw (not_found code)

  unfoldable pub updated_or : String → Option LinkRow → Exec B RepoError ShortLink
  unfolding map_sql_error link_of_row conflict
  updated_or code (some row) = pure (link_of_row row)
  updated_or code none = do exists ← run (db.exists_link code); conflict code exists

  unfoldable pub update : String → String → ℤ → SystemTime → Exec B RepoError ShortLink
  unfolding map_sql_error updated_or
  update code target_url version now = do
    row ← run (db.update_link target_url code version now)
    updated_or code row

  unfoldable pub rolled_back : {A : Type 0} → Outcome RepoError A → B → Outcome RepoError A × B
  rolled_back (ok a) b = (ok a, b)
  rolled_back (err e) b = (err e, db.rollback b)
  rolled_back panic b = (panic, db.rollback b)

  -- A statement in a transaction, which an error drops.
  unfoldable pub in_transaction : {A : Type 0} → Exec B SqlError A → Exec B RepoError A
  unfolding map_sql_error rolled_back
  in_transaction m b = let (r, s) = run m b in rolled_back r s

  unfoldable pub purged : Outcome SqlError ℕ → ℕ
  purged (ok n) = n
  purged (err e) = 0
  purged panic = 0

  -- An error is logged and counts as nothing purged.
  unfoldable pub purge_expired : SystemTime → B → ℕ × B
  unfolding purged
  purge_expired now b = let (r, s) = db.delete_expired now b in (purged r, s)

module _ (chrono : Chrono) where
  -- The seconds of the expiry; `now` where chrono has no such time.
  unfoldable pub expiry : SystemTime → Option SystemTime → Option SystemTime
  unfolding as_i64 as_unix_secs
  expiry now none = none
  expiry now (some t) =
      some (elim (chrono.from_timestamp (as_i64 (as_unix_secs t))) [ none ↦ now | some at ↦ at ])

  -- A time that does not parse counts as `now`.
  unfoldable pub position_of : SystemTime → Option (String × String) → Option (SystemTime × String)
  position_of now none = none
  position_of now (some c) = some (elim (chrono.parse_rfc3339 c.0) [ none ↦ now | some t ↦ t ], c.1)

  unfoldable pub next_cursor : List ShortLink → Option (String × String)
  next_cursor links = elim (last links) [
    | none ↦ none
    | some link ↦ some (chrono.to_rfc3339 link.created_at, link.code)
  ]

  unfoldable pub page_of : List LinkRow → List ShortLink × Option (String × String)
  unfolding link_of_row next_cursor
  page_of rows = let links = map link_of_row rows in (links, next_cursor links)

module _ {B : Type 0} (db : Database B) (chrono : Chrono) where
  -- The link's own times, id and version are not written.
  unfoldable pub insert : ShortLink → SystemTime → Exec B RepoError Unit
  unfolding map_sql_error in_transaction expiry
  insert link now = do
    run db db.begin
    in_transaction db
        (db.insert_link link.code link.target_url (expiry chrono now link.expires_at) now)
    run db db.commit

  unfoldable pub list :
      SystemTime
      → ℕ
      → Option (String × String)
      → Exec B RepoError (List ShortLink × Option (String × String))
  unfolding map_sql_error as_i64 position_of page_of
  list now limit cursor = do
    rows ← run db (db.select_page (position_of chrono now cursor) (as_i64 limit))
    pure (page_of chrono rows)

  -- `impl LinkRepository for PostgresRepo`; `now` is read where a cursor does not parse.
  abbrev pub postgres : SystemTime → LinkRepository B
  postgres now = record {
    insert = insert;
    get = get db;
    update = update db;
    remove = remove db;
    record_hit = λ code hit_at. record_hit db code;
    stats = get_stats_internal db;
    list = list now;
    purge_expired = purge_expired db;
  }
