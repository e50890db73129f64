-- ===== src/Storage/Postgres/Sql.antt =====
-- What the statements mean, over the table of links that
-- crates/storage/migrations/20240101000000_create_links.sql makes: the rows that are committed, by
-- code, and the rows that an open transaction sees. A text is one that PostgreSQL can hold, with no
-- character NUL.
use otus_rusthomework_http_a.Common.{
  ℤ, pos, String, ◌≡◌, ◌⊎◌, Bool, true, false, not, Option, none, some, eq_ℤ, leb_ℤ, i64_succ,
  if◌then◌else◌, filter, length, ◌^◌, ◌-◌, ◌&&◌, leb, str_eq,
}
use otus_rusthomework_http_a.Common.Outcome.{Outcome, ok, err}
use otus_rusthomework_http_a.Common.Dict.{Dict, lookup, insert, remove}
use otus_rusthomework_http_a.Common.Text.{chars}
use otus_rusthomework_http_a.Common.Time.{SystemTime}
use otus_rusthomework_http_a.Storage.Postgres.{
  LinkRow, Database, SqlError, row_not_found, pool_timed_out, pool_closed, database,
  other_sql_error, is_unique_violation,
}

abbrev pub Table : Type 0
Table = Dict LinkRow

-- The columns of a new row: the defaults of the table where the statement names none.
abbrev pub new_row : String → String → String → Option SystemTime → SystemTime → LinkRow
new_row id code target_url expires_at now = record {
  id = id;
  code = code;
  target_url = target_url;
  created_at = now;
  updated_at = now;
  expires_at = expires_at;
  version = pos 1;
  hits = pos 0;
}

abbrev pub row_after : LinkRow → String → SystemTime → LinkRow
row_after row target_url now = record row {
  target_url = target_url;
  updated_at = now;
  version = i64_succ row.version;
}

abbrev pub row_hit : LinkRow → LinkRow
row_hit row = record row { hits = i64_succ row.hits }

-- `expires_at IS NOT NULL AND expires_at <= $1`
abbrev pub is_due : SystemTime → String × LinkRow → Bool
is_due now e = elim e.1.expires_at [ none ↦ false | some t ↦ leb_ℤ t now ]

abbrev pub is_some : {A : Type 0} → Option A → Bool
is_some none = false
is_some (some a) = true

-- The row that `UPDATE ... WHERE code = $2 AND version = $3 RETURNING` changes, and the table after.
abbrev pub matching : ℤ → Option LinkRow → Option LinkRow
matching version none = none
matching version (some row) = if eq_ℤ row.version version then some row else none

abbrev pub changed : (LinkRow → LinkRow) → Option LinkRow → Option LinkRow
changed f none = none
changed f (some row) = some (f row)

abbrev pub written : String → Option LinkRow → Table → Table
written code none t = t
written code (some row) t = insert code row t

-- The checks `code_length` and `target_url_not_empty` on a new row.
abbrev pub fits_new : String → String → Bool
unfolding chars
fits_new code target_url = leb 4 (chars code) && leb (chars code) 32 && not (str_eq target_url "")

abbrev pub i64_max : ℤ
i64_max = pos (2 ^ 63 - 1)

-- Whether the row that an update has matched can take the new URL and the next version: the check of
-- the URL, and the range of BIGINT.
abbrev pub fits_update : String → Option LinkRow → Bool
fits_update target_url none = true
fits_update target_url (some row) = not (str_eq target_url "") && not (eq_ℤ row.version i64_max)

abbrev pub fits_hit : Option LinkRow → Bool
fits_hit none = true
fits_hit (some row) = not (eq_ℤ row.hits i64_max)

abbrev pub hits_column : Option LinkRow → Option ℤ
hits_column none = none
hits_column (some row) = some row.hits

-- An error that tells nothing of the rows: the statement did not run to its end, a check or a range
-- was broken, the connection was lost.
abbrev pub is_outage : SqlError → Bool
is_outage row_not_found = false
is_outage pool_timed_out = true
is_outage pool_closed = true
is_outage (database code message) = not (is_unique_violation code)
is_outage (other_sql_error text) = true

abbrev pub is_taken_error : SqlError → Bool
is_taken_error (database code message) = is_unique_violation code
is_taken_error _ = false

module _ {B : Type 0} (Fault : Type 0) (rows : B → Table) where
  -- A statement on the state `b` answers `a` and leaves the committed rows `t`; or, where there may
  -- be faults, it fails, and has changed the rows or not.
  abbrev pub Ran : {A : Type 0} → Outcome SqlError A × B → B → A → Table → Type 0
  Ran r b a t =
      ((r.0 ≡ ok a) × (rows r.1 ≡ t))
      ⊎ (Fault
          × (e : SqlError) × (r.0 ≡ err e)
          × (is_outage e ≡ true)
          × ((rows r.1 ≡ rows b) ⊎ (rows r.1 ≡ t)))

-- A statement that breaks a check or a range fails, and changes no committed row.
abbrev pub Broken : {A B : Type 0} → (B → Table) → Outcome SqlError A × B → B → Type 0
Broken rows r b = (e : SqlError) × (r.0 ≡ err e) × (is_outage e ≡ true) × (rows r.1 ≡ rows b)

-- With `Fault` empty the database fails only where a statement breaks a check, a range or the
-- uniqueness of the codes.
pub record IsSql {B : Type 0} (Fault : Type 0) (db : Database B) (rows pending : B → Table)
    (gen_id : B → String) : Type 0 where
  pub selects :
      (code : String) (b : B)
      → Ran Fault rows (db.select_link code b) b (lookup code (rows b)) (rows b)
  pub finds :
      (code : String) (b : B)
      → Ran Fault rows (db.exists_link code b) b (is_some (lookup code (rows b))) (rows b)
  pub updates :
      (url code : String) (version : ℤ) (now : SystemTime) (b : B)
      → let found = matching version (lookup code (rows b)) in
        let row = changed (λ r. row_after r url now) found in
        fits_update url found ≡ true
        → Ran Fault rows (db.update_link url code version now b) b row (written code row (rows b))
  pub updates_broken :
      (url code : String) (version : ℤ) (now : SystemTime) (b : B)
      → fits_update url (matching version (lookup code (rows b))) ≡ false
      → Broken rows (db.update_link url code version now b) b
  pub deletes :
      (code : String) (b : B)
      → Ran Fault rows
          (db.delete_link code b)
          b
          (if is_some (lookup code (rows b)) then 1 else 0)
          (remove code (rows b))
  pub increments :
      (code : String) (b : B)
      → let row = changed row_hit (lookup code (rows b)) in
        fits_hit (lookup code (rows b)) ≡ true
        → Ran Fault rows (db.increment_hits code b) b (hits_column row) (written code row (rows b))
  pub increments_broken :
      (code : String) (b : B)
      → fits_hit (lookup code (rows b)) ≡ false
      → Broken rows (db.increment_hits code b) b
  pub begins :
      (b : B)
      → Ran Fault rows (db.begin b) b tt (rows b)
        × (pending (db.begin b).1 ≡ rows b)
        × (rows (db.begin b).1 ≡ rows b)
  -- A row of the transaction is not committed yet; the code is unique. The checks come before the
  -- uniqueness.
  pub inserts_broken :
      (code url : String) (expires : Option SystemTime) (now : SystemTime) (b : B)
      → fits_new code url ≡ false
      → Broken rows (db.insert_link code url expires now b) b
  pub inserts_taken :
      (code url : String) (expires : Option SystemTime) (now : SystemTime) (b : B) (row : LinkRow)
      → fits_new code url ≡ true
      → lookup code (pending b) ≡ some row
      → (e : SqlError) × ((db.insert_link code url expires now b).0 ≡ err e)
        × (((is_taken_error e ≡ true)) ⊎ (Fault × (is_outage e ≡ true)))
        × (rows (db.insert_link code url expires now b).1 ≡ rows b)
  pub inserts :
      (code url : String) (expires : Option SystemTime) (now : SystemTime) (b : B)
      → fits_new code url ≡ true
      → lookup code (pending b) ≡ none
      → let r = db.insert_link code url expires now b in
        Ran Fault rows r b tt (rows b)
        × (rows r.1 ≡ rows b)
        × (r.0 ≡ ok tt
            → pending r.1 ≡ insert code (new_row (gen_id b) code url expires now) (pending b))
  pub commits : (b : B) → Ran Fault rows (db.commit b) b tt (pending b)
  pub rolls_back : (b : B) → rows (db.rollback b) ≡ rows b
  pub purges :
      (now : SystemTime) (b : B)
      → Ran Fault rows
          (db.delete_expired now b)
          b
          (length (filter (is_due now) (rows b)))
          (filter (λ e. not (is_due now e)) (rows b))
