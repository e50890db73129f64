-- ===== src/Storage/Postgres/TableDatabase.antt =====
-- A table in memory as the database, one that never fails and one that loses the answers to its
-- commits.
use otus_rusthomework_http_a.Common.{
  Bool, true, false, String, ◌≡◌, refl, ap, ◌∙◌, inl, inr, not, Option, none, some, [],
  if◌then◌else◌, filter, length,
}
use otus_rusthomework_http_a.Common.Outcome.{Outcome, ok, err}
use otus_rusthomework_http_a.Common.Dict.{lookup, insert, remove}
use otus_rusthomework_http_a.Common.Time.{SystemTime}
use otus_rusthomework_http_a.Storage.Postgres.{
  LinkRow, Database, SqlError, pool_timed_out, database, is_unique_violation,
}
use otus_rusthomework_http_a.Storage.Postgres.Sql.{
  Table, new_row, row_after, row_hit, is_due, is_some, matching, changed, written, hits_column,
  fits_new, fits_update, fits_hit, Broken, IsSql,
}

-- The committed rows and the rows of the transaction.
abbrev pub Store : Type 0
Store = Table × Table

abbrev pub inserted_or :
    String
    → String
    → Option SystemTime
    → SystemTime
    → Store
    → Option LinkRow
    → Outcome SqlError Unit × Store
inserted_or code url expires now s (some row) = (err (database (some "23505") "links_code_key"), s)
inserted_or code url expires now s none =
    (ok tt, (s.0, insert code (new_row "7" code url expires now) s.1))

abbrev pub committed_rows : Store → Table
committed_rows s = s.0

abbrev pub pending_rows : Store → Table
pending_rows s = s.1

abbrev pub next_id : Store → String
next_id s = "7"

-- A statement that breaks a check or a range.
abbrev pub checked :
    {A : Type 0} → Bool → Outcome SqlError A × Store → Store → Outcome SqlError A × Store
checked true r s = r
checked false r s = (err (database (some "23514") "check_violation"), s)

abbrev pub table_database : Database Store
table_database = record {
  select_link = λ code s. (ok (lookup code s.0), s);
  exists_link = λ code s. (ok (is_some (lookup code s.0)), s);
  update_link = λ url code version now s.
      let found = matching version (lookup code s.0) in
      let row = changed (λ r. row_after r url now) found in
      checked (fits_update url found) (ok row, (written code row s.0, s.1)) s;
  delete_link = λ code s. (ok (if is_some (lookup code s.0) then 1 else 0), (remove code s.0, s.1));
  increment_hits = λ code s.
      let row = changed row_hit (lookup code s.0) in
      checked (fits_hit (lookup code s.0)) (ok (hits_column row), (written code row s.0, s.1)) s;
  begin = λ s. (ok tt, (s.0, s.0));
  insert_link = λ code url expires now s.
      checked (fits_new code url) (inserted_or code url expires now s (lookup code s.1)) s;
  commit = λ s. (ok tt, (s.1, s.1));
  rollback = λ s. (s.0, s.0);
  select_page = λ after limit s. (ok [], s);
  delete_expired =
      λ now s. (ok (length (filter (is_due now) s.0)), (filter (λ e. not (is_due now e)) s.0, s.1));
}

-- With the check passed, and with the check broken.
checked-true :
    {A : Type 0} (fits : Bool) (r : Outcome SqlError A × Store) (s : Store)
    → fits ≡ true
    → checked fits r s ≡ r
checked-true true r s h = refl
checked-true false r s h = cc

checked-Broken :
    {A : Type 0} (fits : Bool) (r : Outcome SqlError A × Store) (s : Store)
    → fits ≡ false
    → Broken committed_rows (checked fits r s) s
unfolding is_unique_violation
checked-Broken true r s h = cc
checked-Broken false r s h = (database (some "23514") "check_violation", refl, refl, refl)

inserted-lem :
    (code url : String) (expires : Option SystemTime) (now : SystemTime) (s : Store)
    (o : Option LinkRow)
    → fits_new code url ≡ true
    → lookup code s.1 ≡ o
    → table_database.insert_link code url expires now s ≡ inserted_or code url expires now s o
inserted-lem code url expires now s o fits held =
    checked-true (fits_new code url) _ s fits ∙ ap (inserted_or code url expires now s) held

pub table_database-IsSql :
    (Fault : Type 0) → IsSql Fault table_database committed_rows pending_rows next_id
unfolding is_unique_violation
table_database-IsSql Fault = record {
  selects = λ code s. inl (refl, refl);
  finds = λ code s. inl (refl, refl);
  updates = λ url code version now s fits.
      let found = matching version (lookup code s.0) in
      let run = checked-true (fits_update url found) _ s fits in
      inl (ap (λ r. r.0) run, ap (λ r. r.1.0) run);
  updates_broken = λ url code version now s broken. checked-Broken _ _ s broken;
  deletes = λ code s. inl (refl, refl);
  increments = λ code s fits.
      let run = checked-true (fits_hit (lookup code s.0)) _ s fits in
      inl (ap (λ r. r.0) run, ap (λ r. r.1.0) run);
  increments_broken = λ code s broken. checked-Broken _ _ s broken;
  inserts_broken = λ code url expires now s broken. checked-Broken _ _ s broken;
  begins = λ s. (inl (refl, refl), refl, refl);
  inserts_taken = λ code url expires now s row fits here.
      let run = inserted-lem code url expires now s (some row) fits here in
      (database (some "23505") "links_code_key", ap (λ r. r.0) run, inl refl, ap (λ r. r.1.0) run);
  inserts = λ code url expires now s fits gone.
      let run = inserted-lem code url expires now s none fits gone in
      (
        inl (ap (λ r. r.0) run, ap (λ r. r.1.0) run),
        ap (λ r. r.1.0) run,
        λ done. ap (λ r. r.1.1) run,
      );
  commits = λ s. inl (refl, refl);
  rolls_back = λ s. refl;
  purges = λ now s. inl (refl, refl);
}

-- The database where each commit takes place and its answer is lost.
abbrev pub lossy_database : Database Store
lossy_database = record table_database { commit = λ s. (err pool_timed_out, (s.1, s.1)) }

pub lossy_database-IsSql : IsSql Unit lossy_database committed_rows pending_rows next_id
lossy_database-IsSql =
    let sql = table_database-IsSql Unit in
    record {
      selects = sql.selects;
      finds = sql.finds;
      updates = sql.updates;
      updates_broken = sql.updates_broken;
      deletes = sql.deletes;
      increments = sql.increments;
      increments_broken = sql.increments_broken;
      begins = sql.begins;
      inserts_broken = sql.inserts_broken;
      inserts_taken = sql.inserts_taken;
      inserts = sql.inserts;
      commits = λ s. inr (tt, pool_timed_out, refl, refl, inr refl);
      rolls_back = sql.rolls_back;
      purges = sql.purges;
    }
