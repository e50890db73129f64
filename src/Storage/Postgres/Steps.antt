-- ===== src/Storage/Postgres/Steps.antt =====
-- Each call of one statement against its contract.
use otus_rusthomework_http_a.Common.{
  ℕ, zero, suc, ℤ, String, ◌≡◌, refl, ap, ◌∙◌, subst, inl, inr, Bool, true, false, Option, none,
  some, if◌then◌else◌, i64_as_u64, arith,
}
use otus_rusthomework_http_a.Common.Outcome.{Outcome, ok, err, panic, Exec, map_err, continue}
use otus_rusthomework_http_a.Common.Dict.{lookup, remove}
use otus_rusthomework_http_a.Domain.Link.{RepoError}
use otus_rusthomework_http_a.Storage.Postgres.{
  LinkRow, Database, SqlError, row_not_found, pool_timed_out, pool_closed, database,
  other_sql_error, map_sql_error, stats_of_row, link_of, removed, hits_of, get, get_stats_internal,
  remove as remove_link, record_hit,
}
use otus_rusthomework_http_a.Storage.Postgres.Sql.{
  Table, row_hit, is_some, changed, written, hits_column, is_outage, is_taken_error, fits_hit, Ran,
  Broken, IsSql,
}
use otus_rusthomework_http_a.Storage.Postgres.Contract.{
  Reply, done, missing, taken, failed, a_link, a_count, a_stats, error_reply, to_reply, Answered,
  replied, link_reply, stats_reply, hits_reply, guarded,
}

pub outage-failed : (e : SqlError) → is_outage e ≡ true → error_reply (map_sql_error e) ≡ failed
unfolding map_sql_error
outage-failed row_not_found h = cc
outage-failed pool_timed_out h = refl
outage-failed pool_closed h = refl
outage-failed (database code message) h = ground arith
outage-failed (other_sql_error text) h = refl

pub taken-reply : (e : SqlError) → is_taken_error e ≡ true → error_reply (map_sql_error e) ≡ taken
unfolding map_sql_error
taken-reply row_not_found h = cc
taken-reply pool_timed_out h = cc
taken-reply pool_closed h = cc
taken-reply (database code message) h = ground arith
taken-reply (other_sql_error text) h = cc

module _ {B : Type 0} (Fault : Type 0) (db : Database B) (rows : B → Table) where
  -- A call that ends in one statement and a conversion of what it gave.
  pub finished :
      {A C : Type 0} (f : C → Reply) (k : A → Exec B RepoError C) (reply_of : A → Reply)
      → ((x : A) (s : B) → (to_reply f (k x s).0 ≡ reply_of x) × ((k x s).1 ≡ s))
      → (b : B) (a : A) (t : Table) (r : Outcome SqlError A × B) → Ran Fault rows r b a t
      → Answered Fault rows failed
          (replied f (continue (map_err map_sql_error r.0) k r.1))
          b
          (reply_of a)
          t
  finished {A} f k reply_of e b a t (ok x, s) (inl (same, left)) =
      let x_a : x ≡ a = cc in inl ((e x s).0 ∙ ap reply_of x_a, ap rows (e x s).1 ∙ left)
  finished f k reply_of e b a t (ok x, s) (inr (fault, d, same, out, left)) = cc
  finished f k reply_of e b a t (err d, s) (inl (same, left)) = cc
  finished f k reply_of e b a t (err d, s) (inr (fault, d', same, out, left)) =
      let d_d' : d ≡ d' = cc in
      inr (
        fault,
        ap (λ (x : SqlError). error_reply (map_sql_error x)) d_d' ∙ outage-failed d' out,
        left,
      )
  finished f k reply_of e b a t (panic, s) (inl (same, left)) = cc
  finished f k reply_of e b a t (panic, s) (inr (fault, d, same, out, left)) = cc

module _ {B : Type 0} (Fault : Type 0) (rows : B → Table) where
  -- A call against its contract, from the call that fits the table and the one that does not.
  pub guarded-Answered :
      (fits : Bool) (r : Reply × B) (b : B) (told : Reply × Table)
      → (fits ≡ true → Answered Fault rows failed r b told.0 told.1)
      → (fits ≡ false → (r.0 ≡ failed) × (rows r.1 ≡ rows b))
      → let (reply, t) = guarded fits told (rows b) in Answered Fault rows failed r b reply t
  guarded-Answered true r b told h k = h refl
  guarded-Answered false r b told h k = inl (k refl)

  pub broken_lem :
      {A C : Type 0} (f : C → Reply) (k : A → Exec B RepoError C) (b : B)
      (r : Outcome SqlError A × B)
      → Broken rows r b
      → let call = replied f (continue (map_err map_sql_error r.0) k r.1) in
        (call.0 ≡ failed) × (rows call.1 ≡ rows b)
  broken_lem f k b (ok x, s) (e, same, out, left) = cc
  broken_lem f k b (err d, s) (e, same, out, left) =
      let d_e : d ≡ e = cc in
      (ap (λ (x : SqlError). error_reply (map_sql_error x)) d_e ∙ outage-failed e out, left)
  broken_lem f k b (panic, s) (e, same, out, left) = cc

module _ {B : Type 0} (Fault : Type 0) (db : Database B) (rows pending : B → Table)
    (gen_id : B → String) (sql : IsSql Fault db rows pending gen_id) where
  link_settles :
      (code : String) (o : Option LinkRow) (s : B)
      → (to_reply a_link (link_of db code o s).0 ≡ link_reply o) × ((link_of db code o s).1 ≡ s)
  unfolding link_of
  link_settles code none s = (refl, refl)
  link_settles code (some row) s = (refl, refl)

  pub get_lem :
      (code : String) (b : B)
      → Answered Fault rows failed
          (replied a_link (get db code b))
          b
          (link_reply (lookup code (rows b)))
          (rows b)
  unfolding get
  get_lem code b =
      finished Fault db rows a_link (link_of db code) link_reply (link_settles code) b
        (lookup code (rows b)) (rows b) (db.select_link code b) (sql.selects code b)

  stats_settles :
      (code : String) (o : Option LinkRow) (s : B)
      → (to_reply a_stats (stats_of_row db code o s).0 ≡ stats_reply o)
        × ((stats_of_row db code o s).1 ≡ s)
  unfolding stats_of_row
  stats_settles code none s = (refl, refl)
  stats_settles code (some row) s = (refl, refl)

  pub stats_lem :
      (code : String) (b : B)
      → Answered Fault rows failed
          (replied a_stats (get_stats_internal db code b))
          b
          (stats_reply (lookup code (rows b)))
          (rows b)
  unfolding get_stats_internal
  stats_lem code b =
      finished Fault db rows a_stats (stats_of_row db code) stats_reply (stats_settles code) b
        (lookup code (rows b)) (rows b) (db.select_link code b) (sql.selects code b)

  abbrev removed_reply : ℕ → Reply
  removed_reply zero = missing
  removed_reply (suc n) = done

  removed_settles :
      (code : String) (n : ℕ) (s : B)
      → (to_reply (λ _. done) (removed db code n s).0 ≡ removed_reply n)
        × ((removed db code n s).1 ≡ s)
  unfolding removed
  removed_settles code zero s = (refl, refl)
  removed_settles code (suc n) s = (refl, refl)

  pub remove_lem :
      (code : String) (b : B)
      → Answered Fault rows failed
          (replied (λ _. done) (remove_link db code b))
          b
          (if is_some (lookup code (rows b)) then done else missing)
          (remove code (rows b))
  unfolding remove_link
  remove_lem code b =
      let found = is_some (lookup code (rows b)) in
      subst
        (λ (reply : Reply).
          Answered Fault rows failed (replied (λ _. done) (remove_link db code b)) b reply
            (remove code (rows b)))
        (counted found)
        (finished Fault db rows (λ _. done) (removed db code) removed_reply (removed_settles code) b
          (if found then 1 else 0) (remove code (rows b)) (db.delete_link code b)
          (sql.deletes code b))
    where
      counted : (x : Bool) → removed_reply (if x then 1 else 0) ≡ (if x then done else missing)
      counted true = refl
      counted false = refl

  abbrev column_reply : Option ℤ → Reply
  column_reply none = missing
  column_reply (some n) = a_count (i64_as_u64 n)

  hits_settles :
      (code : String) (o : Option ℤ) (s : B)
      → (to_reply a_count (hits_of db code o s).0 ≡ column_reply o) × ((hits_of db code o s).1 ≡ s)
  unfolding hits_of
  hits_settles code none s = (refl, refl)
  hits_settles code (some n) s = (refl, refl)

  column-hits : (o : Option LinkRow) → column_reply (hits_column o) ≡ hits_reply o
  column-hits none = refl
  column-hits (some row) = refl

  hit_fitting :
      (code : String) (b : B)
      → fits_hit (lookup code (rows b)) ≡ true
      → let row = changed row_hit (lookup code (rows b)) in
        Answered Fault rows failed
          (replied a_count (record_hit db code b))
          b
          (hits_reply row)
          (written code row (rows b))
  unfolding record_hit
  hit_fitting code b fits =
      let row = changed row_hit (lookup code (rows b)) in
      subst
        (λ (reply : Reply).
          Answered Fault rows failed (replied a_count (record_hit db code b)) b reply
            (written code row (rows b)))
        (column-hits row)
        (finished Fault db rows a_count (hits_of db code) column_reply (hits_settles code) b
          (hits_column row) (written code row (rows b)) (db.increment_hits code b)
          (sql.increments code b fits))

  pub hit_lem :
      (code : String) (b : B)
      → let o = lookup code (rows b) in
        let told : Reply × Table =
          (hits_reply (changed row_hit o), written code (changed row_hit o) (rows b)) in
        let (reply, t) = guarded (fits_hit o) told (rows b) in
        Answered Fault rows failed (replied a_count (record_hit db code b)) b reply t
  unfolding record_hit
  hit_lem code b =
      guarded-Answered Fault rows (fits_hit (lookup code (rows b))) _ b _ (hit_fitting code b)
        λ broken.
          broken_lem Fault rows a_count (hits_of db code) b (db.increment_hits code b)
            (sql.increments_broken code b broken)
