-- ===== src/Storage/Postgres/Updates.antt =====
-- The update, which is of one statement or two, against its contract.
use otus_rusthomework_http_a.Common.{
  ℤ, String, ◌≡◌, refl, ap, ◌∙◌, subst, ◌⊎◌, inl, inr, Bool, true, false, Option, none, some, eq_ℤ,
  if◌then◌else◌,
}
use otus_rusthomework_http_a.Common.Outcome.{Outcome, ok, err, panic, map_err, continue}
use otus_rusthomework_http_a.Common.Dict.{lookup}
use otus_rusthomework_http_a.Common.Time.{SystemTime}
use otus_rusthomework_http_a.Storage.Postgres.{
  LinkRow, Database, SqlError, link_of_row, map_sql_error, updated_or, conflict, update,
}
use otus_rusthomework_http_a.Storage.Postgres.Sql.{
  Table, row_after, is_some, matching, changed, written, fits_update, Ran, IsSql,
}
use otus_rusthomework_http_a.Storage.Postgres.Contract.{
  Reply, missing, conflicted, failed, a_link, error_reply, to_reply, Answered, replied,
  update_reply, guarded,
}
use otus_rusthomework_http_a.Storage.Postgres.Steps.{
  outage-failed, guarded-Answered, broken_lem, finished,
}

module _ {B : Type 0} (Fault : Type 0) (db : Database B) (rows pending : B → Table)
    (gen_id : B → String) (sql : IsSql Fault db rows pending gen_id) where
  conflict_settles :
      (code : String) (x : Bool) (s : B)
      → (to_reply a_link (conflict db code x s).0 ≡ (if x then conflicted else missing))
        × ((conflict db code x s).1 ≡ s)
  unfolding conflict
  conflict_settles code true s = (refl, refl)
  conflict_settles code false s = (refl, refl)

  -- The reply to an update from the row that the first statement gave, and from whether the second
  -- one finds the code.
  abbrev updated_reply : Option LinkRow → Bool → Reply
  updated_reply (some row) exists = a_link (link_of_row row)
  updated_reply none exists = if exists then conflicted else missing

  update_from :
      (code : String) (b : B) (row : Option LinkRow) (r : Outcome SqlError (Option LinkRow) × B)
      → Ran Fault rows r b row (written code row (rows b))
      → Answered Fault rows failed
          (replied a_link (continue (map_err map_sql_error r.0) (updated_or db code) r.1))
          b
          (updated_reply row (is_some (lookup code (rows b))))
          (written code row (rows b))
  unfolding updated_or
  update_from code b (some row) (ok (some x), s) (inl (same, left)) =
      let row_x : x ≡ row = cc in inl (ap (λ (y : LinkRow). a_link (link_of_row y)) row_x, left)
  update_from code b none (ok (some x), s) (inl (same, left)) = cc
  update_from code b (some row) (ok none, s) (inl (same, left)) = cc
  update_from code b none (ok none, s) (inl (same, left)) =
      subst
        (λ (t : Table).
          ((to_reply a_link
                (continue (map_err map_sql_error (db.exists_link code s).0) (conflict db code)
                  (db.exists_link code s).1).0
              ≡ (if is_some (lookup code t) then conflicted else missing))
            × (rows
                  (continue (map_err map_sql_error (db.exists_link code s).0) (conflict db code)
                    (db.exists_link code s).1).1
                ≡ t))
          ⊎ (Fault
              × (to_reply a_link
                    (continue (map_err map_sql_error (db.exists_link code s).0) (conflict db code)
                      (db.exists_link code s).1).0
                  ≡ failed)
              × ((rows
                      (continue (map_err map_sql_error (db.exists_link code s).0) (conflict db code)
                        (db.exists_link code s).1).1
                    ≡ t)
                  ⊎ (rows
                        (continue (map_err map_sql_error (db.exists_link code s).0)
                          (conflict db code) (db.exists_link code s).1).1
                      ≡ t))))
        left
        (finished Fault db rows a_link (conflict db code) (λ x. if x then conflicted else missing)
          (conflict_settles code) s (is_some (lookup code (rows s))) (rows s)
          (db.exists_link code s) (sql.finds code s))
  update_from code b row (ok x, s) (inr (fault, d, same, out, left)) = cc
  update_from code b row (err d, s) (inl (same, left)) = cc
  update_from code b row (err d, s) (inr (fault, d', same, out, left)) =
      let d_d' : d ≡ d' = cc in
      inr (
        fault,
        ap (λ (x : SqlError). error_reply (map_sql_error x)) d_d' ∙ outage-failed d' out,
        left,
      )
  update_from code b row (panic, s) (inl (same, left)) = cc
  update_from code b row (panic, s) (inr (fault, d, same, out, left)) = cc

  updated-update :
      (version : ℤ) (f : LinkRow → LinkRow) (o : Option LinkRow)
      → updated_reply (changed f (matching version o)) (is_some o) ≡ update_reply version f o
  updated-update version f none = refl
  updated-update version f (some row) = at (eq_ℤ row.version version)
    where
      at :
          (x : Bool)
          → updated_reply (changed f (if x then some row else none)) true
            ≡ (if x then a_link (link_of_row (f row)) else conflicted)
      at true = refl
      at false = refl

  update_fitting :
      (code url : String) (version : ℤ) (now : SystemTime) (b : B)
      → fits_update url (matching version (lookup code (rows b))) ≡ true
      → let o = lookup code (rows b) in
        let f : LinkRow → LinkRow = λ r. row_after r url now in
        Answered Fault rows failed
          (replied a_link (update db code url version now b))
          b
          (update_reply version f o)
          (written code (changed f (matching version o)) (rows b))
  unfolding update
  update_fitting code url version now b fits =
      let o = lookup code (rows b) in
      let f : LinkRow → LinkRow = λ r. row_after r url now in
      subst
        (λ (reply : Reply).
          Answered Fault rows failed (replied a_link (update db code url version now b)) b reply
            (written code (changed f (matching version o)) (rows b)))
        (updated-update version f o)
        (update_from code b (changed f (matching version o)) (db.update_link url code version now b)
          (sql.updates url code version now b fits))

  pub update_lem :
      (code url : String) (version : ℤ) (now : SystemTime) (b : B)
      → let o = lookup code (rows b) in
        let f : LinkRow → LinkRow = λ r. row_after r url now in
        let told : Reply × Table =
          (update_reply version f o, written code (changed f (matching version o)) (rows b)) in
        let (reply, t) = guarded (fits_update url (matching version o)) told (rows b) in
        Answered Fault rows failed (replied a_link (update db code url version now b)) b reply t
  unfolding update
  update_lem code url version now b =
      guarded-Answered Fault rows (fits_update url (matching version (lookup code (rows b)))) _ b _
        (update_fitting code url version now b)
        λ broken.
          broken_lem Fault rows a_link (updated_or db code) b
            (db.update_link url code version now b)
            (sql.updates_broken url code version now b broken)
