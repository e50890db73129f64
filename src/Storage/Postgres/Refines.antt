-- ===== src/Storage/Postgres/Refines.antt =====
-- Every call of the repository against its contract over the table of links.
use otus_rusthomework_http_a.Common.{
  ℕ, String, ◌≡◌, refl, sym, ap, ◌∙◌, subst, true, ◌⊎◌, inl, inr, not, Option, none, some, filter,
  length, Option-cases,
}
use otus_rusthomework_http_a.Common.Outcome.{Outcome, ok, err, panic, map_err, continue}
use otus_rusthomework_http_a.Common.Dict.{lookup, insert}
use otus_rusthomework_http_a.Common.Time.{SystemTime}
use otus_rusthomework_http_a.Domain.Link.{ShortLink}
use otus_rusthomework_http_a.Storage.Postgres.{
  LinkRow, Database, Chrono, SqlError, map_sql_error, run, in_transaction, rolled_back,
  insert as insert_link, expiry, purge_expired, purged,
}
use otus_rusthomework_http_a.Storage.Postgres.Sql.{
  Table, new_row, is_due, is_outage, is_taken_error, fits_new, Ran, Broken, IsSql,
}
use otus_rusthomework_http_a.Storage.Postgres.Contract.{
  Reply, done, taken, failed, a_count, error_reply, Answered, replied, Request, insert_request,
  get_request, stats_request, remove_request, hit_request, update_request, purge_request, specify,
  perform, on_failure, guarded,
}
use otus_rusthomework_http_a.Storage.Postgres.Steps.{
  outage-failed, taken-reply, guarded-Answered, get_lem, stats_lem, remove_lem, hit_lem,
}
use otus_rusthomework_http_a.Storage.Postgres.Updates.{update_lem}

module _ {B : Type 0} (Fault : Type 0) (db : Database B) (rows pending : B → Table)
    (gen_id : B → String) (sql : IsSql Fault db rows pending gen_id) (chrono : Chrono) where
  -- The call from the outcome of its commit, of its insertion and of its start.
  abbrev committed : Outcome SqlError Unit × B → Reply × B
  committed r = replied (λ _. done) (map_err map_sql_error r.0, r.1)

  abbrev inserted : Outcome SqlError Unit × B → Reply × B
  inserted r =
      let (q, s) = rolled_back db (map_err map_sql_error r.0) r.1 in
      replied (λ _. done) (continue q (λ _. run db db.commit) s)

  error_at : (e d : SqlError) → e ≡ d → is_outage d ≡ true → error_reply (map_sql_error e) ≡ failed
  error_at e d same out =
      ap (λ (x : SqlError). error_reply (map_sql_error x)) same ∙ outage-failed d out

  committed_lem :
      (b s : B) (t : Table) (r : Outcome SqlError Unit × B)
      → rows s ≡ rows b
      → Ran Fault rows r s tt t
      → Answered Fault rows failed (committed r) b done t
  committed_lem b s t (ok x, s') kept (inl (same, left)) = inl (refl, left)
  committed_lem b s t (err e, s') kept (inr (fault, d, same, out, inl left)) =
      let e_d : e ≡ d = cc in inr (fault, error_at e d e_d out, inl (left ∙ kept))
  committed_lem b s t (err e, s') kept (inr (fault, d, same, out, inr left)) =
      let e_d : e ≡ d = cc in inr (fault, error_at e d e_d out, inr left)
  committed_lem b s t (ok x, s') kept (inr (fault, d, same, out, left)) = cc
  committed_lem b s t (err e, s') kept (inl (same, left)) = cc
  committed_lem b s t (panic, s') kept (inl (same, left)) = cc
  committed_lem b s t (panic, s') kept (inr (fault, d, same, out, left)) = cc

  inserted_lem :
      (b s : B) (t : Table) (r : Outcome SqlError Unit × B)
      → rows r.1 ≡ rows b
      → (r.0 ≡ ok tt → pending r.1 ≡ t)
      → Ran Fault rows r s tt (rows s)
      → Answered Fault rows failed (inserted r) b done t
  unfolding rolled_back
  inserted_lem b s t (ok x, s') kept seen (inl (same, left)) =
      subst (λ (t' : Table). Answered Fault rows failed (committed (db.commit s')) b done t')
        (seen refl) (committed_lem b s' (pending s') (db.commit s') kept (sql.commits s'))
  inserted_lem b s t (err e, s') kept seen (inr (fault, d, same, out, left)) =
      let e_d : e ≡ d = cc in inr (fault, error_at e d e_d out, inl (sql.rolls_back s' ∙ kept))
  inserted_lem b s t (ok x, s') kept seen (inr (fault, d, same, out, left)) = cc
  inserted_lem b s t (err e, s') kept seen (inl (same, left)) = cc
  inserted_lem b s t (panic, s') kept seen (inl (same, left)) = cc
  inserted_lem b s t (panic, s') kept seen (inr (fault, d, same, out, left)) = cc

  refused_lem :
      (b : B) (r : Outcome SqlError Unit × B) (e : SqlError)
      → rows r.1 ≡ rows b
      → r.0 ≡ err e
      → (is_taken_error e ≡ true) ⊎ (Fault × (is_outage e ≡ true))
      → Answered Fault rows failed (inserted r) b taken (rows b)
  unfolding rolled_back
  refused_lem b (err d, s) e kept same (inl is_taken) =
      let d_e : d ≡ e = cc in
      inl (
        ap (λ (x : SqlError). error_reply (map_sql_error x)) d_e ∙ taken-reply e is_taken,
        sql.rolls_back s ∙ kept,
      )
  refused_lem b (err d, s) e kept same (inr (fault, out)) =
      let d_e : d ≡ e = cc in inr (fault, error_at d e d_e out, inl (sql.rolls_back s ∙ kept))
  refused_lem b (ok x, s) e kept same is = cc
  refused_lem b (panic, s) e kept same is = cc

  Broken-insert :
      (b : B) (r : Outcome SqlError Unit × B)
      → Broken rows r b
      → ((inserted r).0 ≡ failed) × (rows (inserted r).1 ≡ rows b)
  unfolding rolled_back
  Broken-insert b (err d, s) (e, same, out, left) =
      let d_e : d ≡ e = cc in (error_at d e d_e out, sql.rolls_back s ∙ left)
  Broken-insert b (ok x, s) (e, same, out, left) = cc
  Broken-insert b (panic, s) (e, same, out, left) = cc

  module _ (link : ShortLink) (now : SystemTime) where
    abbrev expires : Option SystemTime
    expires = expiry chrono now link.expires_at

    -- What the contract says of the insertion, from the row of its code.
    abbrev told : String → Table → Option LinkRow → Reply × Table
    told id t o = elim o [
      | none ↦ (done, insert link.code (new_row id link.code link.target_url expires now) t)
      | some _ ↦ (taken, t)
    ]

    abbrev IsTold : Reply × B → B → String → Option LinkRow → Type 0
    IsTold r b id o = Answered Fault rows failed r b (told id (rows b) o).0 (told id (rows b) o).1

    abbrev AsTold : Reply × B → B → String → Option LinkRow → Type 0
    AsTold r b id o =
        let (reply, t) =
          guarded (fits_new link.code link.target_url) (told id (rows b) o) (rows b) in
        Answered Fault rows failed r b reply t

    fitting_lem :
        (b s : B)
        → rows s ≡ rows b
        → pending s ≡ rows b
        → fits_new link.code link.target_url ≡ true
        → IsTold
            (inserted (db.insert_link link.code link.target_url expires now s))
            b
            (gen_id s)
            (lookup link.code (rows b))
    fitting_lem b s kept seen fits =
        let r = db.insert_link link.code link.target_url expires now s in
        elim (Option-cases (lookup link.code (rows b))) [
          | inl gone ↦
              let (ran, same, after) =
                sql.inserts link.code link.target_url expires now s fits
                  (ap (λ (t : Table). lookup link.code t) seen ∙ gone) in
              subst (IsTold (inserted r) b (gen_id s)) (sym gone) (
                inserted_lem b s
                  (insert link.code (new_row (gen_id s) link.code link.target_url expires now)
                    (rows b))
                  r (same ∙ kept)
                  (λ done.
                    after done
                    ∙ ap
                        (λ (t : Table).
                          insert link.code
                            (new_row (gen_id s) link.code link.target_url expires now) t)
                        seen)
                  ran)
          | inr (row, here) ↦
              let (e, error, why, same) =
                sql.inserts_taken link.code link.target_url expires now s row fits
                  (ap (λ (t : Table). lookup link.code t) seen ∙ here) in
              subst (IsTold (inserted r) b (gen_id s)) (sym here)
                (refused_lem b r e (same ∙ kept) error why)
        ]

    opened_lem :
        (b s : B)
        → rows s ≡ rows b
        → pending s ≡ rows b
        → AsTold
            (inserted (db.insert_link link.code link.target_url expires now s))
            b
            (gen_id s)
            (lookup link.code (rows b))
    opened_lem b s kept seen =
        let r = db.insert_link link.code link.target_url expires now s in
        guarded-Answered Fault rows (fits_new link.code link.target_url) (inserted r) b _
          (fitting_lem b s kept seen)
          λ broken.
            let (e, error, out, same) =
              sql.inserts_broken link.code link.target_url expires now s broken in
            Broken-insert b r (e, error, out, same ∙ kept)

    begun_lem :
        (b : B) (r : Outcome SqlError Unit × B)
        → rows r.1 ≡ rows b
        → pending r.1 ≡ rows b
        → Ran Fault rows r b tt (rows b)
        → AsTold
            (replied
              (λ _. done)
              (continue
                (map_err map_sql_error r.0)
                (λ _ s.
                  let (q, s') =
                    in_transaction db (db.insert_link link.code link.target_url expires now) s in
                  continue q (λ _. run db db.commit) s')
                r.1))
            b
            (gen_id r.1)
            (lookup link.code (rows b))
    unfolding in_transaction
    begun_lem b (ok x, s) kept seen ran = opened_lem b s kept seen
    begun_lem b (err e, s) kept seen (inr (fault, d, same, out, left)) =
        let e_d : e ≡ d = cc in inr (fault, error_at e d e_d out, inl kept)
    begun_lem b (err e, s) kept seen (inl (same, left)) = cc
    begun_lem b (panic, s) kept seen (inl (same, left)) = cc
    begun_lem b (panic, s) kept seen (inr (fault, d, same, out, left)) = cc

  purged_lem :
      (now : SystemTime) (b : B) (n : ℕ) (t : Table) (r : Outcome SqlError ℕ × B)
      → Ran Fault rows r b n t
      → Answered Fault rows (a_count 0) (a_count (purged db r.0), r.1) b (a_count n) t
  unfolding purged
  purged_lem now b n t (ok x, s) (inl (same, left)) =
      let x_n : x ≡ n = cc in inl (ap a_count x_n, left)
  purged_lem now b n t (err e, s) (inr (fault, d, same, out, left)) = inr (fault, refl, left)
  purged_lem now b n t (ok x, s) (inr (fault, d, same, out, left)) = cc
  purged_lem now b n t (err e, s) (inl (same, left)) = cc
  purged_lem now b n t (panic, s) (inl (same, left)) = cc
  purged_lem now b n t (panic, s) (inr (fault, d, same, out, left)) = cc

  pub perform-Refines :
      (req : Request) (b : B)
      → let (reply, t) = specify chrono (gen_id (db.begin b).1) req (rows b) in
        Answered Fault rows (on_failure req) (perform db chrono req b) b reply t
  unfolding perform specify insert_link purge_expired
  perform-Refines (insert_request link now) b =
      begun_lem link now b (db.begin b) (sql.begins b).2 (sql.begins b).1 (sql.begins b).0
  perform-Refines (get_request code) b = get_lem Fault db rows pending gen_id sql code b
  perform-Refines (stats_request code) b = stats_lem Fault db rows pending gen_id sql code b
  perform-Refines (remove_request code) b = remove_lem Fault db rows pending gen_id sql code b
  perform-Refines (hit_request code) b = hit_lem Fault db rows pending gen_id sql code b
  perform-Refines (update_request code url version now) b =
      update_lem Fault db rows pending gen_id sql code url version now b
  perform-Refines (purge_request now) b =
      purged_lem now b (length (filter (is_due now) (rows b)))
        (filter (λ e. not (is_due now e)) (rows b)) (db.delete_expired now b) (sql.purges now b)
