-- ===== src/Storage/Postgres/Update.antt =====
-- The optimistic locking of an update.
use otus_rusthomework_http_a.Common.{
  ℤ, String, ◌≡◌, refl, sym, ap, ◌∙◌, ◌⊎◌, inl, inr, Bool, true, false, Option, none, some, eq_ℤ,
  i64_succ, Bool-cases, eq_ℤ_iff, pos, negsuc, zero, suc, arith, if◌then◌else◌,
}
use otus_rusthomework_http_a.Common.Outcome.{Outcome, ok}
use otus_rusthomework_http_a.Common.Dict.{lookup, insert, lookup-insert_self}
use otus_rusthomework_http_a.Common.Time.{SystemTime}
use otus_rusthomework_http_a.Domain.Link.{ShortLink, RepoError}
use otus_rusthomework_http_a.Storage.Postgres.{LinkRow, Database, update, link_of_row}
use otus_rusthomework_http_a.Storage.Postgres.Sql.{
  Table, row_after, matching, changed, written, fits_update, IsSql,
}
use otus_rusthomework_http_a.Storage.Postgres.Contract.{
  Reply, conflicted, failed, a_link, to_reply, update_reply, guarded,
}
use otus_rusthomework_http_a.Storage.Postgres.Updates.{update_lem}

succ-other : (v : ℤ) → eq_ℤ (i64_succ v) v ≡ false
unfolding i64_succ
succ-other (pos n) = ground arith
succ-other (negsuc zero) = ground arith
succ-other (negsuc (suc n)) = ground arith

module _ (version : ℤ) (f : LinkRow → LinkRow) where
  -- An update that answers a link has found the row at its version.
  found :
      (o : Option LinkRow) (link : ShortLink)
      → update_reply version f o ≡ a_link link
      → (row : LinkRow) × (o ≡ some row) × (eq_ℤ row.version version ≡ true)
  found none link h = cc
  found (some row) link h = elim (Bool-cases (eq_ℤ row.version version)) [
    | inl same ↦ (row, refl, same)
    | inr other ↦
        let h' : conflicted ≡ a_link link =
          ap (λ (x : Bool). if x then a_link (link_of_row (f row)) else conflicted) (sym other)
          ∙ h in
        cc
  ]

  written-matching :
      (row : LinkRow) (code : String) (t : Table)
      → eq_ℤ row.version version ≡ true
      → written code (changed f (matching version (some row))) t ≡ insert code (f row) t
  written-matching row code t same =
      ap (λ (x : Bool). written code (changed f (if x then some row else none)) t) same

  conflicts :
      (row : LinkRow) (url code : String) (t : Table)
      → eq_ℤ row.version version ≡ false
      → (guarded
          (fits_update url (matching version (some row)))
          (
            update_reply version f (some row),
            written code (changed f (matching version (some row))) t,
          )
          t).0
        ≡ conflicted
  conflicts row url code t other =
      ap
        (λ (x : Bool).
          let o : Option LinkRow = if x then some row else none in
          (guarded (fits_update url o)
            (if x then a_link (link_of_row (f row)) else conflicted, written code (changed f o) t)
            t).0)
        other

-- A call that answers a link was not refused.
unguarded :
    (fits : Bool) (told : Reply × Table) (t : Table) (link : ShortLink)
    → (guarded fits told t).0 ≡ a_link link
    → (told.0 ≡ a_link link) × ((guarded fits told t).1 ≡ told.1)
unguarded true told t link h = (h, refl)
unguarded false told t link h = cc

module _ {B : Type 0} (Fault : Type 0) (db : Database B) (rows pending : B → Table)
    (gen_id : B → String) (sql : IsSql Fault db rows pending gen_id) where
  reply_of : (r : Outcome RepoError ShortLink × B) → Reply
  reply_of r = to_reply a_link r.0

  -- The row that a successful update leaves has another version.
  moved :
      (code url : String) (version : ℤ) (now : SystemTime) (b b' : B) (link : ShortLink)
      → update db code url version now b ≡ (ok link, b')
      → (row : LinkRow) × (lookup code (rows b') ≡ some row) × (eq_ℤ row.version version ≡ false)
  moved code url version now b b' link done =
      let f : LinkRow → LinkRow = λ r. row_after r url now in
      elim (update_lem Fault db rows pending gen_id sql code url version now b) [
        | inl (same, left) ↦
            let o = lookup code (rows b) in
            let (answer, fitted) =
              unguarded (fits_update url (matching version o))
                (update_reply version f o, written code (changed f (matching version o)) (rows b))
                (rows b) link
                (sym same
                  ∙ ap (λ (r : Outcome RepoError ShortLink × B). to_reply a_link r.0) done) in
            let (row, here, own) = found version f (lookup code (rows b)) link answer in
            (
              f row,
              ap (λ (r : Outcome RepoError ShortLink × B). lookup code (rows r.1)) (sym done)
                  ∙ ap (lookup code) (left ∙ fitted)
                  ∙ ap
                      (λ (o : Option LinkRow).
                        lookup code (written code (changed f (matching version o)) (rows b)))
                      here
                  ∙ ap (lookup code) (written-matching version f row code (rows b) own)
                  ∙ lookup-insert_self code (f row) (rows b),
              ap (λ (v : ℤ). eq_ℤ (i64_succ row.version) v)
                    (sym ((eq_ℤ_iff row.version version).0 own))
                  ∙ succ-other row.version,
            )
        | inr (fault, same, left) ↦
            let h : failed ≡ a_link link =
              sym same ∙ ap (λ (r : Outcome RepoError ShortLink × B). to_reply a_link r.0) done in
            cc
      ]

  -- Of two updates in a row with the same version, the second never succeeds when the first did: it
  -- answers a conflict, or, where the database may have faults, a failure. No update is lost. The
  -- statements mean what SQL says.
  pub update-update :
      (code first second : String) (version : ℤ) (now later : SystemTime) (b b' : B)
      (link : ShortLink)
      → update db code first version now b ≡ (ok link, b')
      → let reply = to_reply a_link (update db code second version later b').0 in
        (reply ≡ conflicted) ⊎ (Fault × (reply ≡ failed))
  update-update code first second version now later b b' link done =
      let (row, here, other) = moved code first version now b b' link done in
      let g : LinkRow → LinkRow = λ r. row_after r second later in
      elim (update_lem Fault db rows pending gen_id sql code second version later b') [
        | inl (same, left) ↦ inl (
            same
            ∙ ap
                (λ (o : Option LinkRow).
                  (guarded (fits_update second (matching version o))
                    (
                      update_reply version g o,
                      written code (changed g (matching version o)) (rows b'),
                    )
                    (rows b')).0)
                here
            ∙ conflicts version g row second code (rows b') other)
        | inr (fault, same, left) ↦ inr (fault, same)
      ]
