-- ===== src/Storage/Postgres/Replies.antt =====
-- What the reply to a call tells of the row of its code.
use otus_rusthomework_http_a.Common.{
  ℤ, String, ◌≡◌, ◌≢◌, refl, sym, ap, ◌∙◌, inl, inr, Bool, true, false, Option, none, some,
  Option-cases, if◌then◌else◌, arith, eq_iff,
}
use otus_rusthomework_http_a.Common.Outcome.{Outcome, ok, err, panic}
use otus_rusthomework_http_a.Common.Dict.{lookup, remove, lookup-insert_ne, lookup-remove, eq_cases}
use otus_rusthomework_http_a.Common.Time.{SystemTime}
use otus_rusthomework_http_a.Domain.Link.{
  ShortLink, RepoError, code_taken, not_found, version_conflict, unavailable, internal,
}
use otus_rusthomework_http_a.Storage.Postgres.{LinkRow, Chrono, expiry}
use otus_rusthomework_http_a.Storage.Postgres.Sql.{
  Table, new_row, is_some, matching, changed, written, fits_new,
}
use otus_rusthomework_http_a.Storage.Postgres.Contract.{
  Reply, done, missing, a_link, a_count, a_stats, error_reply, to_reply, hits_reply, update_reply,
  insert_request, specify, guarded,
}

-- A call answers with a value where its reply is one.
unfoldable pub is_value : Reply → Bool
is_value done = true
is_value (a_link link) = true
is_value (a_count n) = true
is_value (a_stats stats) = true
is_value _ = false

pub error_is_no_value : (e : RepoError) → is_value (error_reply e) ≡ false
unfolding is_value
error_is_no_value (code_taken text) = refl
error_is_no_value (not_found text) = refl
error_is_no_value version_conflict = refl
error_is_no_value unavailable = refl
error_is_no_value (internal text) = refl

pub failing :
    {A : Type 0} (f : A → Reply) (r : Outcome RepoError A)
    → ((a : A) → r ≢ ok a)
    → is_value (to_reply f r) ≡ false
unfolding is_value
failing f (ok a) bad = absurd (bad a refl)
failing f (err e) bad = error_is_no_value e
failing f panic bad = refl

pub written_keeps :
    (code other : String) (o : Option LinkRow) (t : Table)
    → other ≢ code
    → lookup other (written code o t) ≡ lookup other t
written_keeps code other none t ne = refl
written_keeps code other (some row) t ne = lookup-insert_ne code other row t λ e. ne (sym e)

-- A change of no row leaves the table.
pub written-none :
    (code : String) (o : Option LinkRow) (t : Table) → o ≡ none → written code o t ≡ t
written-none code none t e = refl
written-none code (some row) t e = cc

-- An update that is answered with no value has matched no row.
pub unmatched :
    (version : ℤ) (f : LinkRow → LinkRow) (o : Option LinkRow)
    → is_value (update_reply version f o) ≡ false
    → changed f (matching version o) ≡ none
unfolding is_value
unmatched version f none h = refl
unmatched version f (some row) h = ground arith

pub unhit : (o : Option LinkRow) → is_value (hits_reply o) ≡ false → o ≡ none
unfolding is_value
unhit none h = refl
unhit (some row) h = cc

pub undeleted :
    (o : Option LinkRow) → is_value (if is_some o then done else missing) ≡ false → o ≡ none
unfolding is_value
undeleted none h = refl
undeleted (some row) h = cc

pub remove_absent :
    (code other : String) (t : Table)
    → lookup code t ≡ none
    → lookup other (remove code t) ≡ lookup other t
remove_absent code other t absent = elim (eq_cases other code) [
  | inl same ↦ ground (arith, lookup-remove code other t, eq_iff code other, same, absent)
  | inr ne ↦ ground (arith, lookup-remove code other t, eq_iff code other)
]

module _ (told : Reply × Table) (t : Table) where
  -- A refused call keeps what the call that fits keeps.
  pub guarded_keeps :
      (fits : Bool) (other : String)
      → lookup other told.1 ≡ lookup other t
      → lookup other (guarded fits told t).1 ≡ lookup other t
  guarded_keeps true other h = h
  guarded_keeps false other h = refl

  pub guarded_same :
      (fits : Bool)
      → (is_value told.0 ≡ false → told.1 ≡ t)
      → is_value (guarded fits told t).0 ≡ false
      → (guarded fits told t).1 ≡ t
  guarded_same true h valueless = h valueless
  guarded_same false h valueless = refl

-- The contract of an insertion leaves the row of a code that has one.
pub specified_keeps :
    (chrono : Chrono) (id : String) (link : ShortLink) (now : SystemTime) (code : String)
    (t : Table)
    → lookup code t ≢ none
    → lookup code (specify chrono id (insert_request link now) t).1 ≡ lookup code t
unfolding specify
specified_keeps chrono id link now code t held =
    guarded_keeps _ t (fits_new link.code link.target_url) code
      (elim (Option-cases (lookup link.code t)) [
        | inl free ↦
            let ne : link.code ≢ code = λ e. held (ap (λ c. lookup c t) (sym e) ∙ free) in
            let row =
              new_row id link.code link.target_url (expiry chrono now link.expires_at) now in
            rw (free) (lookup-insert_ne link.code code row t ne)
        | inr (row, here) ↦ rw (here) refl
      ])
