-- ===== src/Storage/Postgres/Contract.antt =====
-- What the repository promises: the reply to each call and the table that it leaves.
use otus_rusthomework_http_a.Common.{
  ℕ, ℤ, String, ◌≡◌, ◌⊎◌, Bool, true, false, not, Option, none, some, eq_ℤ, if◌then◌else◌, filter,
  length, i64_as_u64,
}
use otus_rusthomework_http_a.Common.Outcome.{Outcome, ok, err, panic}
use otus_rusthomework_http_a.Common.Dict.{lookup, insert, remove}
use otus_rusthomework_http_a.Common.Time.{SystemTime}
use otus_rusthomework_http_a.Domain.Link.{
  ShortLink, LinkStats, RepoError, code_taken, not_found, version_conflict, unavailable, internal,
}
use otus_rusthomework_http_a.Storage.Postgres.{
  LinkRow, Database, Chrono, link_of_row, get, get_stats_internal, remove as remove_link,
  record_hit, update, insert as insert_link, expiry, purge_expired,
}
use otus_rusthomework_http_a.Storage.Postgres.Sql.{
  Table, new_row, row_after, row_hit, is_due, is_some, matching, changed, written, fits_new,
  fits_update, fits_hit,
}

-- What a call answers, an error by its kind.
pub data Reply : Type 0 where
  done missing taken conflicted failed : Reply
  a_link : ShortLink → Reply
  a_count : ℕ → Reply
  a_stats : LinkStats → Reply

abbrev pub error_reply : RepoError → Reply
error_reply (code_taken text) = taken
error_reply (not_found text) = missing
error_reply version_conflict = conflicted
error_reply unavailable = failed
error_reply (internal text) = failed

abbrev pub to_reply : {A : Type 0} → (A → Reply) → Outcome RepoError A → Reply
to_reply f (ok a) = f a
to_reply f (err e) = error_reply e
to_reply f panic = failed

module _ {B : Type 0} (Fault : Type 0) (rows : B → Table) where
  -- A call on the state `b` answers `reply` and leaves the committed rows `t`; or, where there may
  -- be faults, it answers `bad`, and has changed the rows or not.
  abbrev pub Answered : Reply → Reply × B → B → Reply → Table → Type 0
  Answered bad r b reply t =
      ((r.0 ≡ reply) × (rows r.1 ≡ t))
      ⊎ (Fault × (r.0 ≡ bad) × ((rows r.1 ≡ rows b) ⊎ (rows r.1 ≡ t)))

abbrev pub replied : {A B : Type 0} → (A → Reply) → Outcome RepoError A × B → Reply × B
replied f r = (to_reply f r.0, r.1)

-- A call of the repository; the clock readings are `now()` of its statements.
pub data Request : Type 0 where
  insert_request : ShortLink → SystemTime → Request
  get_request stats_request remove_request hit_request : String → Request
  update_request : String → String → ℤ → SystemTime → Request
  purge_request : SystemTime → Request

abbrev pub link_reply : Option LinkRow → Reply
link_reply none = missing
link_reply (some row) = a_link (link_of_row row)

abbrev pub stats_reply : Option LinkRow → Reply
stats_reply none = missing
stats_reply (some row) = a_stats (record { link = link_of_row row; hits = i64_as_u64 row.hits })

abbrev pub hits_reply : Option LinkRow → Reply
hits_reply none = missing
hits_reply (some row) = a_count (i64_as_u64 row.hits)

-- An update finds the row at its version, at another version, or not at all.
abbrev pub update_reply : ℤ → (LinkRow → LinkRow) → Option LinkRow → Reply
update_reply version f none = missing
update_reply version f (some row) =
    if eq_ℤ row.version version then a_link (link_of_row (f row)) else conflicted

-- A call that breaks a check of the table or the range of a column fails and changes nothing.
abbrev pub guarded : Bool → Reply × Table → Table → Reply × Table
guarded true told t = told
guarded false told t = (failed, t)

-- What the contract says of each call: the reply, and the table afterwards. `id` is the id that a
-- new row is given.
unfoldable pub specify : Chrono → String → Request → Table → Reply × Table
unfolding expiry insert lookup remove filter link_of_row i64_as_u64
specify chrono id (insert_request link now) t =
    let row = new_row id link.code link.target_url (expiry chrono now link.expires_at) now in
    guarded (fits_new link.code link.target_url)
      (elim (lookup link.code t) [ none ↦ (done, insert link.code row t) | some _ ↦ (taken, t) ]) t
specify chrono id (get_request code) t = (link_reply (lookup code t), t)
specify chrono id (stats_request code) t = (stats_reply (lookup code t), t)
specify chrono id (remove_request code) t =
    (if is_some (lookup code t) then done else missing, remove code t)
specify chrono id (hit_request code) t =
    let row = changed row_hit (lookup code t) in
    guarded (fits_hit (lookup code t)) (hits_reply row, written code row t) t
specify chrono id (update_request code url version now) t =
    let f : LinkRow → LinkRow = λ r. row_after r url now in
    let found = matching version (lookup code t) in
    guarded (fits_update url found)
      (update_reply version f (lookup code t), written code (changed f found) t) t
specify chrono id (purge_request now) t =
    (a_count (length (filter (is_due now) t)), filter (λ e. not (is_due now e)) t)

module _ {B : Type 0} (db : Database B) (chrono : Chrono) where
  -- The call and its reply. A failed purge answers zero.
  unfoldable pub perform : Request → B → Reply × B
  unfolding insert_link get get_stats_internal remove_link record_hit update purge_expired
  perform (insert_request link now) b = replied (λ _. done) (insert_link db chrono link now b)
  perform (get_request code) b = replied a_link (get db code b)
  perform (stats_request code) b = replied a_stats (get_stats_internal db code b)
  perform (remove_request code) b = replied (λ _. done) (remove_link db code b)
  perform (hit_request code) b = replied a_count (record_hit db code b)
  perform (update_request code url version now) b =
      replied a_link (update db code url version now b)
  perform (purge_request now) b = let (n, s) = purge_expired db now b in (a_count n, s)

-- The answer to a call that the database failed: a purge counts nothing.
abbrev pub on_failure : Request → Reply
on_failure (purge_request now) = a_count 0
on_failure _ = failed
