-- ===== src/Storage/Postgres/Keeps.antt =====
-- The PostgreSQL repository as the repository that the server relies on.
use otus_rusthomework_http_a.Common.{
  ℕ, ℤ, String, ◌≡◌, ◌≢◌, refl, sym, ap, ◌∙◌, inl, inr, Option, none, some, List, if◌then◌else◌,
  i64_as_u64, arith, eq_iff,
}
use otus_rusthomework_http_a.Common.Outcome.{Outcome, ok, err, panic, map_err, continue, pure}
use otus_rusthomework_http_a.Common.Dict.{lookup, remove, lookup-remove}
use otus_rusthomework_http_a.Common.Time.{SystemTime}
use otus_rusthomework_http_a.Domain.Link.{
  ShortLink, LinkStats, RepoError, not_found, IsLinkRepository,
}
use otus_rusthomework_http_a.Server.Cache.{as_i64}
use otus_rusthomework_http_a.Storage.Postgres.{
  LinkRow, Database, Chrono, SqlError, link_of_row, map_sql_error, stats_of_row, get_stats_internal,
  remove as remove_link, record_hit, update, insert as insert_link, list, postgres, page_of,
  position_of,
}
use otus_rusthomework_http_a.Storage.Postgres.Sql.{
  Table, row_after, row_hit, is_some, matching, changed, written, fits_update, fits_hit, IsSql,
}
use otus_rusthomework_http_a.Storage.Postgres.Contract.{
  Reply, done, missing, failed, a_link, a_count, to_reply, Answered, hits_reply, update_reply,
  insert_request, perform, guarded,
}
use otus_rusthomework_http_a.Storage.Postgres.Steps.{get_lem, stats_lem, remove_lem, hit_lem}
use otus_rusthomework_http_a.Storage.Postgres.Updates.{update_lem}
use otus_rusthomework_http_a.Storage.Postgres.Refines.{perform-Refines}
use otus_rusthomework_http_a.Storage.Postgres.Replies.{
  is_value, failing, written_keeps, written-none, unmatched, unhit, undeleted, remove_absent,
  specified_keeps, guarded_keeps, guarded_same,
}

-- The statistics that the row of a code gives.
abbrev stats_told : String → Option LinkRow → Outcome RepoError LinkStats
stats_told code none = err (not_found code)
stats_told code (some row) = ok (record { link = link_of_row row; hits = i64_as_u64 row.hits })

module _ {B : Type 0} (db : Database B) (rows pending : B → Table) (gen_id : B → String)
    (sql : IsSql ⊥ db rows pending gen_id) where
  abbrev stats_at : String → B → Outcome RepoError LinkStats
  stats_at code b = (get_stats_internal db code b).0

  stats_of_select :
      (code : String) (o : Option LinkRow) (r : Outcome SqlError (Option LinkRow) × B)
      → r.0 ≡ ok o
      → (continue (map_err map_sql_error r.0) (stats_of_row db code) r.1).0 ≡ stats_told code o
  unfolding stats_of_row
  stats_of_select code none (ok none, s) e = refl
  stats_of_select code (some row) (ok (some x), s) e =
      let x_row : x ≡ row = cc in ap (λ (y : LinkRow). stats_told code (some y)) x_row
  stats_of_select code none (ok (some x), s) e = cc
  stats_of_select code (some row) (ok none, s) e = cc
  stats_of_select code o (err d, s) e = cc
  stats_of_select code o (panic, s) e = cc

  -- The statistics of a code are those of its row.
  stats-eq : (code : String) (b : B) → stats_at code b ≡ stats_told code (lookup code (rows b))
  unfolding get_stats_internal
  stats-eq code b = elim (sql.selects code b) [
    | inl (e, kept) ↦ stats_of_select code (lookup code (rows b)) (db.select_link code b) e
    | inr broken ↦ absurd broken.0
  ]

  same_stats :
      (code : String) (a b : B)
      → lookup code (rows a) ≡ lookup code (rows b)
      → stats_at code a ≡ stats_at code b
  same_stats code a b e = stats-eq code a ∙ ap (stats_told code) e ∙ sym (stats-eq code b)

  -- With no faults a call is answered as the contract says.
  sound :
      (bad reply : Reply) (r : Reply × B) (b : B) (t : Table)
      → Answered ⊥ rows bad r b reply t
      → (r.0 ≡ reply) × (rows r.1 ≡ t)
  sound bad reply r b t (inl e) = e
  sound bad reply r b t (inr broken) = absurd broken.0

  -- What the contract says of an update and of a hit.
  abbrev update_told : String → String → ℤ → SystemTime → Table → Reply × Table
  update_told code url version now t =
      let f : LinkRow → LinkRow = λ r. row_after r url now in
      let o = lookup code t in
      (update_reply version f o, written code (changed f (matching version o)) t)

  abbrev hit_told : String → Table → Reply × Table
  hit_told code t =
      let row = changed row_hit (lookup code t) in (hits_reply row, written code row t)

  updated :
      (code url : String) (version : ℤ) (now : SystemTime) (b : B)
      → let fits = fits_update url (matching version (lookup code (rows b))) in
        let (reply, t) = guarded fits (update_told code url version now (rows b)) (rows b) in
        (to_reply a_link (update db code url version now b).0 ≡ reply)
        × (rows (update db code url version now b).1 ≡ t)
  updated code url version now b =
      sound failed _ _ b _ (update_lem ⊥ db rows pending gen_id sql code url version now b)

  update_others :
      (code url : String) (version : ℤ) (now : SystemTime) (b : B) (other : String)
      → other ≢ code
      → stats_at other (update db code url version now b).1 ≡ stats_at other b
  update_others code url version now b other ne =
      let f : LinkRow → LinkRow = λ r. row_after r url now in
      let found = matching version (lookup code (rows b)) in
      same_stats other _ b (
        ap (lookup other) (updated code url version now b).1
        ∙ guarded_keeps (update_told code url version now (rows b)) (rows b) (fits_update url found)
            other (written_keeps code other (changed f found) (rows b) ne))

  update_fails :
      (code url : String) (version : ℤ) (now : SystemTime) (b : B)
      → ((link : ShortLink) → (update db code url version now b).0 ≢ ok link)
      → (other : String) → stats_at other (update db code url version now b).1 ≡ stats_at other b
  update_fails code url version now b bad other =
      let (reply, left) = updated code url version now b in
      let f : LinkRow → LinkRow = λ r. row_after r url now in
      let o = lookup code (rows b) in
      let valueless =
        ap is_value (sym reply) ∙ failing a_link (update db code url version now b).0 bad in
      same_stats other _ b (
        ap (lookup other) (
          left
          ∙ guarded_same (update_told code url version now (rows b)) (rows b)
              (fits_update url (matching version o))
              (λ none_told.
                written-none code (changed f (matching version o)) (rows b)
                  (unmatched version f o none_told))
              valueless))

  hit :
      (code : String) (b : B)
      → let (reply, t) =
          guarded (fits_hit (lookup code (rows b))) (hit_told code (rows b)) (rows b) in
        (to_reply a_count (record_hit db code b).0 ≡ reply) × (rows (record_hit db code b).1 ≡ t)
  hit code b = sound failed _ _ b _ (hit_lem ⊥ db rows pending gen_id sql code b)

  hit_others :
      (code : String) (b : B) (other : String)
      → other ≢ code
      → stats_at other (record_hit db code b).1 ≡ stats_at other b
  hit_others code b other ne = same_stats other _ b (
      ap (lookup other) (hit code b).1
      ∙ guarded_keeps (hit_told code (rows b)) (rows b) (fits_hit (lookup code (rows b))) other
          (written_keeps code other (changed row_hit (lookup code (rows b))) (rows b) ne))

  hit_fails :
      (code : String) (b : B)
      → ((n : ℕ) → (record_hit db code b).0 ≢ ok n)
      → (other : String) → stats_at other (record_hit db code b).1 ≡ stats_at other b
  hit_fails code b bad other =
      let (reply, left) = hit code b in
      let row = changed row_hit (lookup code (rows b)) in
      let valueless = ap is_value (sym reply) ∙ failing a_count (record_hit db code b).0 bad in
      same_stats other _ b (
        ap (lookup other) (
          left
          ∙ guarded_same (hit_told code (rows b)) (rows b) (fits_hit (lookup code (rows b)))
              (λ none_told. written-none code row (rows b) (unhit row none_told)) valueless))

  taken_away :
      (code : String) (b : B)
      → (to_reply (λ _. done) (remove_link db code b).0
          ≡ (if is_some (lookup code (rows b)) then done else missing))
        × (rows (remove_link db code b).1 ≡ remove code (rows b))
  taken_away code b = sound failed _ _ b _ (remove_lem ⊥ db rows pending gen_id sql code b)

  remove_others :
      (code : String) (b : B) (other : String)
      → other ≢ code
      → stats_at other (remove_link db code b).1 ≡ stats_at other b
  remove_others code b other ne = same_stats other _ b (
      ap (lookup other) (taken_away code b).1
      ∙ ground (arith, lookup-remove code other (rows b), eq_iff code other))

  remove_fails :
      (code : String) (b : B)
      → ((u : Unit) → (remove_link db code b).0 ≢ ok u)
      → (other : String) → stats_at other (remove_link db code b).1 ≡ stats_at other b
  remove_fails code b bad other =
      let (reply, left) = taken_away code b in
      let valueless = ap is_value (sym reply) ∙ failing (λ _. done) (remove_link db code b).0 bad in
      same_stats other _ b (
        ap (lookup other) left
        ∙ remove_absent code other (rows b) (undeleted (lookup code (rows b)) valueless))

  insert_keeps :
      (chrono : Chrono) (link : ShortLink) (now : SystemTime) (b : B) (code : String)
      (s : LinkStats)
      → stats_at code b ≡ ok s
      → stats_at code (insert_link db chrono link now b).1 ≡ ok s
  unfolding insert_link perform
  insert_keeps chrono link now b code s h =
      let id = gen_id (db.begin b).1 in
      let after =
        (sound failed _ _ b _
          (perform-Refines ⊥ db rows pending gen_id sql chrono (insert_request link now) b)).1 in
      same_stats code _ b (
        ap (lookup code) after
        ∙ specified_keeps chrono id link now code (rows b)
            (stored (lookup code (rows b)) (sym (stats-eq code b) ∙ h)))
      ∙ h
    where
      stored : (o : Option LinkRow) → stats_told code o ≡ ok s → o ≢ none
      stored none e n = cc
      stored (some row) e n = cc

  page_state :
      (chrono : Chrono) (r : Outcome SqlError (List LinkRow) × B)
      → (continue (map_err map_sql_error r.0) (λ page. pure (page_of chrono page)) r.1).1 ≡ r.1
  page_state chrono (ok page, s) = refl
  page_state chrono (err e, s) = refl
  page_state chrono (panic, s) = refl

  listed :
      (chrono : Chrono) (now : SystemTime)
      → ((after : Option (SystemTime × String)) (n : ℤ) (b : B)
          → rows (db.select_page after n b).1 ≡ rows b)
      → (limit : ℕ) (c : Option (String × String)) (b : B)
      → rows (list db chrono now limit c b).1 ≡ rows b
  unfolding list
  listed chrono now pages limit c b =
      let r = db.select_page (position_of chrono now c) (as_i64 limit) b in
      ap rows (page_state chrono r) ∙ pages (position_of chrono now c) (as_i64 limit) b

  -- Where the statements mean what SQL says over the table with its checks, the database fails only
  -- a statement that breaks a check, a range or the uniqueness of the codes, and a statement of the
  -- listing changes no row, the PostgreSQL repository changes what it stores for the code of a call
  -- only, and for a call that succeeds only; an insertion keeps every stored link.
  pub postgres-IsLinkRepository :
      (chrono : Chrono) (now : SystemTime)
      → ((after : Option (SystemTime × String)) (n : ℤ) (b : B)
          → rows (db.select_page after n b).1 ≡ rows b)
      → IsLinkRepository (postgres db chrono now)
  postgres-IsLinkRepository chrono now pages = record {
    get_keeps = λ code b other.
        same_stats other _ b (
          ap (lookup other) (sound failed _ _ b _ (get_lem ⊥ db rows pending gen_id sql code b)).1);
    stats_keeps = λ code b other. same_stats other _ b (
        ap (lookup other) (sound failed _ _ b _ (stats_lem ⊥ db rows pending gen_id sql code b)).1);
    list_keeps = λ limit c b other.
        same_stats other _ b (ap (lookup other) (listed chrono now pages limit c b));
    insert_keeps = insert_keeps chrono;
    update_others = update_others;
    update_fails = update_fails;
    remove_others = remove_others;
    remove_fails = remove_fails;
    hit_others = λ code at. hit_others code;
    hit_fails = λ code at. hit_fails code;
  }
