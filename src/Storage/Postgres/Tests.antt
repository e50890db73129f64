-- ===== src/Storage/Postgres/Tests.antt =====
-- The repository at concrete inputs, over a table in memory.
use otus_rusthomework_http_a.Common.{
  Bool, true, false, List, map, take, pos_part, str_eq, ◌&&◌, arith, eq_iff, subst, sym, pos,
  String, ◌≡◌, refl, ◌⊎◌, none, some, [], ◌∷◌, filter,
}
use otus_rusthomework_http_a.Common.Outcome.{ok}
use otus_rusthomework_http_a.Common.Dict.{lookup, insert}
use otus_rusthomework_http_a.Common.Text.{chars}
use otus_rusthomework_http_a.Common.Time.{at_secs}
use otus_rusthomework_http_a.Domain.Link.{ShortLink, IsLinkRepository}
use otus_rusthomework_http_a.Storage.Postgres.{
  LinkRow, Database, Chrono, link_of_row, update, postgres,
}
use otus_rusthomework_http_a.Storage.Postgres.Sql.{row_after, i64_max}
use otus_rusthomework_http_a.Storage.Postgres.TableDatabase.{
  Store, table_database, committed_rows, pending_rows, next_id, table_database-IsSql,
}
use otus_rusthomework_http_a.Storage.Postgres.Contract.{
  Reply, done, taken, hit_request, conflicted, failed, a_link, to_reply, insert_request, perform,
}
use otus_rusthomework_http_a.Storage.Postgres.Update.{update-update}
use otus_rusthomework_http_a.Storage.Postgres.Keeps.{postgres-IsLinkRepository}
use otus_rusthomework_http_a.Storage.Postgres.Paging.{is_after, IsPageSql, collect, collect-ordered}

abbrev test_chrono : Chrono
test_chrono = record {
  from_timestamp = λ secs. none;
  parse_rfc3339 = λ text. none;
  to_rfc3339 = λ t. "";
}

abbrev first_row : LinkRow
first_row = record {
  id = "7";
  code = "abcd";
  target_url = "https://a";
  created_at = at_secs 10;
  updated_at = at_secs 10;
  expires_at = none;
  version = pos 4;
  hits = pos 2;
}

abbrev one_row : Store
one_row = (("abcd", first_row) ∷ [], [])

abbrev second_row : LinkRow
second_row = row_after first_row "https://b" (at_secs 20)

update-update_example :
    let reply : Reply =
      to_reply a_link
        (update table_database "abcd" "https://c"
          (pos 4)
          (at_secs 21)
          (("abcd", second_row) ∷ [], [])).0 in
    (reply ≡ conflicted) ⊎ (⊥ × (reply ≡ failed))
unfolding update lookup insert
update-update_example =
    update-update ⊥ table_database committed_rows pending_rows next_id (table_database-IsSql ⊥)
      "abcd" "https://b" "https://c" (pos 4) (at_secs 20) (at_secs 21) one_row
      (("abcd", second_row) ∷ [], []) (link_of_row second_row) refl

abbrev another_link : ShortLink
another_link = record {
  id = none;
  code = "abcd";
  target_url = "https://d";
  created_at = at_secs 30;
  updated_at = at_secs 30;
  expires_at = none;
  version = pos 1;
}

-- A code that is taken.
taken_test :
    (perform table_database test_chrono (insert_request another_link (at_secs 30)) one_row).0
    ≡ taken
unfolding perform lookup chars
taken_test = refl

-- A code that the check of the table does not let in, one that it does, and a counter at its end.
checks_test :
    ((perform table_database test_chrono
        (insert_request (record another_link { code = "abc" }) (at_secs 30))
        one_row).0
      ≡ failed)
    × ((perform table_database test_chrono
          (insert_request (record another_link { code = "abcde" }) (at_secs 30))
          one_row).0
        ≡ done)
    × ((perform table_database test_chrono
          (hit_request "abcd")
          (("abcd", record first_row { hits = i64_max }) ∷ [], [])).0
        ≡ failed)
unfolding perform lookup chars
checks_test = (refl, refl, refl)

abbrev free_link : ShortLink
free_link = record another_link { code = "abcde" }

-- A listing of two rows of one time, by codes that are texts of one letter.
abbrev row_b : LinkRow
row_b = record first_row { code = "b" }

abbrev row_a : LinkRow
row_a = record first_row { code = "a" }

abbrev letter_lt : String → String → Bool
letter_lt a b = str_eq a "a" && str_eq b "b"

abbrev listing_chrono : Chrono
listing_chrono = record test_chrono { parse_rfc3339 = λ text. some (at_secs 10) }

abbrev two_rows : Store → List LinkRow
two_rows s = row_b ∷ row_a ∷ []

abbrev listing_database : Database Store
listing_database = record table_database {
  select_page = λ after limit s.
      (ok (take (pos_part limit) (filter (is_after letter_lt after) (two_rows s))), s);
}

letter_lt_asym : (a c : String) → letter_lt a c ≡ true → letter_lt c a ≡ false
letter_lt_asym a c h =
    let c_b : c ≡ "b" = (eq_iff c "b").0 (ground arith) in
    subst (λ (x : String). letter_lt x a ≡ false) (sym c_b) refl

listing_database-IsPageSql : IsPageSql listing_database listing_chrono letter_lt two_rows
listing_database-IsPageSql = record {
  pages = λ after n s. refl;
  falls = λ s. ((refl, tt), (tt, tt));
  reads_back = λ s. (refl, (refl, tt));
  asym = letter_lt_asym;
}

collect-ordered_example :
    collect listing_database listing_chrono (at_secs 40) 1 3 none one_row
    ≡ some (map link_of_row (two_rows one_row))
collect-ordered_example =
    collect-ordered listing_database listing_chrono letter_lt two_rows (at_secs 40) 3 1 one_row
      listing_database-IsPageSql (omega arith) (omega arith) (omega arith)

postgres-IsLinkRepository_example :
    IsLinkRepository (postgres table_database test_chrono (at_secs 40))
postgres-IsLinkRepository_example =
    postgres-IsLinkRepository table_database committed_rows pending_rows next_id
      (table_database-IsSql ⊥) test_chrono (at_secs 40) (λ after n b. refl)
