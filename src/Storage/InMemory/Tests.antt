-- ===== src/Storage/InMemory/Tests.antt =====
-- Runs of the repository in memory, and its theorems at concrete inputs.
use otus_rusthomework_http_a.Common.{
  String, ◌≡◌, refl, not, none, some, List, [], ◌∷◌, arith, length, filter, if◌then◌else◌,
}
use otus_rusthomework_http_a.Common.Outcome.{ok, err}
use otus_rusthomework_http_a.Common.Dict.{lookup}
use otus_rusthomework_http_a.Common.Time.{at_secs}
use otus_rusthomework_http_a.Domain.Link.{ShortLink, new, with_expires_at, code_taken, not_found}
use otus_rusthomework_http_a.Storage.InMemory.{
  InMemoryRepo, empty, cursor_of, sorted_links, list_sync, insert_sync, expired_codes,
  purge_expired_sync, stats_sync,
}
use otus_rusthomework_http_a.Storage.InMemory.Map.{IsWellFormed, insert_sync-IsWellFormed}
use otus_rusthomework_http_a.Storage.InMemory.Paging.{collect, collect-sorted_links}
use otus_rusthomework_http_a.Storage.InMemory.Purge.{has_expired, contains, purge_expired_sync_lem}
use otus_rusthomework_http_a.Storage.InMemory.Calls.{
  Request, insert_link, hit_link, get_stats, purge, view,
}
use otus_rusthomework_http_a.Storage.InMemory.Refines.{
  replies, contract_replies, replies-eq-contract_replies,
}

abbrev first : ShortLink
first = new "aaaa" "https://a.example" (at_secs 10)

abbrev second : ShortLink
second = with_expires_at (new "bbbb" "https://b.example" (at_secs 20)) (at_secs 50)

abbrev third : ShortLink
third = new "cccc" "https://c.example" (at_secs 20)

abbrev two : InMemoryRepo
two = (insert_sync second (insert_sync first empty).1).1

abbrev three : InMemoryRepo
three = (insert_sync third two).1

empty-IsWellFormed : IsWellFormed empty
empty-IsWellFormed = record { distinct = tt; own = tt }

three-IsWellFormed : IsWellFormed three
three-IsWellFormed =
    insert_sync-IsWellFormed two
      (insert_sync-IsWellFormed (insert_sync first empty).1
        (insert_sync-IsWellFormed empty empty-IsWellFormed first) second)
      third

program : Unit {0}
unfolding new with_expires_at insert_sync list_sync sorted_links cursor_of purge_expired_sync
    stats_sync
program = tt

three_sorted : sorted_links three ≡ third ∷ second ∷ first ∷ []
unfolding program
three_sorted = refl

repository_runs :
    ((insert_sync first three).0 ≡ err (code_taken "aaaa"))
    × (list_sync 2 none three ≡ ok (third ∷ second ∷ [], some ("20", "bbbb")))
    × (list_sync 2 (some ("20", "bbbb")) three ≡ ok (first ∷ [], some ("10", "aaaa")))
    × (list_sync 2 (some ("10", "aaaa")) three ≡ ok ([], none))
    × (list_sync 1 (some ("7", "zzzz")) three ≡ ok (third ∷ [], some ("20", "cccc")))
    × ((purge_expired_sync (at_secs 50) three).0 ≡ 1)
    × ((stats_sync "bbbb" (purge_expired_sync (at_secs 50) three).1).0 ≡ err (not_found "bbbb"))
unfolding program
repository_runs = (refl, refl, refl, refl, refl, refl, refl)

collect-sorted_links_example : collect 4 2 none three ≡ some (sorted_links three)
collect-sorted_links_example =
    collect-sorted_links 4 2 three three-IsWellFormed (omega arith) (rw three_sorted (omega arith))
      (rw three_sorted (omega arith))

purge_expired_sync_lem_example :
    ((purge_expired_sync (at_secs 50) three).1.inner
      ≡ filter (λ e. not (has_expired (at_secs 50) e)) three.inner)
    × ((purge_expired_sync (at_secs 50) three).0
        ≡ length (filter (has_expired (at_secs 50)) three.inner))
    × ((code : String)
        → lookup code (purge_expired_sync (at_secs 50) three).1.stats ≡ (
            if contains (expired_codes (at_secs 50) three.inner) code
            then none
            else lookup code three.stats))
purge_expired_sync_lem_example = purge_expired_sync_lem (at_secs 50) three three-IsWellFormed

abbrev calls : List Request
calls =
    insert_link first
    ∷ hit_link "aaaa" (at_secs 30)
    ∷ hit_link "zzzz" (at_secs 30)
    ∷ purge (at_secs 60)
    ∷ get_stats "aaaa"
    ∷ get_stats "bbbb"
    ∷ []

replies-eq-contract_replies_example : replies calls two ≡ contract_replies calls (view two)
replies-eq-contract_replies_example = replies-eq-contract_replies calls two (
    insert_sync-IsWellFormed (insert_sync first empty).1
      (insert_sync-IsWellFormed empty empty-IsWellFormed first) second)
