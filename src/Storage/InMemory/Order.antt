-- ===== src/Storage/InMemory/Order.antt =====
-- The order of the listing is a total order: newest first, and by falling code at one time.
use otus_rusthomework_http_a.Common.{◌≡◌, true, arith}
use otus_rusthomework_http_a.Common.Sorting.{IsTotalOrder, IsSorted, sort_by-IsSorted}
use otus_rusthomework_http_a.Common.Text.{str_leb_total, str_leb_trans}
use otus_rusthomework_http_a.Domain.Link.{ShortLink}
use otus_rusthomework_http_a.Storage.InMemory.{InMemoryRepo, newer_first, sorted_links, links_of}

newer_first_trans :
    (a b c : ShortLink) → newer_first a b ≡ true → newer_first b c ≡ true → newer_first a c ≡ true
unfolding newer_first
newer_first_trans a b c h k =
    unfold newer_first in ground (arith, str_leb_trans c.code b.code a.code)

pub newer_first-IsTotalOrder : IsTotalOrder newer_first
unfolding newer_first
newer_first-IsTotalOrder = record {
  total = λ a b h. ground (arith, str_leb_total b.code a.code);
  trans = newer_first_trans;
}

pub sorted_links-IsSorted : (repo : InMemoryRepo) → IsSorted newer_first (sorted_links repo)
unfolding sorted_links
sorted_links-IsSorted repo = sort_by-IsSorted newer_first-IsTotalOrder (links_of repo.inner)
