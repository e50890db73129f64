-- ===== src/Server/HandlerTests.antt =====
-- Redirections beside each other at concrete inputs.
use otus_rusthomework_http_a.Common.{◌+◌, String, ◌≡◌, refl, List, [], ◌∷◌}
use otus_rusthomework_http_a.Common.Dict.{Dict, lookup}
use otus_rusthomework_http_a.Common.Text.{strip_prefix}
use otus_rusthomework_http_a.Common.Time.{at_secs}
use otus_rusthomework_http_a.Domain.Link.{ShortLink, new}
use otus_rusthomework_http_a.Storage.InMemory.{
  in_memory, get_sync, insert_sync, stats_sync, record_hit_sync,
}
use otus_rusthomework_http_a.Server.Dto.{parse_target_url, validate_custom_code}
use otus_rusthomework_http_a.Server.Handlers.{create_link}
use otus_rusthomework_http_a.Server.Handlers.Hits.{waiting, at_phase}
use otus_rusthomework_http_a.Server.Handlers.Flights.{
  Flight, Move, turn, updating, count_of, move_all,
}
use otus_rusthomework_http_a.Server.Handlers.Flights.Counts.{Holds, move_all-counts}
use otus_rusthomework_http_a.Server.Tests.{map_redis, plain_serde, plain_urls, start, draw, promo}

abbrev promo_link : ShortLink
promo_link = new "promo" "https://promo" (at_secs 100)

-- Two redirections of one link, step by step beside each other, and an update between them.
abbrev two_redirections : Flight (Dict String)
two_redirections = record {
  redirections =
      at_phase "promo" (at_secs 102) (at_secs 102) waiting
      ∷ at_phase "promo" (at_secs 103) (at_secs 103) waiting
      ∷ [];
  world = (create_link in_memory plain_urls 3 draw promo (at_secs 100) (at_secs 100) start).1;
}

abbrev interleaved : List Move
interleaved =
    turn 0
    ∷ turn 1
    ∷ turn 1
    ∷ updating "promo" "https://new" (at_secs 103)
    ∷ turn 0
    ∷ turn 0
    ∷ turn 1
    ∷ []

move_all-counts_example :
    Holds "promo"
      (0
        + count_of "promo"
            (move_all map_redis plain_serde interleaved two_redirections).redirections)
      (move_all map_redis plain_serde interleaved two_redirections).world.repo
unfolding create_link parse_target_url validate_custom_code strip_prefix insert_sync stats_sync
    count_of lookup
move_all-counts_example =
    move_all-counts map_redis plain_serde "promo" interleaved two_redirections 0
      (tt, (tt, (tt, (tt, (tt, (tt, (tt, tt)))))))
      (record { link = promo_link; hits = 0 }, refl, refl)

both_counted :
    count_of "promo" (move_all map_redis plain_serde interleaved two_redirections).redirections ≡ 2
unfolding create_link parse_target_url validate_custom_code strip_prefix insert_sync stats_sync
    count_of lookup move_all get_sync record_hit_sync
both_counted = refl
