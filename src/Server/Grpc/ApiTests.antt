-- ===== src/Server/Grpc/ApiTests.antt =====
-- The gRPC service beside the HTTP API, at concrete inputs.
use otus_rusthomework_http_a.Common.{◌≡◌, refl, false, none, some, pos}
use otus_rusthomework_http_a.Common.Outcome.{ok}
use otus_rusthomework_http_a.Common.Dict.{lookup}
use otus_rusthomework_http_a.Common.Time.{at_secs}
use otus_rusthomework_http_a.Domain.Link.{new}
use otus_rusthomework_http_a.Storage.InMemory.{
  in_memory, empty, insert_sync, stats_sync, new_entry, entry_stats,
}
use otus_rusthomework_http_a.Storage.InMemory.Contract.{in_memory-IsLinkRepository}
use otus_rusthomework_http_a.Server.Cache.{from_manager}
use otus_rusthomework_http_a.Server.Handlers
use otus_rusthomework_http_a.Server.Handlers.{redirect}
use otus_rusthomework_http_a.Server.Handlers.Created.{moved}
use otus_rusthomework_http_a.Server.Tests.{
  map_redis, held, map_redis-IsRedis, plain_serde, plain_serde-HasRoundTrip, plain_urls, no_codec,
  start, session, after_session,
}
use otus_rusthomework_http_a.Server.Grpc
use otus_rusthomework_http_a.Server.Grpc.{GrpcCreateRequest, GrpcCreated, create_link, grpc_created}
use otus_rusthomework_http_a.Server.Grpc.Created.{redirect-create_link}
use otus_rusthomework_http_a.Server.Grpc.Agrees.{Agree, get_link-agrees}

get_link-agrees_example :
    Agree
      (Handlers.get_link in_memory map_redis plain_serde "promo" (pos 0) after_session).0
      (Grpc.get_link in_memory (λ now header. ok tt) (pos 5) none "promo" after_session.repo).0
unfolding from_manager lookup
get_link-agrees_example =
    get_link-agrees in_memory in_memory-IsLinkRepository map_redis held map_redis-IsRedis
      plain_serde plain_serde-HasRoundTrip (λ t key d. refl) plain_urls no_codec 3
      (λ now header. ok tt) session "promo" (pos 0) (pos 5) none start (λ key. refl) refl

-- A minute to live is asked for, and the text is no URL.
abbrev any_text : GrpcCreateRequest
any_text = record { target_url = "anything"; custom_code = none; ttl_seconds = some (pos 60) }

abbrev any_created : GrpcCreated
any_created = grpc_created (entry_stats (new_entry (new "0a1b2c3d" "anything" (at_secs 100))))

redirect-create_link_example :
    (any_created.target_url ≡ "anything")
    × (lookup "0a1b2c3d" empty.inner ≡ none)
    × ((redirect in_memory map_redis plain_serde any_created.code
          (at_secs 9000)
          (at_secs 9000)
          (record start {
            repo =
                (create_link in_memory
                  (λ now header. ok tt)
                  (pos 5)
                  none
                  any_text
                  "0a1b2c3d"
                  (at_secs 100)
                  empty).1;
          })).0
        ≡ moved "anything" false)
unfolding grpc_created entry_stats new_entry new create_link insert_sync stats_sync
redirect-create_link_example =
    redirect-create_link (λ now header. ok tt) map_redis plain_serde start.cache (pos 5) none
      any_text "0a1b2c3d" (at_secs 100) (at_secs 9000) (at_secs 9000) empty any_created refl
