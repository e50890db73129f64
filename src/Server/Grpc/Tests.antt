-- ===== src/Server/Grpc/Tests.antt =====
-- The gRPC service at concrete inputs.
use otus_rusthomework_http_a.Common.{
  ℤ, ◌≤◌, ◌⊎◌, arith, String, str_append, pos, negsuc, ◌≡◌, refl, Option, some, none, [], ◌∷◌,
}
use otus_rusthomework_http_a.Common.Outcome.{Outcome, ok}
use otus_rusthomework_http_a.Common.Dict.{lookup}
use otus_rusthomework_http_a.Common.Time.{SystemTime, at_secs}
use otus_rusthomework_http_a.Domain.Link.{new, LinkStats}
use otus_rusthomework_http_a.Storage.InMemory.{
  InMemoryRepo, in_memory, new_entry, list_sync, entry_stats, stats_sync,
}
use otus_rusthomework_http_a.Server.Auth.Tests.{plain_crypto, config}
use otus_rusthomework_http_a.Server.Grpc.{
  Status, GrpcCreateRequest, GrpcListRequest, authenticate, get_link, create_link, list_links,
  request_id_interceptor, cursor_of_token, token_of_cursor, protobuf_timestamp, page_size_of,
}
use otus_rusthomework_http_a.Server.Dto.{is_code_byte}
use otus_rusthomework_http_a.Server.Grpc.Guard.{IsAuthorized, Refused, authenticate-guards}
use otus_rusthomework_http_a.Server.Grpc.Stream.{
  Stream, opened, event_of, batch_size_of, stream_links, found, sent, taken, Run, here, next,
}
use otus_rusthomework_http_a.Server.Grpc.Delivery.{HasEnded, Proceeds, stream_ends}
use otus_rusthomework_http_a.Server.Grpc.Restart.{list_links_restarts}
use otus_rusthomework_http_a.Server.Grpc.Paging.{cursor_of_token-list_sync}

abbrev two_links : InMemoryRepo
two_links = record {
  inner =
      ("old-1", new_entry (new "old-1" "https://a" (at_secs 100)))
      ∷ ("new-2", new_entry (new "new-2" "https://b" (at_secs 200)))
      ∷ [];
  stats = [];
}

service_runs :
    (protobuf_timestamp (pos 1_500_000_000) ≡ record { seconds = pos 1; nanos = pos 500_000_000 })
    × (cursor_of_token (some "200:new-2") ≡ some ("200", "new-2"))
    × (cursor_of_token (some "2026-01-01T00:00:00+00:00:new-2") ≡ none)
    × (page_size_of (negsuc 4) ≡ 20)
unfolding protobuf_timestamp cursor_of_token page_size_of
service_runs = (refl, refl, refl, refl)

authenticate-guards_example :
    let auth : ℤ → Option String → Outcome Status Unit = authenticate plain_crypto "/src" config in
    IsAuthorized plain_crypto "/src" config (pos 5) (some "Basic x")
    ⊎ (((code : String)
          → Refused two_links (get_link in_memory auth (pos 5) (some "Basic x") code two_links))
        × ((req : GrpcCreateRequest) (generated : String) (created : SystemTime)
            → Refused two_links (
                create_link in_memory auth
                  (pos 5)
                  (some "Basic x")
                  req
                  generated
                  created
                  two_links))
        × ((req : GrpcListRequest)
            → Refused two_links (list_links in_memory auth (pos 5) (some "Basic x") req two_links))
        × ((batch_size : ℤ)
            → Refused two_links (stream_links auth (pos 5) (some "Basic x") batch_size two_links)))
authenticate-guards_example =
    authenticate-guards in_memory plain_crypto "/src" config (pos 5) (some "Basic x") two_links

cursor_of_token-list_sync_example :
    cursor_of_token (token_of_cursor (some ("200", "new-2"))) ≡ some ("200", "new-2")
unfolding list_sync new new_entry is_code_byte
cursor_of_token-list_sync_example =
    cursor_of_token-list_sync 1 none two_links
      (new "new-2" "https://b" (at_secs 200) ∷ [], some ("200", "new-2")) refl
      ((refl, (refl, (refl, (refl, (refl, tt))))), tt)

list_links_restarts_example :
    let req : GrpcListRequest = record { page_size = pos 1; page_token = none } in
    list_links in_memory
      (λ now header. ok tt)
      (pos 5)
      (some "Basic x")
      (record req {
        page_token = token_of_cursor (some (str_append "12" (str_append ":" "34:56"), "new-2"));
      })
      two_links
    ≡ list_links in_memory (λ now header. ok tt) (pos 5) (some "Basic x") req two_links
list_links_restarts_example =
    list_links_restarts in_memory (λ now header. ok tt) (pos 5) (some "Basic x")
      (record { page_size = pos 1; page_token = none }) "12" "34:56" "new-2" two_links

abbrev stream_repo : InMemoryRepo
stream_repo = record {
  inner = ("stream-1", new_entry (new "stream-1" "https://s" (at_secs 300))) ∷ [];
  stats = [];
}

abbrev first_stats : LinkStats
first_stats = record { link = new "stream-1" "https://s" (at_secs 300); hits = 0 }

abbrev holding : Stream
holding = record opened {
  codes = "stream-2" ∷ [];
  sending = some (event_of first_stats (at_secs 301));
}

abbrev buffered : Stream
buffered = record holding { sending = none; buffer = event_of first_stats (at_secs 301) ∷ [] }

abbrev delivered : Stream
delivered = record buffered { buffer = []; received = event_of first_stats (at_secs 301) ∷ [] }

to_delivered : Run in_memory (batch_size_of (pos 1)) 3 opened delivered
unfolding new_entry lookup entry_stats stats_sync
to_delivered =
    next
      (found opened "stream-1" ("stream-2" ∷ []) stream_repo first_stats (at_secs 301) refl refl
        refl)
      (next
        (sent holding (event_of first_stats (at_secs 301)) refl refl
          (unfold batch_size_of in omega arith))
        (next (taken buffered (event_of first_stats (at_secs 301)) [] refl refl) (here delivered)))

stream_links_runs :
    ((stream_links (λ now header. ok tt) (pos 5) none (pos 1000) two_links).0 ≡ ok (100, opened))
    × (request_id_interceptor (some "r7") "new" ≡ "r7")
unfolding stream_links request_id_interceptor
stream_links_runs = (refl, refl)

stream_ends_example :
    (3 ≤ 9) × (HasEnded delivered ⊎ Proceeds in_memory (batch_size_of (pos 1)) delivered)
stream_ends_example = stream_ends in_memory (pos 1) 3 delivered stream_repo to_delivered
