-- ===== src/Server/Router/CreationTests.antt =====
-- A creation over HTTP and the redirection behind it, at concrete requests.
use otus_rusthomework_http_a.Common.{
  String, ◌≡◌, refl, none, some, Option, List, ◌∷◌, str_eq, if◌then◌else◌,
}
use otus_rusthomework_http_a.Common.Outcome.{ok}
use otus_rusthomework_http_a.Common.Dict.{Dict}
use otus_rusthomework_http_a.Common.Text.{strip_prefix}
use otus_rusthomework_http_a.Common.Time.{SystemTime, at_secs}
use otus_rusthomework_http_a.Domain.Link.{new}
use otus_rusthomework_http_a.Storage.InMemory.{InMemoryRepo, insert_sync, stats_sync}
use otus_rusthomework_http_a.Server.Dto.{
  CreateLinkRequest, LinkResponse, parse_target_url, validate_custom_code, from_stats,
  expires_at_from_ttl,
}
use otus_rusthomework_http_a.Server.Handlers
use otus_rusthomework_http_a.Server.Handlers.{created}
use otus_rusthomework_http_a.Server.Handlers.Created.{is_past}
use otus_rusthomework_http_a.Server.Auth.{auth_middleware}
use otus_rusthomework_http_a.Server.Tests.{start, promo}
use otus_rusthomework_http_a.Server.Router.{
  AppState, HttpRequest, HttpResponse, Route, Services, get, post,
}
use otus_rusthomework_http_a.Server.Router.Serve.{created_reply, serve, handler_of}
use otus_rusthomework_http_a.Server.Router.Tests.{services, state, deletion, readings, no_bodies}
use otus_rusthomework_http_a.Server.Router.Created.{forwarded, serve-create_link}

-- The links, or else a code.
abbrev promo_matcher : List Route → String → Option (Route × String)
promo_matcher (a ∷ b ∷ c ∷ d ∷ e ∷ f ∷ routes) path =
    if str_eq path "/api/v1/links" then some (f, "") else some (e, "promo")
promo_matcher _ path = none

abbrev promo_services : Services InMemoryRepo (Dict String)
promo_services = record services { extract = record no_bodies { create_body = λ body. ok promo } }

abbrev open_state : AppState
open_state = record state { auth = none }

abbrev creation : HttpRequest
creation = record deletion { method = post; path = "/api/v1/links" }

abbrev visit : HttpRequest
visit = record deletion { method = get; path = "/promo" }

abbrev promo_body : LinkResponse
unfolding from_stats
promo_body = from_stats (record { link = new "promo" "https://promo" (at_secs 5); hits = 0 })

abbrev promo_reply : HttpResponse
promo_reply =
    created_reply
      (created "promo" (record { link = new "promo" "https://promo" (at_secs 5); hits = 0 }))

serve-create_link_example :
    (promo_reply.status ≡ 201)
    × (promo_reply.location ≡ some "/api/v1/links/promo")
    × (body : CreateLinkRequest) × (expires : Option SystemTime)
    × (promo_services.extract.create_body creation.body ≡ ok body)
    × (expires_at_from_ttl body.ttl_seconds readings.now ≡ ok expires)
    × ((serve promo_services open_state promo_matcher visit readings
          (serve promo_services open_state promo_matcher creation readings start).1).0
        ≡ forwarded readings.request_id "https://promo" (is_past expires readings.now))
unfolding auth_middleware created from_stats new serve handler_of Handlers.create_link
    parse_target_url validate_custom_code strip_prefix insert_sync stats_sync
serve-create_link_example =
    serve-create_link promo_services open_state promo_matcher creation visit readings readings start
      promo_reply promo_body "" refl refl refl refl refl refl
