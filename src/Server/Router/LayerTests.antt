-- ===== src/Server/Router/LayerTests.antt =====
-- The layers at concrete requests.
use otus_rusthomework_http_a.Common.{
  ℕ, ◌+◌, String, ◌≡◌, refl, ◌⊎◌, Option, none, some, List, [], ◌∷◌, ltb, if◌then◌else◌, arith,
}
use otus_rusthomework_http_a.Common.Dict.{Dict}
use otus_rusthomework_http_a.Storage.InMemory.{InMemoryRepo}
use otus_rusthomework_http_a.Server.Auth.{missing_token, auth_middleware}
use otus_rusthomework_http_a.Server.Handlers.{World}
use otus_rusthomework_http_a.Server.Tests.{start}
use otus_rusthomework_http_a.Server.Router.{HttpResponse, reply, no_payload, text, auth_reply}
use otus_rusthomework_http_a.Server.Config.{default}
use otus_rusthomework_http_a.Server.Router.Tests.{
  links_matcher, services, state, deletion, readings,
}
use otus_rusthomework_http_a.Server.Router.Layers.{
  Tower, IsTower, Incoming, Outgoing, Passing, Observed, layered,
}
use otus_rusthomework_http_a.Server.Router.RequestIds.{IsIdentified, id_of, layered-IsIdentified}
use otus_rusthomework_http_a.Server.Router.Requests.{
  counter_value, layered_all, answered_with, counter_value-layered_all,
}

-- A header value is a visible text.
abbrev plain_tower : Tower
plain_tower = record {
  HeaderValue = String;
  to_str = some;
  set_request_id = λ uuid sent. elim sent [ none ↦ uuid | some v ↦ v ];
  timed_out = λ status. reply status no_payload;
  body_limit = λ max announced. elim announced [
    | none ↦ none
    | some n ↦ if ltb max n then some (reply 413 (text "length limit exceeded")) else none
  ];
  propagate = λ asked answered. elim answered [ none ↦ asked | some v ↦ some v ];
}

limit_status :
    (max : ℕ) (announced : Option ℕ) (r : HttpResponse)
    → plain_tower.body_limit max announced ≡ some r
    → r.status ≡ 413
limit_status max none r h = cc
limit_status max (some n) r h = ground arith

plain_tower-IsTower : IsTower plain_tower
plain_tower-IsTower = record {
  set_keeps = λ uuid v. refl;
  propagates = λ v. refl;
  timed_out_status = λ status. refl;
  limit_status = limit_status;
}

abbrev incoming : Incoming String
incoming = record {
  request = deletion;
  method_text = "DELETE";
  uri = "/api/v1/links/abcd";
  x_request_id = some "r7";
  content_length = none;
}

abbrev passing : Passing (World InMemoryRepo (Dict String))
passing = record { at = readings; uuid = "u1"; latency = 1000; dropped = none }

abbrev at_start : Observed (World InMemoryRepo (Dict String))
at_start = record { world = start; metrics = []; spans = [] }

abbrev refusal : Outgoing String
refusal = record { response = auth_reply (some "r7") missing_token; x_request_id = some "r7" }

layered-IsIdentified_example :
    IsIdentified plain_tower (id_of plain_tower "u1" (some "r7")) refusal
    ⊎ ((refusal.x_request_id ≡ none)
        × ((refusal.response.status ≡ 503) ⊎ (refusal.response.status ≡ 413)))
unfolding auth_middleware layered
layered-IsIdentified_example =
    layered-IsIdentified plain_tower plain_tower-IsTower services state links_matcher incoming
      passing at_start refusal refl

-- The second request announces too long a body, and the third meets the deadline.
abbrev requests : List (Incoming String × Passing (World InMemoryRepo (Dict String)))
requests =
    (incoming, passing)
    ∷ (record incoming { content_length = some 1000000000 }, passing)
    ∷ (incoming, record passing { dropped = some start })
    ∷ []

counter_value-layered_all_example :
    counter_value "DELETE" "/api/v1/links/abcd" 503
      (layered_all plain_tower services state links_matcher requests at_start).1.metrics
    ≡ counter_value "DELETE" "/api/v1/links/abcd" 503 []
      + answered_with plain_tower "DELETE" "/api/v1/links/abcd" 503
          (layered_all plain_tower services state links_matcher requests at_start).0
counter_value-layered_all_example =
    counter_value-layered_all plain_tower services state links_matcher "DELETE" "/api/v1/links/abcd"
      503 requests at_start

-- One of the three is answered with 503.
counted :
    counter_value "DELETE" "/api/v1/links/abcd" 503
      (layered_all plain_tower services state links_matcher requests at_start).1.metrics
    ≡ 1
unfolding auth_middleware layered_all counter_value default
counted = refl
