-- ===== src/Server/Router/Tests.antt =====
-- The routes at concrete requests.
use otus_rusthomework_http_a.Common.{
  ◌+ℤ◌, i64_as_u64, arith, str_eq, if◌then◌else◌, String, ◌≡◌, ◌≢◌, refl, sym, inl, inr, true,
  false, Option, none, some, [], ◌∷◌, pos, List,
}
use otus_rusthomework_http_a.Common.Outcome.{ok, err}
use otus_rusthomework_http_a.Common.Dict.{Dict}
use otus_rusthomework_http_a.Common.Time.{at_secs}
use otus_rusthomework_http_a.Storage.InMemory.{InMemoryRepo, in_memory}
use otus_rusthomework_http_a.Server.Auth.{missing_token, auth_middleware, default_auth, load_keys}
use otus_rusthomework_http_a.Server.Auth.Tests.{
  plain_crypto, config, AnyPair, plain_crypto-IsJwt, login, answer,
}
use otus_rusthomework_http_a.Server.Tests.{
  map_redis, plain_serde, plain_urls, no_codec, start, draw,
}
use otus_rusthomework_http_a.Server.Config.{default}
use otus_rusthomework_http_a.Server.Router.{
  login_handler, post, redirect, get, put, get_link, update_link, delete_link, Route, AppState,
  HttpRequest, delete, Readings, Services, Extractors,
}
use otus_rusthomework_http_a.Server.Router.Serve.{serve, handler_of, handle_method}
use otus_rusthomework_http_a.Server.Router.Guarded.{IsMatcher, endpoint_of, serve-keeps}
use otus_rusthomework_http_a.Server.Router.Session.{serve-login_handler}
use otus_rusthomework_http_a.Server.Router.Template.{
  label, route_template, route_template-label, starts_with,
}

route_template-label_example : route_template "/api/v1/links/abcd" ≡ label "/api/v1/links/abcd"
unfolding starts_with
route_template-label_example = route_template-label "/api/v1/links/abcd" refl

-- The second route of the guarded ones for every path.
abbrev pub links_matcher : List Route → String → Option (Route × String)
links_matcher (a ∷ b ∷ c ∷ d ∷ e ∷ f ∷ g ∷ routes) path = some (g, "abcd")
links_matcher _ path = none

links_matcher-IsMatcher : IsMatcher links_matcher
links_matcher-IsMatcher (a ∷ b ∷ c ∷ d ∷ e ∷ f ∷ g ∷ routes) path r code h =
    let g_r : g ≡ r = cc in inr (inr (inr (inr (inr (inr (inl (sym g_r)))))))
links_matcher-IsMatcher [] path r code h = cc
links_matcher-IsMatcher (a ∷ []) path r code h = cc
links_matcher-IsMatcher (a ∷ b ∷ []) path r code h = cc
links_matcher-IsMatcher (a ∷ b ∷ c ∷ []) path r code h = cc
links_matcher-IsMatcher (a ∷ b ∷ c ∷ d ∷ []) path r code h = cc
links_matcher-IsMatcher (a ∷ b ∷ c ∷ d ∷ e ∷ []) path r code h = cc
links_matcher-IsMatcher (a ∷ b ∷ c ∷ d ∷ e ∷ f ∷ []) path r code h = cc

abbrev pub no_bodies : Extractors
no_bodies = record {
  create_body = λ body. err (400, "no JSON");
  update_body = λ body. err (400, "no JSON");
  login_body = λ body. err (400, "no JSON");
  top_query = λ query. ok none;
  params = λ query. [];
}

abbrev pub services : Services InMemoryRepo (Dict String)
services = record {
  repo = in_memory;
  redis = map_redis;
  serde = plain_serde;
  urls = plain_urls;
  codec = no_codec;
  crypto = plain_crypto;
  manifest_dir = "/src";
  extract = no_bodies;
}

abbrev pub state : AppState
state = record {
  config = default "hash";
  auth = some (default_auth "hash");
  stats_storage = [];
  metrics_text = "";
  pkg_version = "1.0.0";
}

abbrev pub deletion : HttpRequest
deletion = record {
  method = delete;
  path = "/api/v1/links/abcd";
  authorization = none;
  body = "";
  query = "";
}

abbrev pub readings : Readings
readings = record {
  unix_now = pos 5;
  now = at_secs 5;
  later = at_secs 5;
  draw = draw;
  offset = pos 0;
  request_id = some "r1";
  is_cancelled = false;
  database = none;
}

reaches_deletion : endpoint_of links_matcher deletion ≢ some redirect
unfolding endpoint_of handler_of
reaches_deletion h = cc

serve-keeps_example : (serve services state links_matcher deletion readings start).1 ≡ start
unfolding auth_middleware
serve-keeps_example =
    serve-keeps services state links_matcher deletion readings start missing_token
      links_matcher-IsMatcher refl reaches_deletion

-- A login, and a deletion with its token.
abbrev session_matcher : List Route → String → Option (Route × String)
session_matcher (a ∷ b ∷ c ∷ d ∷ e ∷ f ∷ g ∷ routes) path =
    if str_eq path "/auth/login" then some (d, "") else some (g, "abcd")
session_matcher _ path = none

abbrev session_services : Services InMemoryRepo (Dict String)
session_services = record services { extract = record no_bodies { login_body = λ body. ok login } }

abbrev session_state : AppState
session_state = record state {
  config = record (default "hash") { auth = some config };
  auth = some config;
}

abbrev login_request : HttpRequest
login_request = record deletion { method = post; path = "/auth/login" }

abbrev shown_token : HttpRequest
shown_token = record deletion { authorization = some "Bearer shorty-service" }

serve-login_handler_example :
    serve session_services session_state session_matcher shown_token
      (record readings { unix_now = pos 1930 })
      start
    ≡ handle_method session_services session_state
        ((get, get_link) ∷ (put, update_link) ∷ (delete, delete_link) ∷ [])
        "abcd"
        shown_token
        (record readings { unix_now = pos 1930 })
        start
unfolding default_auth load_keys ◌+ℤ◌ i64_as_u64 handler_of serve
serve-login_handler_example =
    serve-login_handler session_services session_state session_matcher config AnyPair
      plain_crypto-IsJwt login_request shown_token (record readings { unix_now = pos 1000 })
      (record readings { unix_now = pos 1930 }) start start
      (record { path = "/auth/login"; on = (post, login_handler) ∷ []; is_guarded = false })
      (record {
        path = "/api/v1/links/{code}";
        on = (get, get_link) ∷ (put, update_link) ∷ (delete, delete_link) ∷ [];
        is_guarded = true;
      })
      "" "abcd" login (answer "shorty-service") (pos 1900)
      ("/src../keys/jwt_private.pem", "/src../keys/jwt_public.pem") refl refl refl refl refl tt refl
      (omega arith) refl refl refl refl refl refl refl refl
