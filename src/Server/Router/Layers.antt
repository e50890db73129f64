-- ===== src/Server/Router/Layers.antt =====
-- shorty-server/src/lib.rs and request_id.rs: the layers around the routes, from the outermost in.
-- The layers of the crate tower-http are a parameter; what the server tells the crates metrics and
-- tracing are the calls of their macros, in order.
use otus_rusthomework_http_a.Common.{ℕ, String, ◌≡◌, Option, none, some, List, [], ◌∷◌, ◌++◌}
use otus_rusthomework_http_a.Common.Outcome.{Outcome, ok, err, panic, Exec}
use otus_rusthomework_http_a.Common.Text.{to_string}
use otus_rusthomework_http_a.Server.Handlers.{World}
use otus_rusthomework_http_a.Server.Router.{
  Route, AppState, HttpRequest, HttpResponse, Readings, Services,
}
use otus_rusthomework_http_a.Server.Router.Serve.{serve}
use otus_rusthomework_http_a.Server.Router.Template.{route_template}

-- What the code uses of the crates http and tower-http: a header value and its visible text, and
-- four layers. The body limit looks at the length that a request announces.
pub record Tower : Type 1 where
  pub HeaderValue : Type 0
  pub to_str : HeaderValue → Option String
  pub set_request_id : String → Option HeaderValue → HeaderValue
  pub timed_out : ℕ → HttpResponse
  pub body_limit : ℕ → Option ℕ → Option HttpResponse
  pub propagate : Option HeaderValue → Option HeaderValue → Option HeaderValue

-- What tower-http documents: an id that is there stays, an id of a request is copied to a response
-- that has none, and the two refusals have their statuses.
pub record IsTower (t : Tower) : Type 0 where
  pub set_keeps : (uuid : String) (v : t.HeaderValue) → t.set_request_id uuid (some v) ≡ v
  pub propagates : (v : t.HeaderValue) → t.propagate (some v) none ≡ some v
  pub timed_out_status : (status : ℕ) → (t.timed_out status).status ≡ status
  pub limit_status :
      (max : ℕ) (announced : Option ℕ) (r : HttpResponse)
      → t.body_limit max announced ≡ some r
      → r.status ≡ 413

-- A request with what the layers read of it; `V` is the type of a header value.
pub record Incoming (V : Type 0) : Type 0 where
  pub request : HttpRequest
  pub method_text : String
  pub uri : String
  pub x_request_id : Option V
  pub content_length : Option ℕ

pub record Outgoing (V : Type 0) : Type 0 where
  pub response : HttpResponse
  pub x_request_id : Option V

-- What the layers read while they run: the drawn id, the time that the inner layers took, in
-- nanoseconds, and, where the timeout was first, what the dropped handler had done until then.
pub record Passing (W : Type 0) : Type 0 where
  pub at : Readings
  pub uuid : String
  pub latency : ℕ
  pub dropped : Option W

-- A call of `counter!(…).increment(1)`, or of `histogram!(…).record(latency)`.
pub data MetricCall : Type 0 where
  increment : String → List (String × String) → MetricCall
  observe : String → List (String × String) → ℕ → MetricCall

pub record Span : Type 0 where
  pub name : String
  pub fields : List (String × String)

pub record Observed (W : Type 0) : Type 0 where
  pub world : W
  pub metrics : List MetricCall
  pub spans : List Span

abbrev pub map_ok : {E A B : Type 0} → (A → B) → Outcome E A → Outcome E B
map_ok f (ok a) = ok (f a)
map_ok f (err e) = err e
map_ok f panic = panic

abbrev pub and_text : {V : Type 0} → (V → Option String) → Option V → Option String
and_text to_str none = none
and_text to_str (some v) = to_str v

unfoldable pub requests_total : String → String → ℕ → MetricCall
unfolding to_string
requests_total method route status =
    increment "http_requests_total"
      (("method", method) ∷ ("route", route) ∷ ("status", to_string status) ∷ [])

unfoldable pub request_duration : String → String → ℕ → MetricCall
request_duration method route latency =
    observe "http_request_duration_seconds" (("method", method) ∷ ("route", route) ∷ []) latency

abbrev pub Service : Tower → Type 0 → Type 0
Service tower W =
    Incoming tower.HeaderValue → Passing W → Exec (Observed W) ⊥ (Outgoing tower.HeaderValue)

module _ (tower : Tower) where
  open tower use {HeaderValue, to_str}

  unfoldable pub make_span : Incoming HeaderValue → Span
  make_span req = record {
    name = "http_request";
    fields =
        ("method", req.method_text)
        ∷ ("uri", req.uri)
        ∷ (
          "request_id",
          elim (and_text to_str req.x_request_id) [ none ↦ "unknown" | some id ↦ id ],
        )
        ∷ [];
  }

  -- The calls that follow the answer of the inner layers: none after a panic.
  unfoldable pub observed :
      Incoming HeaderValue → ℕ → Outcome ⊥ (Outgoing HeaderValue) → List MetricCall
  unfolding requests_total request_duration route_template
  observed req latency (ok out) =
      requests_total req.method_text (route_template req.request.path) out.response.status
      ∷ request_duration req.method_text (route_template req.request.path) latency
      ∷ []
  observed req latency (err e) = []
  observed req latency panic = []

  abbrev pub propagated : Option HeaderValue → Outgoing HeaderValue → Outgoing HeaderValue
  propagated id out = record out { x_request_id = tower.propagate id out.x_request_id }

  abbrev pub without_id : HttpResponse → Outgoing HeaderValue
  without_id r = record { response = r; x_request_id = none }

module _ (tower : Tower) {W : Type 0} where
  open tower use {to_str}

  -- `SetRequestIdLayer`
  abbrev pub set_request_id : Service tower W → Service tower W
  set_request_id next req p =
      next (record req { x_request_id = some (tower.set_request_id p.uuid req.x_request_id) }) p

  -- The id in the task-local of the handlers.
  unfoldable pub request_id_scope : Service tower W → Service tower W
  request_id_scope next req p =
      next req (record p { at = record p.at { request_id = and_text to_str req.x_request_id } })

  -- `TraceLayer` opens the span of a request.
  abbrev pub trace : Service tower W → Service tower W
  trace next req p s = next req p (record s { spans = s.spans ++ (make_span tower req ∷ []) })

  unfoldable pub http_metrics_middleware : Service tower W → Service tower W
  unfolding observed
  http_metrics_middleware next req p s =
      let (r, s') = next req p s in
      (r, record s' { metrics = s'.metrics ++ observed tower req p.latency r })

  -- `TimeoutLayer`: the inner layers are dropped at the deadline.
  abbrev pub timeout : ℕ → Service tower W → Service tower W
  timeout status next req p s = elim p.dropped [
    | none ↦ next req p s
    | some w ↦ (ok (without_id tower (tower.timed_out status)), record s { world = w })
  ]

  -- `RequestBodyLimitLayer`
  abbrev pub request_body_limit : ℕ → Service tower W → Service tower W
  request_body_limit max next req p s = elim (tower.body_limit max req.content_length) [
    | none ↦ next req p s
    | some r ↦ (ok (without_id tower r), s)
  ]

  -- `PropagateRequestIdLayer`
  abbrev pub propagate_request_id : Service tower W → Service tower W
  propagate_request_id next req p s =
      let (r, s') = next req p s in (map_ok (propagated tower req.x_request_id) r, s')

module _ (tower : Tower) {R D : Type 0} (s : Services R D) (state : AppState)
    (matched : List Route → String → Option (Route × String)) where
  -- The routes set no header x-request-id.
  unfoldable pub routes : Service tower (World R D)
  unfolding serve
  routes req p o =
      let (r, w) = serve s state matched req.request p.at o.world in
      (map_ok (without_id tower) r, record o { world = w })

  -- The first layer is the outermost.
  unfoldable pub layered : Service tower (World R D)
  unfolding request_id_scope http_metrics_middleware routes
  layered = set_request_id tower (
      request_id_scope tower (
        trace tower (
          http_metrics_middleware tower (
            timeout tower 503 (
              request_body_limit tower state.config.max_body_bytes
                (propagate_request_id tower routes))))))
