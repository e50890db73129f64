-- ===== src/Server/Router/Requests.antt =====
-- The counter http_requests_total over any sequence of requests.
use otus_rusthomework_http_a.Common.{
  ℕ, ◌+◌, String, ◌≡◌, refl, ap, Bool, true, false, ◌&&◌, Option, Option-cases, inl, inr, List, [],
  ◌∷◌, ◌++◌, if◌then◌else◌, str_eq, arith,
}
use otus_rusthomework_http_a.Common.Outcome.{Outcome, ok, err, panic}
use otus_rusthomework_http_a.Common.Text.{to_string}
use otus_rusthomework_http_a.Server.Handlers.{World}
use otus_rusthomework_http_a.Server.Router.{Route, AppState, Services}
use otus_rusthomework_http_a.Server.Router.Template.{route_template}
use otus_rusthomework_http_a.Server.Router.Layers.{
  Tower, Incoming, Outgoing, Passing, Observed, MetricCall, increment, observe, requests_total,
  request_duration, observed, layered, routes, timeout, request_body_limit, http_metrics_middleware,
  request_id_scope,
}

unfoldable same_labels : List (String × String) → List (String × String) → Bool
same_labels [] [] = true
same_labels (a ∷ ls) (b ∷ ms) = str_eq a.0 b.0 && (str_eq a.1 b.1 && same_labels ls ms)
same_labels _ _ = false

abbrev one_if : Bool → ℕ
one_if b = if b then 1 else 0

-- A call that counts one in the series with the name and the labels.
unfoldable counts_for : String → List (String × String) → MetricCall → Bool
unfolding same_labels
counts_for name labels (increment other others) = str_eq other name && same_labels others labels
counts_for name labels (observe other others latency) = false

-- The value of http_requests_total with the method, the route and the status, after the calls.
unfoldable pub counter_value : String → String → ℕ → List MetricCall → ℕ
unfolding counts_for to_string
counter_value method route status [] = 0
counter_value method route status (c ∷ calls) =
    one_if (
      counts_for "http_requests_total"
        (("method", method) ∷ ("route", route) ∷ ("status", to_string status) ∷ []) c)
    + counter_value method route status calls

-- A request of the method and the route, answered with the status. The statuses are compared as
-- the texts of the label.
unfoldable pub is_answered :
    (tower : Tower)
    → String
    → String
    → ℕ
    → Incoming tower.HeaderValue
    → Outcome ⊥ (Outgoing tower.HeaderValue)
    → Bool
unfolding route_template to_string
is_answered tower method route status req (ok out) =
    str_eq req.method_text method
    && (str_eq (route_template req.request.path) route
        && str_eq (to_string out.response.status) (to_string status))
is_answered tower method route status req (err e) = false
is_answered tower method route status req panic = false

counter_value-append :
    (method route : String) (status : ℕ) (a b : List MetricCall)
    → counter_value method route status (a ++ b)
      ≡ counter_value method route status a + counter_value method route status b
unfolding counter_value
counter_value-append method route status [] b = omega arith
counter_value-append method route status (c ∷ a) b =
    omega (arith, counter_value-append method route status a b)

module _ (tower : Tower) where
  -- How many of the answers have the method, the route and the status.
  unfoldable pub answered_with :
      String
      → String
      → ℕ
      → List (Incoming tower.HeaderValue × Outcome ⊥ (Outgoing tower.HeaderValue))
      → ℕ
  unfolding is_answered
  answered_with method route status [] = 0
  answered_with method route status (a ∷ answers) =
      one_if (is_answered tower method route status a.0 a.1)
      + answered_with method route status answers

  counter_value-observed :
      (method route : String) (status latency : ℕ) (req : Incoming tower.HeaderValue)
      (r : Outcome ⊥ (Outgoing tower.HeaderValue))
      → counter_value method route status (observed tower req latency r)
        ≡ one_if (is_answered tower method route status req r)
  unfolding counter_value counts_for same_labels observed requests_total request_duration
      is_answered
  counter_value-observed method route status latency req (ok out) = ground arith
  counter_value-observed method route status latency req (err e) = refl
  counter_value-observed method route status latency req panic = refl

module _ (tower : Tower) {R D : Type 0} (s : Services R D) (state : AppState)
    (matched : List Route → String → Option (Route × String)) where
  layered_metrics :
      (req : Incoming tower.HeaderValue) (p : Passing (World R D)) (o : Observed (World R D))
      → (layered tower s state matched req p o).1.metrics
        ≡ o.metrics ++ observed tower req p.latency (layered tower s state matched req p o).0
  unfolding layered routes http_metrics_middleware request_id_scope
  layered_metrics req p o = elim (Option-cases p.dropped) [
    | inr (w, late) ↦ rw (late) refl
    | inl in_time ↦
        elim (Option-cases (tower.body_limit state.config.max_body_bytes req.content_length)) [
          | inr (r, long) ↦ rw (in_time, timeout, request_body_limit, long) refl
          | inl fits ↦ rw (in_time, timeout, request_body_limit, fits) refl
        ]
  ]

  -- Requests one after the other, with their answers.
  unfoldable pub layered_all :
      List (Incoming tower.HeaderValue × Passing (World R D))
      → Observed (World R D)
      → List (Incoming tower.HeaderValue × Outcome ⊥ (Outgoing tower.HeaderValue))
        × Observed (World R D)
  unfolding layered
  layered_all [] o = ([], o)
  layered_all ((req, p) ∷ requests) o =
      let (r, o') = layered tower s state matched req p o in
      let (answers, last) = layered_all requests o' in ((req, r) ∷ answers, last)

  -- Over any sequence of requests, the counter of a method, a route and a status grows by the number
  -- of requests that were answered so, the refusals at the deadline and of too long a body included.
  -- A request whose handler panics is not counted.
  pub counter_value-layered_all :
      (method route : String) (status : ℕ)
      (requests : List (Incoming tower.HeaderValue × Passing (World R D)))
      (o : Observed (World R D))
      → counter_value method route status (layered_all requests o).1.metrics
        ≡ counter_value method route status o.metrics
          + answered_with tower method route status (layered_all requests o).0
  unfolding layered_all answered_with
  counter_value-layered_all method route status [] o = omega arith
  counter_value-layered_all method route status ((req, p) ∷ requests) o =
      let answer = layered tower s state matched req p o in
      omega (
        arith,
        ap (counter_value method route status) (layered_metrics req p o),
        counter_value-append method route status o.metrics (observed tower req p.latency answer.0),
        counter_value-observed tower method route status p.latency req answer.0,
        counter_value-layered_all method route status requests answer.1,
      )
