-- ===== src/Server/Router/RequestIds.antt =====
-- The header x-request-id of a response.
use otus_rusthomework_http_a.Common.{
  String, ◌≡◌, refl, sym, ap, ◌∙◌, subst, ◌⊎◌, inl, inr, Option, none, some, Option-cases, List,
}
use otus_rusthomework_http_a.Common.Outcome.{Outcome, ok, err, panic}
use otus_rusthomework_http_a.Server.Handlers.{World}
use otus_rusthomework_http_a.Server.Router.{Route, AppState, HttpResponse, Services}
use otus_rusthomework_http_a.Server.Router.Serve.{serve}
use otus_rusthomework_http_a.Server.Router.Layers.{
  Tower, IsTower, Incoming, Outgoing, Passing, Observed, layered, routes, timeout,
  request_body_limit, without_id, http_metrics_middleware, request_id_scope, propagated, map_ok,
}
use otus_rusthomework_http_a.Server.Router.Marked.{IsMarked, AllMarked, serve-IsMarked}

module _ (tower : Tower) where
  open tower use {HeaderValue, to_str}

  -- The id that a request has: the one it came with, or the drawn one.
  abbrev pub id_of : String → Option HeaderValue → HeaderValue
  id_of uuid none = tower.set_request_id uuid none
  id_of uuid (some sent) = sent

  -- The response names the id, in its header and, where its body is the JSON of an error, in the body.
  abbrev pub IsIdentified : HeaderValue → Outgoing HeaderValue → Type 0
  IsIdentified id out = (out.x_request_id ≡ some id) × IsMarked (to_str id) out.response.payload

  module _ (laws : IsTower tower) where
    id_of-eq :
        (uuid : String) (sent : Option HeaderValue)
        → tower.set_request_id uuid sent ≡ id_of uuid sent
    id_of-eq uuid none = refl
    id_of-eq uuid (some v) = laws.set_keeps uuid v

    propagated-IsIdentified :
        (id : HeaderValue) (r : Outcome ⊥ HttpResponse) (out : Outgoing HeaderValue)
        → AllMarked (to_str id) r
        → map_ok (propagated tower (some id)) (map_ok (without_id tower) r) ≡ ok out
        → IsIdentified id out
    propagated-IsIdentified id (ok r) out marked h =
        let e : propagated tower (some id) (without_id tower r) ≡ out = cc in
        subst (IsIdentified id) e (laws.propagates id, marked)
    propagated-IsIdentified id (err e) out marked h = cc
    propagated-IsIdentified id panic out marked h = cc

module _ (tower : Tower) (laws : IsTower tower) {R D : Type 0} (s : Services R D) (state : AppState)
    (matched : List Route → String → Option (Route × String)) where
  open tower use {HeaderValue, to_str}

  -- What leaves the layers inside the timeout.
  inner_of :
      (req : Incoming HeaderValue) (p : Passing (World R D)) (o : Observed (World R D))
      (out : Outgoing HeaderValue)
      → p.dropped ≡ none
      → tower.body_limit state.config.max_body_bytes req.content_length ≡ none
      → (layered tower s state matched req p o).0 ≡ ok out
      → IsIdentified tower (tower.set_request_id p.uuid req.x_request_id) out
  unfolding layered routes http_metrics_middleware request_id_scope
  inner_of req p o out in_time fits h =
      let id = tower.set_request_id p.uuid req.x_request_id in
      let r =
        (serve s state matched req.request (record p.at { request_id = to_str id }) o.world).0 in
      let e : (layered tower s state matched req p o).0
          ≡ map_ok (propagated tower (some id)) (map_ok (without_id tower) r) =
        rw (in_time, timeout, request_body_limit, fits) refl in
      propagated-IsIdentified tower laws id r out
        (serve-IsMarked s state req.request _ o.world matched) (sym e ∙ h)

  -- What a refusal of the layers is.
  refused :
      (r : HttpResponse) (out : Outgoing HeaderValue) (a : Outcome ⊥ (Outgoing HeaderValue))
      → a ≡ ok (without_id tower r)
      → a ≡ ok out
      → (out.x_request_id ≡ none) × (out.response.status ≡ r.status)
  refused r out a e h =
      let same : without_id tower r ≡ out = cc in
      (ap (λ x. x.x_request_id) (sym same), ap (λ x. x.response.status) (sym same))

  -- For layers that do what tower-http documents, a response names the id that the request came
  -- with, or a drawn one where it came with none, in the header x-request-id and, where its body is
  -- the JSON of an error, in the body too; a body that is a text or empty, as a rejection of axum or
  -- the answer to a method that the path does not have, holds no id. The exceptions are the refusals of the layers around the one that copies the id: at the
  -- deadline, with the status 503, and of a request that announces too long a body, with 413. They
  -- have no such header.
  pub layered-IsIdentified :
      (req : Incoming HeaderValue) (p : Passing (World R D)) (o : Observed (World R D))
      (out : Outgoing HeaderValue)
      → (layered tower s state matched req p o).0 ≡ ok out
      → IsIdentified tower (id_of tower p.uuid req.x_request_id) out
        ⊎ ((out.x_request_id ≡ none) × ((out.response.status ≡ 503) ⊎ (out.response.status ≡ 413)))
  unfolding layered http_metrics_middleware request_id_scope
  layered-IsIdentified req p o out h = elim (Option-cases p.dropped) [
    | inr (w, late) ↦
        let (bare, status) = refused (tower.timed_out 503) out _ (rw (late) refl) h in
        inr (bare, inl (status ∙ laws.timed_out_status 503))
    | inl in_time ↦
        elim (Option-cases (tower.body_limit state.config.max_body_bytes req.content_length)) [
          | inr (r, long) ↦
              let (bare, status) =
                refused r out _ (rw (in_time, timeout, request_body_limit, long) refl) h in
              inr (bare, inr (status ∙ laws.limit_status _ _ r long))
          | inl fits ↦ inl (
              subst (λ v. IsIdentified tower v out) (id_of-eq tower laws p.uuid req.x_request_id)
                (inner_of req p o out in_time fits h))
        ]
  ]
