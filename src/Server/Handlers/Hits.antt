-- ===== src/Server/Handlers/Hits.antt =====
-- `redirect` beside other requests: its steps, each of them one call of the repository or of the
-- cache, and the hits that many redirections count together.
use otus_rusthomework_http_a.Common.{ℕ, String, ◌≡◌, refl, Bool, true, false, some}
use otus_rusthomework_http_a.Common.Outcome.{Outcome, ok, err, panic, Exec, map_err, continue}
use otus_rusthomework_http_a.Common.Time.{SystemTime}
use otus_rusthomework_http_a.Domain.Link.{ShortLink, is_expired, LinkRepository, RepoError}
use otus_rusthomework_http_a.Server.Error.{AppError, app_not_found, from_repo_error}
use otus_rusthomework_http_a.Server.Dto.{LinkResponse}
use otus_rusthomework_http_a.Server.Cache.{Redis, Serde, link_key, invalidate}
use otus_rusthomework_http_a.Server.Handlers.{World, Response, redirect, redirect_live}

-- Where a redirection stands: before its look-up, before the hit, before the removal of the key.
pub data Phase : Type 0 where
  waiting : Phase
  found counted : ShortLink → Phase
  answered : Outcome AppError (Response Unit) → Phase

pub record Redirection : Type 0 where
  pub code : String
  pub now : SystemTime
  pub hit_at : SystemTime
  pub phase : Phase

abbrev pub found_or_gone : ShortLink → Bool → Phase
found_or_gone link true = answered (err app_not_found)
found_or_gone link false = found link

-- The phase after the look-up, and after the hit.
unfoldable pub after_get : SystemTime → Outcome RepoError ShortLink → Phase
unfolding is_expired from_repo_error
after_get now (ok link) = found_or_gone link (is_expired link now)
after_get now (err e) = answered (err (from_repo_error e))
after_get now panic = answered panic

unfoldable pub after_hit : ShortLink → Outcome RepoError ℕ → Phase
unfolding from_repo_error
after_hit link (ok n) = counted link
after_hit link (err e) = answered (err (from_repo_error e))
after_hit link panic = answered panic

abbrev pub at_phase : String → SystemTime → SystemTime → Phase → Redirection
at_phase code now hit_at phase = record { code = code; now = now; hit_at = hit_at; phase = phase }

module _ {R D : Type 0} (repo : LinkRepository R) (redis : Redis D)
    (serde : Serde LinkResponse) where
  abbrev pub step_from : Phase → Redirection → World R D → Phase × World R D
  step_from waiting r w =
      let (o, s) = repo.get r.code w.repo in (after_get r.now o, record w { repo = s })
  step_from (found link) r w =
      let (o, s) = repo.record_hit r.code r.hit_at w.repo in
      (after_hit link o, record w { repo = s })
  step_from (counted link) r w = (
    answered (ok (record { status = 307; location = some link.target_url; body = tt })),
    record w { cache = invalidate redis serde (link_key r.code) w.cache },
  )
  step_from (answered o) r w = (answered o, w)

  unfoldable pub advance : Redirection → World R D → Redirection × World R D
  unfolding after_get after_hit invalidate link_key
  advance r w = let (phase, w') = step_from r.phase r w in (record r { phase = phase }, w')

  abbrev pub twice_more : Redirection × World R D → Redirection × World R D
  unfolding advance
  twice_more (r, w) = let (r', w') = advance r w in advance r' w'

  abbrev pub ended :
      String
      → SystemTime
      → SystemTime
      → Outcome AppError (Response Unit) × World R D
      → Redirection × World R D
  ended code now hit_at out = (at_phase code now hit_at (answered out.0), out.1)

  module _ (code : String) (now hit_at : SystemTime) where
    abbrev moved : ShortLink → Exec (World R D) AppError (Response Unit)
    moved link v = (
      ok (record { status = 307; location = some link.target_url; body = tt }),
      record v { cache = invalidate redis serde (link_key code) v.cache },
    )

    solo_hit :
        (link : ShortLink) (w : World R D) (q : Outcome RepoError ℕ × R)
        → advance (at_phase code now hit_at (after_hit link q.0)) (record w { repo = q.1 })
          ≡ ended code now hit_at
              (continue (map_err from_repo_error q.0) (λ _. moved link) (record w { repo = q.1 }))
    unfolding advance after_hit
    solo_hit link w (ok n, s) = refl
    solo_hit link w (err e, s) = refl
    solo_hit link w (panic, s) = refl

    solo_live :
        (link : ShortLink) (b : Bool) (w : World R D)
        → twice_more (at_phase code now hit_at (found_or_gone link b), w)
          ≡ ended code now hit_at (redirect_live repo redis serde code hit_at link b w)
    unfolding advance redirect_live
    solo_live link true w = refl
    solo_live link false w = solo_hit link w (repo.record_hit code hit_at w.repo)

    solo_get :
        (w : World R D) (p : Outcome RepoError ShortLink × R)
        → twice_more (at_phase code now hit_at (after_get now p.0), record w { repo = p.1 })
          ≡ ended code now hit_at (
              continue
                (map_err from_repo_error p.0)
                (λ link. redirect_live repo redis serde code hit_at link (is_expired link now))
                (record w { repo = p.1 }))
    unfolding advance after_get
    solo_get w (ok link, s) = solo_live link (is_expired link now) (record w { repo = s })
    solo_get w (err e, s) = refl
    solo_get w (panic, s) = refl

    -- Three steps in a row are the handler.
    pub advance-redirect :
        (w : World R D)
        → twice_more (advance (at_phase code now hit_at waiting) w)
          ≡ ended code now hit_at (redirect repo redis serde code now hit_at w)
    unfolding advance redirect
    advance-redirect w = solo_get w (repo.get code w.repo)
