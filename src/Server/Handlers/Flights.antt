-- ===== src/Server/Handlers/Flights.antt =====
-- Redirections in flight over the repository in memory, in any order of their steps and of other
-- calls of the repository.
pub mod Counts
use otus_rusthomework_http_a.Common.{
  ℕ, zero, suc, ◌+◌, String, ◌≢◌, Bool, true, false, ◌&&◌, List, [], ◌∷◌, str_eq, if◌then◌else◌,
}
use otus_rusthomework_http_a.Common.Outcome.{ok}
use otus_rusthomework_http_a.Common.Time.{SystemTime}
use otus_rusthomework_http_a.Domain.Link.{ShortLink}
use otus_rusthomework_http_a.Storage.InMemory.{
  InMemoryRepo, in_memory, insert_sync, remove_sync, update_sync,
}
use otus_rusthomework_http_a.Server.Dto.{LinkResponse}
use otus_rusthomework_http_a.Server.Cache.{Redis, Serde}
use otus_rusthomework_http_a.Server.Handlers.{World}
use otus_rusthomework_http_a.Server.Handlers.Hits.{
  Phase, waiting, found, counted, answered, Redirection, advance,
}

-- A step of one of the redirections, or a call that another request makes.
pub data Move : Type 0 where
  turn : ℕ → Move
  insertion : ShortLink → Move
  updating : String → String → SystemTime → Move
  removal : String → Move

-- A removal is of another code.
abbrev pub Spares : String → Move → Type 0
Spares code (removal other) = other ≢ code
Spares code _ = Unit

pub record Flight (D : Type 0) : Type 0 where
  pub redirections : List Redirection
  pub world : World InMemoryRepo D

-- The hit of the redirection is recorded.
abbrev pub is_counted : Phase → Bool
is_counted waiting = false
is_counted (found link) = false
is_counted (counted link) = true
is_counted (answered (ok r)) = true
is_counted (answered _) = false

-- The redirections of the code whose hit is recorded.
unfoldable pub count_of : String → List Redirection → ℕ
count_of code [] = 0
count_of code (r ∷ rs) =
    (if str_eq r.code code && is_counted r.phase then 1 else 0) + count_of code rs

module _ {D : Type 0} (redis : Redis D) (serde : Serde LinkResponse) where
  unfoldable pub advance_at :
      ℕ → List Redirection → World InMemoryRepo D → List Redirection × World InMemoryRepo D
  unfolding advance
  advance_at n [] w = ([], w)
  advance_at zero (r ∷ rs) w = let (r', w') = advance in_memory redis serde r w in (r' ∷ rs, w')
  advance_at (suc n) (r ∷ rs) w = let (rs', w') = advance_at n rs w in (r ∷ rs', w')

  abbrev pub with_repo : InMemoryRepo → Flight D → Flight D
  with_repo repo s = record s { world = record s.world { repo = repo } }

  unfoldable pub move : Move → Flight D → Flight D
  unfolding advance_at insert_sync update_sync remove_sync
  move (turn n) s =
      let (rs, w) = advance_at n s.redirections s.world in record { redirections = rs; world = w }
  move (insertion link) s = with_repo (insert_sync link s.world.repo).1 s
  move (updating code url now) s = with_repo (update_sync code url now s.world.repo).1 s
  move (removal code) s = with_repo (remove_sync code s.world.repo).1 s

  unfoldable pub move_all : List Move → Flight D → Flight D
  unfolding move
  move_all [] s = s
  move_all (m ∷ moves) s = move_all moves (move m s)
