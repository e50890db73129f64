-- ===== src/Server/Grpc/Stream.antt =====
-- shorty-server/src/grpc/mod.rs: the stream of link events: a task that sends into a bounded channel,
-- and a client that receives and may go away, as steps in any order.
use otus_rusthomework_http_a.Common.{
  ℕ, suc, ◌<◌, ℤ, pos, pos_part, leb_ℤ, String, ◌≡◌, Bool, true, false, Option, none, some, List,
  [], ◌∷◌, ◌++◌, length, if◌then◌else◌,
}
use otus_rusthomework_http_a.Common.Outcome.{Outcome, ok, err, panic, Exec, lift, pure, ◌>>◌}
use otus_rusthomework_http_a.Common.Time.{SystemTime}
use otus_rusthomework_http_a.Domain.Link.{LinkStats, RepoError, LinkRepository}
use otus_rusthomework_http_a.Server.Cache.{as_i64}
use otus_rusthomework_http_a.Server.Grpc.{
  Status, GrpcLink, Timestamp, protobuf_timestamp, grpc_link,
}

-- An event of the kind `Created`, the only one that is sent.
pub record GrpcEvent : Type 0 where
  pub link : GrpcLink
  pub occurred_at : Timestamp

unfoldable pub batch_size_of : ℤ → ℕ
batch_size_of size =
    if leb_ℤ size (pos 0) then 10 else if leb_ℤ size (pos 100) then pos_part size else 100

abbrev pub stream_codes : List String
stream_codes = "stream-1" ∷ "stream-2" ∷ []

unfoldable pub event_of : LinkStats → SystemTime → GrpcEvent
unfolding protobuf_timestamp grpc_link as_i64
event_of stats now = record {
  link = grpc_link stats.link (as_i64 stats.hits);
  occurred_at = protobuf_timestamp now;
}

-- `codes` are those that the task has not asked for yet, and `sending` is the event that it waits to
-- send; `is_open` tells whether the client still receives.
pub record Stream : Type 0 where
  pub codes : List String
  pub sending : Option GrpcEvent
  pub buffer : List GrpcEvent
  pub is_open : Bool
  pub received : List GrpcEvent

abbrev pub opened : Stream
opened = record { codes = stream_codes; sending = none; buffer = []; is_open = true; received = [] }

-- What `stream_links` comes to: the capacity of the channel, and the stream.
unfoldable pub stream_links :
    {R : Type 0}
    → (ℤ → Option String → Outcome Status Unit)
    → ℤ
    → Option String
    → ℤ
    → Exec R Status (ℕ × Stream)
unfolding batch_size_of
stream_links auth now authorization batch_size = do
  lift (auth now authorization)
  pure (batch_size_of batch_size, opened)

-- The repository is in any state when the task asks for a code, since other requests write to it.
pub data Step {R : Type 0} (repo : LinkRepository R) (capacity : ℕ) : Stream → Stream → Type 0 where
  found :
      (s : Stream) (code : String) (rest : List String) (r : R) (stats : LinkStats)
      (now : SystemTime)
      → s.codes ≡ code ∷ rest
      → s.sending ≡ none
      → (repo.stats code r).0 ≡ ok stats
      → Step repo capacity s (record s { codes = rest; sending = some (event_of stats now) })
  missed :
      (s : Stream) (code : String) (rest : List String) (r : R) (e : RepoError)
      → s.codes ≡ code ∷ rest
      → s.sending ≡ none
      → (repo.stats code r).0 ≡ err e
      → Step repo capacity s (record s { codes = rest })
  panicked :
      (s : Stream) (code : String) (rest : List String) (r : R)
      → s.codes ≡ code ∷ rest
      → s.sending ≡ none
      → (repo.stats code r).0 ≡ panic
      → Step repo capacity s (record s { codes = [] })
  sent :
      (s : Stream) (event : GrpcEvent)
      → s.sending ≡ some event
      → s.is_open ≡ true
      → length s.buffer < capacity
      → Step repo capacity s (record s { sending = none; buffer = s.buffer ++ event ∷ [] })
  -- `send` fails, and the loop breaks.
  broken :
      (s : Stream) (event : GrpcEvent)
      → s.sending ≡ some event
      → s.is_open ≡ false
      → Step repo capacity s (record s { codes = []; sending = none })
  taken :
      (s : Stream) (event : GrpcEvent) (rest : List GrpcEvent)
      → s.buffer ≡ event ∷ rest
      → s.is_open ≡ true
      → Step repo capacity s (record s { buffer = rest; received = s.received ++ event ∷ [] })
  closed :
      (s : Stream)
      → s.is_open ≡ true
      → Step repo capacity s (record s { is_open = false; buffer = [] })

pub data Run {R : Type 0} (repo : LinkRepository R) (capacity : ℕ)
    : ℕ → Stream → Stream → Type 0 where
  here : (s : Stream) → Run repo capacity 0 s s
  next :
      {n : ℕ} {s t u : Stream}
      → Step repo capacity s t
      → Run repo capacity n t u
      → Run repo capacity (suc n) s u
