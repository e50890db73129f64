-- ===== src/Server/Grpc/Delivery.antt =====
-- The stream of link events is bounded and ends, in any order of the task and the client.
use otus_rusthomework_http_a.Common.{
  ℕ, suc, ◌+◌, ◌*◌, ◌≤◌, ℤ, pos, negsuc, String, ◌≡◌, refl, ap, ◌⊎◌, inl, inr, Bool, true, false,
  Option, none, some, List, [], ◌∷◌, length, length-append, arith, Option-cases, Bool-cases, ltb,
}
use otus_rusthomework_http_a.Common.Outcome.{Outcome, ok, err, panic}
use otus_rusthomework_http_a.Domain.Link.{LinkStats, RepoError, LinkRepository}
use otus_rusthomework_http_a.Server.Grpc.Stream.{
  GrpcEvent, Stream, opened, batch_size_of, Step, found, missed, panicked, sent, broken, taken,
  closed, Run, here, next,
}

batch_size_of_bounds : (size : ℤ) → (1 ≤ batch_size_of size) × (batch_size_of size ≤ 100)
unfolding batch_size_of
batch_size_of_bounds (pos n) = ground arith
batch_size_of_bounds (negsuc n) = ground arith

-- The task of the stream has come to its end.
abbrev pub HasEnded : Stream → Type 0
HasEnded s = (s.codes ≡ []) × (s.sending ≡ none)

module _ {R : Type 0} (repo : LinkRepository R) (capacity : ℕ) where
  abbrev pending : Option GrpcEvent → ℕ
  pending none = 0
  pending (some event) = 1

  abbrev open_left : Bool → ℕ
  open_left true = 1
  open_left false = 0

  -- The steps that a stream has left at most.
  abbrev left : Stream → ℕ
  left s = 4 * length s.codes + 3 * pending s.sending + 2 * length s.buffer + open_left s.is_open

  -- The events that are under way or delivered, and those that may still come.
  abbrev events : Stream → ℕ
  events s = length s.codes + pending s.sending + length s.buffer + length s.received

  abbrev IsBounded : Stream → Type 0
  IsBounded s = (length s.buffer ≤ capacity) × (events s ≤ 2)

  Step-left : {s t : Stream} → Step repo capacity s t → left t + 1 ≤ left s
  Step-left (found s code rest r stats now h n e) = rw (h, n) (omega arith)
  Step-left (missed s code rest r e h n f) = rw (h, n) (omega arith)
  Step-left (panicked s code rest r h n f) = rw (h, n) (omega arith)
  Step-left (sent s event h o free) = rw h (omega (arith, length-append s.buffer (event ∷ [])))
  Step-left (broken s event h o) = rw h (omega arith)
  Step-left (taken s event rest h o) = rw h (omega arith)
  Step-left (closed s o) = rw o (omega arith)

  Run-left : {k : ℕ} {s t : Stream} → Run repo capacity k s t → k + left t ≤ left s
  Run-left (here s) = omega arith
  Run-left (next step run) = let fewer = Step-left step in let rest = Run-left run in omega arith

  Step-IsBounded : {s t : Stream} → Step repo capacity s t → IsBounded s → IsBounded t
  Step-IsBounded (found s code rest r stats now h n e) (b, m) =
      let codes : length s.codes ≡ suc (length rest) = ap (λ (l : List String). length l) h in
      let none_held : pending s.sending ≡ 0 = ap pending n in (b, omega arith)
  Step-IsBounded (missed s code rest r e h n f) (b, m) =
      let codes : length s.codes ≡ suc (length rest) = ap (λ (l : List String). length l) h in
      (b, omega arith)
  Step-IsBounded (panicked s code rest r h n f) (b, m) = (b, omega arith)
  Step-IsBounded (sent s event h o free) (b, m) =
      let held : pending s.sending ≡ 1 = ap pending h in
      let longer = length-append s.buffer (event ∷ []) in (omega arith, omega arith)
  Step-IsBounded (broken s event h o) (b, m) = (b, omega arith)
  Step-IsBounded (taken s event rest h o) (b, m) =
      let held : length s.buffer ≡ suc (length rest) = ap (λ (l : List GrpcEvent). length l) h in
      let longer = length-append s.received (event ∷ []) in (omega arith, omega arith)
  Step-IsBounded (closed s o) (b, m) = (omega arith, omega arith)

  Run-IsBounded : {k : ℕ} {s t : Stream} → Run repo capacity k s t → IsBounded s → IsBounded t
  Run-IsBounded (here s) b = b
  Run-IsBounded (next step run) b = Run-IsBounded run (Step-IsBounded step b)

  list_cases : {A : Type 0} (l : List A) → (l ≡ []) ⊎ ((x : A) × (rest : List A) × (l ≡ x ∷ rest))
  list_cases [] = inl refl
  list_cases (x ∷ rest) = inr (x, rest, refl)

  -- The task or the client can make a step, and not by the client going away.
  abbrev pub Proceeds : Stream → Type 0
  Proceeds s = (t : Stream) × Step repo capacity s t × (t.is_open ≡ s.is_open)

  asks :
      (s : Stream) (code : String) (rest : List String) (r : R) (o : Outcome RepoError LinkStats)
      → s.codes ≡ code ∷ rest
      → s.sending ≡ none
      → (repo.stats code r).0 ≡ o
      → Proceeds s
  asks s code rest r (ok stats) h n e = (_, found s code rest r stats (pos 0) h n e, refl)
  asks s code rest r (err d) h n e = (_, missed s code rest r d h n e, refl)
  asks s code rest r panic h n e = (_, panicked s code rest r h n e, refl)

  delivers :
      (s : Stream) (event : GrpcEvent) (rest : List GrpcEvent)
      → s.buffer ≡ event ∷ rest
      → s.is_open ≡ true
      → Proceeds s
  delivers s event rest h o = (_, taken s event rest h o, refl)

  sends : (s : Stream) (event : GrpcEvent) → 1 ≤ capacity → s.sending ≡ some event → Proceeds s
  sends s event room h = elim (Bool-cases s.is_open) [
    | inr gone ↦ (_, broken s event h gone, refl)
    | inl open_now ↦ elim (Bool-cases (ltb (length s.buffer) capacity)) [
      | inl free ↦ (_, sent s event h open_now (ground arith), refl)
      | inr full ↦ elim (list_cases s.buffer) [
        | inl empty ↦
            let no_event : length s.buffer ≡ 0 = ap (λ (l : List GrpcEvent). length l) empty in
            absurd (ground arith)
        | inr (x, rest, e) ↦ delivers s x rest e open_now
      ]
    ]
  ]

  proceeds : (s : Stream) (r : R) → 1 ≤ capacity → HasEnded s ⊎ Proceeds s
  proceeds s r room = elim (Option-cases s.sending) [
    | inr (event, h) ↦ inr (sends s event room h)
    | inl n ↦ elim (list_cases s.codes) [
      | inl ended ↦ inl (ended, n)
      | inr (code, rest, h) ↦ inr (asks s code rest r (repo.stats code r).0 h n refl)
    ]
  ]

module _ {R : Type 0} (repo : LinkRepository R) (size : ℤ) (k : ℕ) (s : Stream) where
  -- In any order of its task and its client, a stream with any batch size holds at most as many
  -- events as the batch size, which is 1 to 100 as it is used, and delivers at most two.
  pub received_bounds :
      Run repo (batch_size_of size) k opened s
      → (1 ≤ batch_size_of size)
        × ((batch_size_of size ≤ 100)
            × ((length s.buffer ≤ batch_size_of size) × (length s.received ≤ 2)))
  received_bounds run =
      let (least, most) = batch_size_of_bounds size in
      let (b, m) = Run-IsBounded repo (batch_size_of size) run (omega arith, omega arith) in
      (least, (most, (b, omega arith)))

  -- A stream makes at most nine steps, whatever its client does, and until its task has come to its
  -- end the task can make one or the client can take an event: the task waits for ever only for a
  -- client that stays and takes no event.
  pub stream_ends :
      (r : R)
      → Run repo (batch_size_of size) k opened s
      → (k ≤ 9) × (HasEnded s ⊎ Proceeds repo (batch_size_of size) s)
  stream_ends r run =
      let few = Run-left repo (batch_size_of size) run in
      (omega arith, proceeds repo (batch_size_of size) s r (batch_size_of_bounds size).0)
