-- ===== src/Server/Process/Shutdown.antt =====
-- The end of the process.
use otus_rusthomework_http_a.Common.{
  ℕ, ◌+◌, ◌≤◌, ◌≡◌, ◌≢◌, refl, ◌⊎◌, inl, inr, Bool, true, false, arith, Bool-cases,
}
use otus_rusthomework_http_a.Common.Outcome.{ok}
use otus_rusthomework_http_a.Server.Auth.{AuthConfig}
use otus_rusthomework_http_a.Server.Config.{Config}
use otus_rusthomework_http_a.Server.Process.{
  HttpTask, accepting, draining, finished, MainTask, selecting, waiting, exited, Process, start,
  grpc_auth, Step, accept, respond, signal, http_ends, grpc_ends, grpc_panics, grpc_fails,
  cleaner_ends, http_selected, grpc_selected, tasks_finished, timed_out, Run, here, next,
}

module _ (config : Config) (serves : Bool) where
  -- No signal came yet, and all tasks run; or the token is cancelled.
  abbrev IsOrderly : Process → Type 0
  IsOrderly s =
      (s.is_cancelled ≡ true)
      ⊎ ((s.http ≡ accepting) × ((s.grpc_runs ≡ true) × (s.main ≡ selecting)))

  Step-IsOrderly :
      {s t : Process} (auth : AuthConfig)
      → grpc_auth config ≡ ok auth
      → serves ≡ true
      → Step config serves s t
      → IsOrderly s
      → IsOrderly t
  Step-IsOrderly auth g v (accept s up h) (inl c) = inl c
  Step-IsOrderly auth g v (accept s up h) (inr (a, (r, m))) = inr (a, (r, m))
  Step-IsOrderly auth g v (respond s n up h) (inl c) = inl c
  Step-IsOrderly auth g v (respond s n up h) (inr i) = inr i
  Step-IsOrderly auth g v (signal s up h) i = inl refl
  Step-IsOrderly auth g v (http_ends s up h e) (inl c) = inl c
  Step-IsOrderly auth g v (http_ends s up h e) (inr (a, i)) = cc
  Step-IsOrderly auth g v (grpc_ends s up c r) i = inl c
  Step-IsOrderly auth g v (grpc_panics s up p r) i = cc
  Step-IsOrderly auth g v (grpc_fails s up p r) i = cc
  Step-IsOrderly auth g v (cleaner_ends s up c r) i = inl c
  Step-IsOrderly auth g v (http_selected s m h) (inl c) = inl c
  Step-IsOrderly auth g v (http_selected s m h) (inr (a, i)) = cc
  Step-IsOrderly auth g v (grpc_selected s m h) (inl c) = inl c
  Step-IsOrderly auth g v (grpc_selected s m h) (inr (a, (r, n))) = cc
  Step-IsOrderly auth g v (tasks_finished s m h) (inl c) = inl c
  Step-IsOrderly auth g v (tasks_finished s m h) (inr (a, (r, n))) = cc
  Step-IsOrderly auth g v (timed_out s m) (inl c) = inl c
  Step-IsOrderly auth g v (timed_out s m) (inr (a, (r, n))) = cc

  Run-IsOrderly :
      {n : ℕ} {s t : Process} (auth : AuthConfig)
      → grpc_auth config ≡ ok auth
      → serves ≡ true
      → Run config serves n s t
      → IsOrderly s
      → IsOrderly t
  Run-IsOrderly auth g v (here s) i = i
  Run-IsOrderly auth g v (next step run) i =
      Run-IsOrderly auth g v run (Step-IsOrderly auth g v step i)

  -- With a configuration of the authentication and a gRPC server that can be set up, the process ends only after a signal, and the
  -- cancellation that it makes.
  pub exited-is_cancelled :
      (n : ℕ) (s : Process) (auth : AuthConfig)
      → grpc_auth config ≡ ok auth
      → serves ≡ true
      → Run config serves n start s
      → s.main ≡ exited
      → s.is_cancelled ≡ true
  exited-is_cancelled n s auth g v run e =
      elim (Run-IsOrderly auth g v run (inr (refl, (refl, refl)))) [
        | inl c ↦ c
        | inr (a, (r, m)) ↦ cc
      ]

  -- Once the token is cancelled, no request is accepted.
  abbrev IsClosed : Process → Type 0
  IsClosed s = s.is_cancelled ≡ true → s.http ≢ accepting

  Step-IsClosed : {s t : Process} → Step config serves s t → IsClosed s → IsClosed t
  Step-IsClosed (accept s up h) i = i
  Step-IsClosed (respond s n up h) i = i
  Step-IsClosed (signal s up h) i = λ c e. cc
  Step-IsClosed (http_ends s up h e) i = λ c e'. cc
  Step-IsClosed (grpc_ends s up c r) i = i
  Step-IsClosed (grpc_panics s up p r) i = i
  Step-IsClosed (grpc_fails s up p r) i = i
  Step-IsClosed (cleaner_ends s up c r) i = i
  Step-IsClosed (http_selected s m h) i = i
  Step-IsClosed (grpc_selected s m h) i = i
  Step-IsClosed (tasks_finished s m h) i = i
  Step-IsClosed (timed_out s m) i = i

  Run-IsClosed : {n : ℕ} {s t : Process} → Run config serves n s t → IsClosed s → IsClosed t
  Run-IsClosed (here s) i = i
  Run-IsClosed (next step run) i = Run-IsClosed run (Step-IsClosed step i)

  -- What a process has left to do once it does not accept requests any more.
  abbrev http_left : HttpTask → ℕ
  http_left accepting = 2
  http_left draining = 1
  http_left finished = 0

  abbrev main_left : MainTask → ℕ
  main_left selecting = 2
  main_left waiting = 1
  main_left exited = 0

  abbrev task_left : Bool → ℕ
  task_left true = 1
  task_left false = 0

  abbrev pub left : Process → ℕ
  left s =
      s.in_flight
      + http_left s.http
      + task_left s.grpc_runs
      + task_left s.cleaner_runs
      + main_left s.main

  Step-left :
      {s t : Process}
      → Step config serves s t
      → s.is_cancelled ≡ true
      → s.http ≢ accepting
      → (t.is_cancelled ≡ true) × (left t + 1 ≤ left s)
  Step-left (accept s up h) c closed = absurd (closed h)
  Step-left (respond s n up h) c closed = (c, rw h (omega arith))
  Step-left (signal s up h) c closed = absurd (closed h)
  Step-left (http_ends s up h e) c closed = (c, rw (h, e) (omega arith))
  Step-left (grpc_ends s up d r) c closed = (c, rw r (omega arith))
  Step-left (grpc_panics s up p r) c closed = (c, rw r (omega arith))
  Step-left (grpc_fails s up p r) c closed = (c, rw r (omega arith))
  Step-left (cleaner_ends s up d r) c closed = (c, rw r (omega arith))
  Step-left (http_selected s m h) c closed = (c, rw m (omega arith))
  Step-left (grpc_selected s m h) c closed = (c, rw m (omega arith))
  Step-left (tasks_finished s m h) c closed = (c, rw m (omega arith))
  Step-left (timed_out s m) c closed = (c, rw m (omega arith))

  Run-left :
      {k : ℕ} {s t : Process}
      → Run config serves k s t
      → s.is_cancelled ≡ true
      → IsClosed s
      → k + left t ≤ left s
  Run-left (here s) c closed = omega arith
  Run-left (next {n} {s} {t} {u} step run) c closed =
      let (d, less) = Step-left step c (closed c) in
      let rest = Run-left run d (Step-IsClosed step closed) in omega arith

  main_cases : (m : MainTask) → (m ≡ selecting) ⊎ ((m ≡ waiting) ⊎ (m ≡ exited))
  main_cases selecting = inl refl
  main_cases waiting = inr (inl refl)
  main_cases exited = inr (inr refl)

  proceeds :
      (s : Process)
      → s.is_cancelled ≡ true
      → (s.main ≡ exited) ⊎ ((t : Process) × Step config serves s t)
  proceeds s c = elim (main_cases s.main) [
    | inl m ↦ elim (Bool-cases s.grpc_runs) [
      | inl runs ↦ inr (record s { grpc_runs = false }, grpc_ends s (rw m refl) c runs)
      | inr ended ↦ inr (record s { main = waiting }, grpc_selected s m ended)
    ]
    | inr (inl m) ↦ inr (record s { main = exited }, timed_out s m)
    | inr (inr m) ↦ inl m
  ]

  Run-is_cancelled :
      {k : ℕ} {s t : Process}
      → Run config serves k s t
      → s.is_cancelled ≡ true
      → IsClosed s
      → t.is_cancelled ≡ true
  Run-is_cancelled (here s) c closed = c
  Run-is_cancelled (next step run) c closed =
      Run-is_cancelled run (Step-left step c (closed c)).0 (Step-IsClosed step closed)

  http_left_closed : (h : HttpTask) → h ≢ accepting → http_left h ≤ 1
  http_left_closed accepting n = absurd (n refl)
  http_left_closed draining n = omega arith
  http_left_closed finished n = omega arith

  bounded : (s : Process) → s.http ≢ accepting → left s ≤ s.in_flight + 5
  bounded s n = omega (
    arith,
    http_left_closed s.http n,
    task_le s.grpc_runs,
    task_le s.cleaner_runs,
    main_le s.main,
  )
    where
      task_le : (b : Bool) → task_left b ≤ 1
      task_le true = omega arith
      task_le false = omega arith

      main_le : (m : MainTask) → main_left m ≤ 2
      main_le selecting = omega arith
      main_le waiting = omega arith
      main_le exited = omega arith

  -- After the cancellation, the process ends: it makes no more steps than there are requests in
  -- flight and five, in any order of the tasks, and as long as it has not exited it can make one.
  pub shutdown_ends :
      (n k : ℕ) (s t : Process)
      → Run config serves n start s
      → s.is_cancelled ≡ true
      → Run config serves k s t
      → (k ≤ s.in_flight + 5) × ((t.main ≡ exited) ⊎ ((u : Process) × Step config serves t u))
  shutdown_ends n k s t before c run =
      let closed = Run-IsClosed before (λ d e. cc) in
      let few = Run-left run c closed in
      let most = bounded s (closed c) in (omega arith, proceeds t (Run-is_cancelled run c closed))
