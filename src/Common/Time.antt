-- ===== src/Common/Time.antt =====
-- `SystemTime` as signed nanoseconds from UNIX_EPOCH. A reading of the clock is an argument of
-- whatever reads it.
use otus_rusthomework_http_a.Common.{ℕ, ◌/◌, ◌%◌, ◌*◌, ℤ, pos, pos_part, ◌+ℤ◌}

abbrev pub SystemTime : Type 0
SystemTime = ℤ

abbrev pub nanos_per_sec : ℕ
nanos_per_sec = 1_000_000_000

-- `t.duration_since(UNIX_EPOCH).unwrap_or_default().as_secs()`: a time before the epoch counts as 0.
unfoldable pub as_unix_secs : SystemTime → ℕ
as_unix_secs t = pos_part t / nanos_per_sec

-- `.subsec_nanos()` of the same duration.
unfoldable pub as_subsec_nanos : SystemTime → ℕ
as_subsec_nanos t = pos_part t % nanos_per_sec

-- `t + Duration::from_secs(secs)`, where the sum can be represented.
unfoldable pub add_secs : SystemTime → ℕ → SystemTime
unfolding ◌+ℤ◌
add_secs t secs = t +ℤ pos (secs * nanos_per_sec)

-- The time at the start of a second after the epoch.
abbrev pub at_secs : ℕ → SystemTime
at_secs secs = pos (secs * nanos_per_sec)
