-- ===== src/Clock.antt =====
-- Instants and durations of Go's `time` package, in nanoseconds. An instant counts from Go's zero
-- time, so `IsZero` is a test against 0, and `Sub` is taken only where the later instant is known
-- or where a negative difference and 0 pass the same tests.
pub mod Date
use tok_hub.Prelude.{ℕ, ◌/◌, Bool, eqb}

abbrev pub Time : Type 0
Time = ℕ

abbrev pub Duration : Type 0
Duration = ℕ

abbrev pub second : Duration
second = 1_000_000_000

abbrev pub minute : Duration
minute = 60_000_000_000

abbrev pub hour : Duration
hour = 3_600_000_000_000

abbrev pub day : Duration
day = 86_400_000_000_000

abbrev pub is_zero : Time → Bool
is_zero t = eqb t 0

-- 1970-01-01, 62135596800 seconds after the zero time.
abbrev pub unix_epoch : Time
unix_epoch = 62_135_596_800_000_000_000

-- `t.Unix() == 0`: the second that begins at the epoch.
abbrev pub is_unix_zero : Time → Bool
is_unix_zero t = eqb (t / second) 62_135_596_800
