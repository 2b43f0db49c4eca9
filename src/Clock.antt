-- ===== src/Clock.antt =====
-- The two clocks: `getGRAILTime` of world_model_protocol.cpp and `msecTime` of sample_data.cpp. What
-- the clocks of the system show is given, for times after the beginning of 1970.
use cpp_owl_common.Prelude.{ℕ, ◌+◌, ◌-◌, ◌*◌, ◌/◌, ◌%◌, ◌^◌, ◌≤◌, ◌≡◌, arith}
use cpp_owl_common.WorldModel.Types.{GrailTime}

-- `MAX_GRAIL_TIME`, the largest int64_t.
abbrev max_grail_time : GrailTime
max_grail_time = 2 ^ 63 - 1

-- `duration_cast<milliseconds>` of the time since the epoch, whose unit, a parameter, is as small as a
-- millisecond or smaller: `per_ms` of it are a millisecond.
unfoldable pub get_grail_time : ℕ → ℕ → GrailTime
get_grail_time per_ms now = now / per_ms

-- `struct timeval`
pub record Timeval : Type 0 where
  pub tv_sec : ℕ
  pub tv_usec : ℕ

-- `(uint64_t)tval.tv_sec*(uint64_t)1000 + tval.tv_usec/1000`
unfoldable pub msec_time : Timeval → ℕ
msec_time tval = (tval.tv_sec % 2 ^ 64 * 1000 % 2 ^ 64 + tval.tv_usec / 1000) % 2 ^ 64

-- What gettimeofday documents, in nanoseconds: seconds, and microseconds within the second.
abbrev pub time_of_day : ℕ → Timeval
time_of_day now = record { tv_sec = now / 1000000000; tv_usec = now % 1000000000 / 1000 }

-- If `gettimeofday` and the system clock, which counts nanoseconds, show the same time, `msecTime` and
-- `getGRAILTime` return the same number, which is that of the whole milliseconds, as long as it is not
-- beyond `MAX_GRAIL_TIME`; and a later call does not return a smaller one.
pub msec_time-get_grail_time :
    (now later : ℕ)
    → now ≤ later
    → later / 1000000 ≤ max_grail_time
    → (msec_time (time_of_day now) ≡ get_grail_time 1000000 now)
      × (msec_time (time_of_day now) ≤ msec_time (time_of_day later))
unfolding get_grail_time msec_time
msec_time-get_grail_time now later b fits = (omega (arith, b, fits), omega (arith, b, fits))
