-- ===== src/Tests/Clocks.antt =====
-- The clocks on the evening of 13 February 2009.
use cpp_owl_common.Prelude.{◌≡◌, ◌≤◌, arith}
use cpp_owl_common.Clock.{get_grail_time, msec_time, time_of_day, msec_time-get_grail_time}

msec_time-get_grail_time_example :
    (msec_time (time_of_day 1234567890987654321) ≡ get_grail_time 1000000 1234567890987654321)
    × (msec_time (time_of_day 1234567890987654321) ≤ msec_time (time_of_day 1234567890988000000))
msec_time-get_grail_time_example =
    msec_time-get_grail_time 1234567890987654321 1234567890988000000 (omega arith) (omega arith)
