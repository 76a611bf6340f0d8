-- ===== src/Timer/Interval.antt =====
-- The time left until an alarm.
use unstrung.Prelude.{ℕ, ◌+◌, ◌-◌, ◌*◌, ◌/◌, ◌≤◌, ◌<◌, ◌≡◌, ltb, leb, if◌then◌else◌, arith}
use unstrung.Prelude.Int.{pos}
use unstrung.Timer.{Timeval, micros, occurs_in, miliseconds_util}

-- The seconds and the milliseconds between two instants, the first not later.
abbrev whole : Timeval → Timeval → ℕ
whole alarm now = if ltb alarm.usec now.usec then alarm.sec - (now.sec + 1) else alarm.sec - now.sec

abbrev whole_ms : Timeval → Timeval → ℕ
whole_ms alarm now =
    if leb now.usec alarm.usec
    then alarm.sec * 1000 + (alarm.usec - now.usec) / 1000 - now.sec * 1000
    else alarm.sec * 1000 - (now.usec - alarm.usec) / 1000 - now.sec * 1000

-- For normalised times and an alarm that is not before the time, the seconds and microseconds of
-- `occurs_in` are not negative and lead from the time exactly to the alarm.
pub occurs_in_adds_up :
    (alarm now : Timeval)
    → alarm.usec < 1000000
    → now.usec < 1000000
    → micros now ≤ micros alarm
    → (sec : ℕ) × ((occurs_in alarm now).0 ≡ pos sec)
      × (micros now + (sec * 1000000 + (occurs_in alarm now).1) ≡ micros alarm)
unfolding occurs_in
occurs_in_adds_up alarm now a b h = (whole alarm now, ground arith, ground arith)

-- For an alarm of at most 1000000 microseconds that is not before the time, a time of fewer than
-- 1000000 microseconds, and an alarm whose second is fewer than 2000000 after that of the time,
-- `miliseconds_util` is not negative and differs from the exact distance by less than a
-- millisecond.
pub miliseconds_util_bounds :
    (alarm now : Timeval)
    → alarm.usec ≤ 1000000
    → now.usec < 1000000
    → micros now ≤ micros alarm
    → alarm.sec < now.sec + 2000000
    → (ms : ℕ) × (miliseconds_util alarm now ≡ pos ms)
      × (micros now + ms * 1000 < micros alarm + 1000)
      × (micros alarm < micros now + ms * 1000 + 1000)
unfolding miliseconds_util
miliseconds_util_bounds alarm now a b h k =
    (whole_ms alarm now, ground arith, ground arith, ground arith)
