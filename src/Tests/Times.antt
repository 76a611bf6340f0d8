-- ===== src/Tests/Times.antt =====
-- Examples of the sequence numbers, the alarms, the prefix maps and the nodes.
use native.Mathlib.Omega.{arith}
use unstrung.Prelude.{ℕ, ◌+◌, ◌*◌, ◌≤◌, ◌<◌, ◌≡◌, ◌↔◌, true, none, some}
use unstrung.Prelude.Int.{pos}
use unstrung.Sequence.{low_8bit, seq_too_old}
use unstrung.Sequence.Laws.{ahead, seq_too_old_iff}
use unstrung.Timer.{Timeval, micros, alarm_base, set_alarm, eventless, miliseconds_util}
use unstrung.Timer.Alarm.{set_alarm_total, eventless_iff}
use unstrung.Timer.Interval.{miliseconds_util_bounds}

seq_too_old_iff_example :
    (seq_too_old 514 250 ≡ true)
    ↔ ((1 ≤ ahead 250 (low_8bit 514)) × (ahead 250 (low_8bit 514) ≤ 127))
seq_too_old_iff_example = seq_too_old_iff 514 250 (omega arith)

abbrev early : Timeval
early = record { sec = 10; usec = 900000 }

abbrev late : Timeval
late = record { sec = 12; usec = 100500 }

set_alarm_total_example :
    (alarm : Timeval) × (set_alarm none early 1 2500 ≡ some alarm)
    × (micros alarm ≡ micros (alarm_base none early) + 1 * 1000000 + 2500 * 1000)
    × (alarm.usec ≤ 1000000)
set_alarm_total_example = set_alarm_total none early 1 2500 (omega arith)

eventless_iff_example : (eventless early late ≡ true) ↔ (micros late ≤ micros early)
eventless_iff_example =
    eventless_iff early late (omega arith) (omega arith) (omega arith) (omega arith)

miliseconds_util_bounds_example :
    (ms : ℕ) × (miliseconds_util late early ≡ pos ms)
    × (micros early + ms * 1000 < micros late + 1000)
    × (micros late < micros early + ms * 1000 + 1000)
miliseconds_util_bounds_example =
    miliseconds_util_bounds late early (omega arith) (omega arith) (omega arith) (omega arith)
