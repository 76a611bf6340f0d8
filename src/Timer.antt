-- ===== src/Timer.antt =====
-- event.h and event.cpp: the alarm of an event. A `struct timeval` holds no negative number here.
pub mod Alarm
pub mod Interval
use unstrung.Prelude.{
  ℕ, zero, suc, ◌+◌, ◌-◌, ◌*◌, ◌/◌, ◌%◌, ◌^◌, Bool, true, false, not, ◌&&◌, Option, none, some, ltb,
  leb, ◌==◌, if◌then◌else◌,
}
use unstrung.Prelude.Int.{ℤ, pos, negsuc, sub_ℕ, signed32}

pub record Timeval : Type 0 where
  pub sec : ℕ
  pub usec : ℕ

-- The instant in microseconds.
abbrev pub micros : Timeval → ℕ
micros t = t.sec * 1000000 + t.usec

-- `while(alarm_time.tv_usec > 1000000)`, with fuel; `none` means that the fuel ran out.
unfoldable pub normalise : ℕ → Timeval → Option Timeval
normalise zero t = none
normalise (suc fuel) t = elim (ltb 1000000 t.usec) [
  | true ↦ normalise fuel (record { sec = t.sec + 1; usec = t.usec - 1000000 })
  | false ↦ some t
]

-- `faked` is `rpl_event::fake_time` where `faked_time` is set. `msec*1000` is an `unsigned int`.
unfoldable pub alarm_base : Option Timeval → Timeval → Timeval
alarm_base none relative = relative
alarm_base (some fake) relative = fake

-- What `set_alarm` stores in `alarm_time`, for a relative time, seconds and milliseconds.
unfoldable pub set_alarm : Option Timeval → Timeval → ℕ → ℕ → Option Timeval
unfolding alarm_base
set_alarm faked relative sec msec =
    let rel = alarm_base faked relative in
    let usec = rel.usec + msec * 1000 % 2 ^ 32 in
    normalise (usec / 1000000 + 1) (record { sec = rel.sec + sec; usec = usec })

-- `rpl_event::passed`
unfoldable pub passed : Timeval → Timeval → Bool
passed alarm now =
    if ltb alarm.sec now.sec
    then true
    else if alarm.sec == now.sec && leb alarm.usec now.usec
    then true
    else false

-- The 32-bit pattern of a number, and the `int` that a wider number is cut to.
abbrev pattern32 : ℤ → ℕ
pattern32 (pos n) = n % 2 ^ 32
pattern32 (negsuc n) = 2 ^ 32 - (n % 2 ^ 32) - 1

pub to_int : ℤ → ℤ
to_int z = signed32 (pattern32 z)

-- Of the second comparison of `rpl_eventless`: `if(match > 0) return false; return true;`
not_positive : ℤ → Bool
not_positive (pos n) = not (ltb 0 n)
not_positive (negsuc n) = true

-- Of the first: a difference below 0 returns true, one above 0 returns false, 0 goes on.
by_seconds : ℤ → Bool → Bool
by_seconds (pos n) rest = if ltb 0 n then false else rest
by_seconds (negsuc n) rest = true

-- `rpl_eventless::operator()` on two alarm times; `int match` cuts each difference to 32 bits.
unfoldable pub eventless : Timeval → Timeval → Bool
unfolding not_positive by_seconds
eventless a b =
    by_seconds (to_int (sub_ℕ b.sec a.sec)) (not_positive (to_int (sub_ℕ b.usec a.usec)))

-- `occurs_in`: the microseconds, and the seconds less the borrow (which may be negative).
pub occurs_in : Timeval → Timeval → ℤ × ℕ
occurs_in alarm now =
    if ltb alarm.usec now.usec
    then (sub_ℕ alarm.sec (now.sec + 1), alarm.usec + 1000000 - now.usec)
    else (sub_ℕ alarm.sec now.sec, alarm.usec - now.usec)

-- C's division of an `int` by 1000 rounds towards zero.
abbrev div_1000 : ℤ → ℤ
div_1000 (pos n) = pos (n / 1000)
div_1000 (negsuc n) = sub_ℕ 0 ((n + 1) / 1000)

-- `miliseconds_util`: `sec` is an `unsigned int` and the sum is one too, returned as an `int`.
pub miliseconds_util : Timeval → Timeval → ℤ
miliseconds_util alarm now =
    let sec = pattern32 (sub_ℕ alarm.sec now.sec) in
    let usec = sub_ℕ alarm.usec now.usec in
    signed32 ((sec * 1000 + pattern32 (div_1000 usec)) % 2 ^ 32)
