-- ===== src/Timer/Alarm.antt =====
-- The alarm that `set_alarm` computes, and the test that reads it.
use unstrung.Prelude.{
  ℕ, zero, suc, ◌+◌, ◌-◌, ◌*◌, ◌/◌, ◌%◌, ◌≤◌, ◌<◌, ◌^◌, ◌≡◌, ◌↔◌, refl, inl, inr, true, Option,
  some, ltb, Bool-cases, arith,
}
use unstrung.Prelude.Int.{sub_ℕ}
use unstrung.Timer.{Timeval, micros, normalise, alarm_base, set_alarm, passed, eventless, to_int}

-- The loop ends within `usec / 1000000 + 1` rounds, keeps the instant and leaves at most 1000000.
normalise_total :
    (fuel : ℕ) (t : Timeval)
    → t.usec / 1000000 < fuel
    → (u : Timeval) × (normalise fuel t ≡ some u) × (micros u ≡ micros t) × (u.usec ≤ 1000000)
unfolding normalise
normalise_total zero t h = absurd (omega arith)
normalise_total (suc fuel) t h = elim (Bool-cases (ltb 1000000 t.usec)) [
  | inl more ↦
      let next : Timeval = record { sec = t.sec + 1; usec = t.usec - 1000000 } in
      let (u, e, m, b) = normalise_total fuel next (ground arith) in
      (u, rw (more, normalise) e, ground arith, b)
  | inr done ↦ (t, rw (done, normalise) refl, refl, ground arith)
]

-- For fewer than 4294967 milliseconds the loop of `set_alarm` ends, the alarm is exactly the base
-- time and what was added, and it has at most 1000000 microseconds.
pub set_alarm_total :
    (faked : Option Timeval) (relative : Timeval) (sec msec : ℕ)
    → msec < 4294967
    → (alarm : Timeval) × (set_alarm faked relative sec msec ≡ some alarm)
      × (micros alarm ≡ micros (alarm_base faked relative) + sec * 1000000 + msec * 1000)
      × (alarm.usec ≤ 1000000)
unfolding set_alarm
set_alarm_total faked relative sec msec h =
    let rel = alarm_base faked relative in
    let usec : ℕ = rel.usec + msec * 1000 % 2 ^ 32 in
    let start : Timeval = record { sec = rel.sec + sec; usec = usec } in
    let (u, e, m, b) = normalise_total (usec / 1000000 + 1) start (omega arith) in
    (u, e, omega (arith, m), b)

-- For an alarm of at most 1000000 microseconds and a time of fewer, `passed` says exactly whether
-- the instant of the alarm is not after the time.
pub passed_iff :
    (alarm now : Timeval)
    → alarm.usec ≤ 1000000
    → now.usec < 1000000
    → (passed alarm now ≡ true) ↔ (micros alarm ≤ micros now)
unfolding passed
passed_iff alarm now a b = ground arith

-- A difference that fits an `int` is kept.
pub to_int-sub_ℕ : (m n : ℕ) → m < n + 2 ^ 31 → n ≤ m + 2 ^ 31 → to_int (sub_ℕ m n) ≡ sub_ℕ m n
unfolding to_int
to_int-sub_ℕ m n h k = ground arith

-- On two alarms of fewer than 1000000 microseconds, the second less than 2 ^ 31 seconds above the
-- first and the first at most 2 ^ 31 above the second, the comparison says exactly whether the
-- second is not after the first.
pub eventless_iff :
    (a b : Timeval)
    → a.usec < 1000000
    → b.usec < 1000000
    → b.sec < a.sec + 2 ^ 31
    → a.sec ≤ b.sec + 2 ^ 31
    → (eventless a b ≡ true) ↔ (micros b ≤ micros a)
unfolding eventless
eventless_iff a b ha hb far near =
    rw (to_int-sub_ℕ b.sec a.sec far near)
      (rw (to_int-sub_ℕ b.usec a.usec (omega arith) (omega arith)) (ground arith))
