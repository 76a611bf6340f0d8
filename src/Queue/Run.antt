-- ===== src/Queue/Run.antt =====
-- What the loop over the due events does to the contents of the queue.
use mathlib.Core.List.Permᴰ
use mathlib.Core.List.{Permᴰ, cons-ne-nil}
use mathlib.Core.Path.{subst}
use unstrung.Prelude.{
  ℕ, zero, suc, ◌+◌, ◌*◌, ◌≡◌, ◌≤◌, ◌<◌, ◌^◌, refl, inl, inr, true, false, List, [], ◌∷◌, Option,
  none, some, map, length, if◌then◌else◌, Bool-cases, Option-cases, ap, sym, ◌∙◌, arith,
}
use unstrung.Timer.{Timeval, micros, alarm_base, passed, eventless}
use unstrung.Timer.Alarm.{passed_iff, set_alarm_total}
use unstrung.Dag.{EventType, send_dio, send_dao}
use unstrung.Queue.{
  Entry, All, Heap, IsInRange, slept, rearmed, doit, run_due, sleep_for, eat_event,
}
use unstrung.Queue.Due.{is_due, due, due-perm, length-perm, All-perm, eventless_le}

-- An alarm in range, a repetition that is not empty and short of 4294967 milliseconds, and the alarm
-- that it leads to before second 2^31.
abbrev pub IsArmed : Timeval → Entry → Type 0
IsArmed base e =
    IsInRange e
    × (0 < e.event.repeat_sec * 1000 + e.event.repeat_msec)
    × (e.event.repeat_msec < 4294967)
    × (micros base + e.event.repeat_sec * 1000000 + e.event.repeat_msec * 1000 < 2 ^ 31 * 1000000)

-- An event after it ran: queued again at its next alarm.
abbrev pub requeued : Option Timeval → Timeval → Entry → Entry
requeued faked now e = elim (rearmed faked now (record e { in_queue = false })) [
  | none ↦ e
  | some again ↦ record again { in_queue = true }
]

-- An event after the loop.
abbrev pub after_loop : Option Timeval → Timeval → Entry → Entry
after_loop faked now e = if is_due now e then requeued faked now e else e

-- A queued event runs later than it did.
pub rearmed_total :
    (faked : Option Timeval) (now : Timeval) (e : Entry)
    → IsArmed (alarm_base faked now) e
    → now.usec < 1000000
    → micros now ≤ micros (alarm_base faked now)
    → (again : Entry) × (rearmed faked now (record e { in_queue = false }) ≡ some again)
      × (again.in_queue ≡ false)
      × (is_due now again ≡ false)
      × IsArmed (alarm_base faked now) again
unfolding rearmed
rearmed_total faked now e (in_range, some_time, short, near) small later =
    let (alarm, set, at, bound) =
      set_alarm_total faked now e.event.repeat_sec e.event.repeat_msec short in
    let again = record e { in_queue = false; event = record e.event { alarm_time = alarm } } in
    let future : passed alarm now ≡ false = elim (Bool-cases (passed alarm now)) [
      | inr f ↦ f
      | inl t ↦ absurd (omega (arith, (passed_iff alarm now bound small).0 t, at, later, some_time))
    ] in
    (
      again,
      rw (set, rearmed) refl,
      refl,
      future,
      ((omega (arith, at, near), bound), some_time, short, near),
    )

-- Where the first entry is not due, none is.
due_none :
    (base now first : Timeval) (es : List Entry)
    → All (IsArmed base) es
    → (first.sec < 2 ^ 31) × (first.usec ≤ 1000000)
    → now.usec < 1000000
    → passed first now ≡ false
    → All (λ f. eventless f.event.alarm_time first ≡ true) es
    → due now es ≡ []
due_none base now first [] armed bound small future least = refl
due_none base now first (e ∷ es) (armed, rest) bound small future (less, least) =
    let later = eventless_le e.event.alarm_time first armed.0 bound less in
    let not_due : is_due now e ≡ false = elim (Bool-cases (is_due now e)) [
      | inr f ↦ f
      | inl t ↦
          let early = (passed_iff e.event.alarm_time now armed.0.1 small).0 t in
          let passed_first = (passed_iff first now bound.1 small).1 (omega (arith, early, later)) in
          cc
    ] in
    rw not_due (due_none base now first es rest bound small future least)

-- What the loop ran and left of the events that were there.
abbrev pub IsRun : Option Timeval → Timeval → List Entry → List Entry → List Entry → Type 0
IsRun faked now before ran after =
    Permᴰ ran (due now before)
    × Permᴰ after (map (after_loop faked now) before)
    × (due now after ≡ [])

-- One round: the first entry is due, runs and is queued again.
IsRun-round :
    (faked : Option Timeval) (now : Timeval) (e again : Entry)
    (before rest pushed ran after : List Entry)
    → is_due now e ≡ true
    → is_due now again ≡ false
    → requeued faked now e ≡ again
    → Permᴰ before (e ∷ rest)
    → Permᴰ pushed (again ∷ rest)
    → IsRun faked now pushed ran after
    → IsRun faked now before (e ∷ ran) after
IsRun-round faked now e again before rest pushed ran after now_due later same p q (r, s, t) =
    let kept : after_loop faked now again ≡ again = rw later refl in
    let moved : after_loop faked now e ≡ again = rw now_due same in
    let due_rest : Permᴰ (due now pushed) (due now rest) =
      subst (λ xs. Permᴰ (due now pushed) xs) (rw later refl) (due-perm now q) in
    let due_all : Permᴰ (due now before) (e ∷ due now rest) =
      subst (λ xs. Permᴰ (due now before) xs) (rw now_due refl) (due-perm now p) in
    (
      Permᴰ.trans (Permᴰ.cons refl (Permᴰ.trans r due_rest)) (Permᴰ.symm due_all),
      Permᴰ.trans s (
          Permᴰ.trans (Permᴰ.map (after_loop faked now) q) (
            Permᴰ.trans
              (Permᴰ.cons (kept ∙ sym moved) (Permᴰ.refl (map (after_loop faked now) rest)))
              (Permᴰ.symm (Permᴰ.map (after_loop faked now) p)))),
      t,
    )

after_none :
    (faked : Option Timeval) (now : Timeval) (es : List Entry)
    → due now es ≡ []
    → map (after_loop faked now) es ≡ es
after_none faked now [] none_due = refl
after_none faked now (e ∷ es) none_due = elim (Bool-cases (is_due now e)) [
  | inl d ↦
      let impossible : e ∷ due now es ≡ [] = rw d at none_due in
      absurd (cons-ne-nil e (due now es) impossible)
  | inr d ↦
      let rest : due now es ≡ [] = rw d at none_due in
      rw d (ap (λ xs. e ∷ xs) (after_none faked now es rest))
]

IsRun-none :
    (faked : Option Timeval) (now : Timeval) (es : List Entry)
    → due now es ≡ []
    → IsRun faked now es [] es
IsRun-none faked now es none_due = (
  subst (Permᴰ []) (sym none_due) Permᴰ.nil,
  subst (Permᴰ es) (sym (after_none faked now es none_due)) (Permᴰ.refl es),
  none_due,
)

pub doit-true : (type : EventType) → doit type ≡ true
unfolding doit
doit-true send_dio = refl
doit-true send_dao = refl

sleep_for_le :
    (h : Heap) (alarm now : Timeval) (timeout : ℕ) → sleep_for h alarm now timeout ≤ timeout
unfolding sleep_for
sleep_for_le h alarm now timeout = ground arith

pub eat_event_pop :
    (h : Heap) (q : Heap.Queue h) (e : Entry) → h.top q ≡ some e → eat_event h q ≡ h.pop q
unfolding eat_event
eat_event_pop h q e first = rw (first, eat_event) refl

module _ (h : Heap) where
  open h use {
    Queue, contents, push, top, pop, push_adds, top_none, pop_removes, IsOrdered, push_IsOrdered,
    pop_IsOrdered, top_first,
  }

  -- On a queue that the heap keeps in order, whose alarms have at most 1000000 microseconds, whose
  -- repetitions are not empty and below 4294967 milliseconds, and whose alarms, those that the
  -- repetitions lead to from the base time included, lie before second 2 ^ 31, for a time with
  -- fewer than 1000000 microseconds that the fake time, where it is set, is not behind, and with
  -- more fuel than there are due events, the loop ends, has run exactly the due events, leaves each
  -- of them queued at its next alarm, the others as they are and none due, and sleeps no longer
  -- than it was going to.
  pub run_due-IsRun :
      (fuel : ℕ) (faked : Option Timeval) (now : Timeval) (timeout : ℕ) (q : Queue)
      → IsOrdered q
      → All (IsArmed (alarm_base faked now)) (contents q)
      → now.usec < 1000000
      → micros now ≤ micros (alarm_base faked now)
      → length (due now (contents q)) < fuel
      → (ran : List Entry) × (q' : Queue) × (sleep : ℕ) × (run_due h fuel faked now timeout q
          ≡ slept ran q' sleep)
        × IsRun faked now (contents q) ran (contents q')
        × (sleep ≤ timeout)
  unfolding run_due
  run_due-IsRun zero faked now timeout q ordered armed small later enough =
      absurd (omega (arith, enough))
  run_due-IsRun (suc fuel) faked now timeout q ordered armed small later enough =
      let base = alarm_base faked now in
      elim (Option-cases (top q)) [
        | inl empty ↦
            let nothing = top_none q empty in
            (
              [],
              q,
              timeout,
              rw (empty, run_due) refl,
              IsRun-none faked now (contents q) (ap (due now) nothing),
              omega arith,
            )
        | inr (e, first) ↦ elim (Bool-cases (passed e.event.alarm_time now)) [
          | inr future ↦
              let (armed_first, armed_rest) =
                All-perm (IsArmed base) (pop_removes q e first) armed in
              let none_due =
                due_none base now e.event.alarm_time (contents q) armed armed_first.0 small future
                  (top_first q e ordered first) in
              (
                [],
                q,
                sleep_for h e.event.alarm_time now timeout,
                rw (first, run_due) (rw future refl),
                IsRun-none faked now (contents q) none_due,
                sleep_for_le h e.event.alarm_time now timeout,
              )
          | inl passed_now ↦
              let rest = contents (pop q) in
              let gone = pop_removes q e first in
              let (armed_first, armed_rest) = All-perm (IsArmed base) gone armed in
              let (again, set, free, future, armed_again) =
                rearmed_total faked now e armed_first small later in
              let again' = record again { in_queue = true } in
              let queued = push again' (pop q) in
              let added = push_adds again' (pop q) in
              let one : due now (e ∷ rest) ≡ e ∷ due now rest = rw passed_now refl in
              let other : due now (again' ∷ rest) ≡ due now rest = rw future refl in
              let fewer : length (due now (contents queued)) < fuel = omega (
                arith,
                enough,
                length-perm (due-perm now gone) ∙ ap length one,
                length-perm (due-perm now added) ∙ ap length other,
              ) in
              let (ran, q', sleep, runs, is_run, short) =
                run_due-IsRun fuel faked now timeout queued
                  (push_IsOrdered again' (pop q) armed_again.0 (pop_IsOrdered q ordered))
                  (All-perm (IsArmed base) (Permᴰ.symm added) (armed_again, armed_rest)) small later
                  fewer in
              (
                e ∷ ran,
                q',
                sleep,
                rw (first, run_due)
                    (rw passed_now (
                      rw (doit-true e.event.event_type)
                        (rw set (rw free (rw (eat_event_pop h q e first) (rw runs refl)))))),
                IsRun-round faked now e again' (contents q) rest (contents queued) ran (contents q')
                    passed_now future (rw (set, requeued) refl) gone added is_run,
                short,
              )
        ]
      ]
