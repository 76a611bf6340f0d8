-- ===== src/Queue.antt =====
-- event.h, event.cpp and the event loop of iface.cpp: the queue of events, and what runs of it. The
-- heap is boost::heap::binomial_heap, which is a parameter.
pub mod Due
pub mod Run
pub mod Endless
use mathlib.Core.List.{Permᴰ}
use unstrung.Prelude.{
  ℕ, zero, suc, ◌+◌, ◌*◌, ◌≡◌, Bool, true, false, not, ◌&&◌, List, [], ◌∷◌, Option, none, some, ltb,
  ◌<◌, ◌≤◌, ◌^◌, if◌then◌else◌,
}
use unstrung.Prelude.Int.{ℤ, pos, negsuc}
use unstrung.Timer.{Timeval, set_alarm, passed, eventless, miliseconds_util}
use unstrung.Dag.{RplEvent, EventType, send_dio, send_dao, ◌>>=◌}

-- An event object: its number, its contents and `inQueue`.
pub record Entry : Type 0 where
  pub event_number : ℕ
  pub event : RplEvent
  pub in_queue : Bool

abbrev pub All : (Entry → Type 0) → List Entry → Type 0
All P [] = Unit {0}
All P (e ∷ es) = P e × All P es

-- An alarm before second 2^31, normalised as `set_alarm` does it. The comparison `rpl_eventless` is
-- an order only on alarms whose seconds differ by what an `int` holds.
abbrev pub IsInRange : Entry → Type 0
IsInRange e = (e.event.alarm_time.sec < 2 ^ 31) × (e.event.alarm_time.usec ≤ 1000000)

-- The heap, with the contents that it stands for in some order. The laws are the documented ones of
-- a priority queue under the comparison `rpl_eventless`: what is on top is nothing's inferior, as
-- long as only entries that the comparison orders were put in (`IsOrdered`).
pub record Heap : Type 1 where
  pub Queue : Type 0
  pub contents : Queue → List Entry
  pub IsOrdered : Queue → Type 0
  pub make : Queue
  pub push : Entry → Queue → Queue
  pub top : Queue → Option Entry
  pub pop : Queue → Queue
  pub make_empty : contents make ≡ []
  pub push_adds : (e : Entry) (q : Queue) → Permᴰ (contents (push e q)) (e ∷ contents q)
  pub top_none : (q : Queue) → top q ≡ none → contents q ≡ []
  pub pop_removes :
      (q : Queue) (e : Entry) → top q ≡ some e → Permᴰ (contents q) (e ∷ contents (pop q))
  pub make_IsOrdered : IsOrdered make
  pub push_IsOrdered : (e : Entry) (q : Queue) → IsInRange e → IsOrdered q → IsOrdered (push e q)
  pub pop_IsOrdered : (q : Queue) → IsOrdered q → IsOrdered (pop q)
  pub top_first :
      (q : Queue) (e : Entry)
      → IsOrdered q
      → top q ≡ some e
      → All (λ f. eventless f.event.alarm_time e.event.alarm_time ≡ true) (contents q)

-- `rpl_event::doit`: whether the event is kept. What it sends is not modelled here, and changes no
-- event; an event of another type than these two does not arise.
pub doit : EventType → Bool
doit send_dio = true
doit send_dao = true

-- The alarm that `requeue(list, now)` sets.
pub rearmed : Option Timeval → Timeval → Entry → Option Entry
rearmed faked now e = do
  alarm ← set_alarm faked now e.event.repeat_sec e.event.repeat_msec
  some (record e { event = record e.event { alarm_time = alarm } })

-- How the loop over the due events goes: what it ran, the queue and the time to sleep; the failed
-- assertion of `add_event`; the loop of `set_alarm` or this one on fuel that ran out.
pub data DueRun (Queue : Type 0) : Type 0 where
  slept : List Entry → Queue → ℕ → DueRun Queue
  asserted : DueRun Queue
  no_alarm : DueRun Queue
  out_of_fuel : DueRun Queue

abbrev pub after_running : {Queue : Type 0} → Entry → DueRun Queue → DueRun Queue
after_running e (slept ran q timeout) = slept (e ∷ ran) q timeout
after_running e asserted = asserted
after_running e no_alarm = no_alarm
after_running e out_of_fuel = out_of_fuel

module _ (h : Heap) where
  open h use {Queue, make, push, top, pop}

  -- `add_event`; `none` is a failed assertion.
  pub add_event : Entry → Queue → Option Queue
  add_event n q = if n.in_queue then none else some (push (record n { in_queue = true }) q)

  -- `eat_event`
  pub eat_event : Queue → Queue
  eat_event q = elim (top q) [ none ↦ q | some e ↦ pop q ]

  -- `next_event`
  pub next_event : Queue → Option (Entry × Queue)
  unfolding eat_event
  next_event q = elim (top q) [
    | none ↦ none
    | some n ↦ some (record n { in_queue = false }, eat_event q)
  ]

  -- The time to sleep until the first event that is not due.
  pub sleep_for : Timeval → Timeval → ℕ → ℕ
  sleep_for alarm now timeout = elim (miliseconds_util alarm now) [
    | pos newtimeout ↦ if ltb newtimeout timeout then newtimeout else timeout
    | negsuc below ↦ timeout
  ]

  -- The loop of `main_loop` over the events that are due, with fuel.
  pub run_due : ℕ → Option Timeval → Timeval → ℕ → Queue → DueRun Queue
  unfolding eat_event add_event
  run_due zero faked now timeout q = out_of_fuel
  run_due (suc fuel) faked now timeout q = elim (top q) [
    | none ↦ slept [] q timeout
    | some re ↦ elim (passed re.event.alarm_time now) [
      | false ↦ slept [] q (sleep_for re.event.alarm_time now timeout)
      | true ↦
          let eaten = eat_event q in
          elim (doit re.event.event_type) [
            | false ↦ after_running re (run_due fuel faked now timeout eaten)
            | true ↦ elim (rearmed faked now (record re { in_queue = false })) [
              | none ↦ no_alarm
              | some again ↦ elim (add_event again eaten) [
                | none ↦ asserted
                | some queued ↦ after_running re (run_due fuel faked now timeout queued)
              ]
            ]
          ]
    ]
  ]

  -- `force_next_event`: what it ran, the queue, and whether there was an event.
  pub force_next_event :
      Bool → Option Timeval → Timeval → Queue → Option (List Entry × Queue × Bool)
  unfolding next_event add_event
  force_next_event terminating_soon faked now q = elim (next_event q) [
    | none ↦ some ([], q, false)
    | some (re, eaten) ↦
        if doit re.event.event_type && not terminating_soon
        then (do
          again ← rearmed faked now re
          queued ← add_event again eaten
          some (re ∷ [], queued, true))
        else some (re ∷ [], eaten, true)
  ]

  -- `clear_events`, with fuel: the events that are deleted, and the queue.
  pub clear_events : ℕ → Queue → Option (List Entry × Queue)
  unfolding next_event
  clear_events zero q = none
  clear_events (suc fuel) q = elim (next_event q) [
    | none ↦ some ([], q)
    | some (re, eaten) ↦ elim (clear_events fuel eaten) [
      | none ↦ none
      | some (gone, q') ↦ some (re ∷ gone, q')
    ]
  ]
