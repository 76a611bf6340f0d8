-- ===== src/Tests/Heaps.antt =====
-- A heap on a list, and an example of the loop over the due events.
use mathlib.Core.List.Permᴰ
use mathlib.Core.List.{Permᴰ}
use mathlib.Core.Option.{none-ne-some, some-injective}
use mathlib.Core.Path.{subst}
use unstrung.Prelude.{
  ℕ, ◌≡◌, ◌≤◌, ◌<◌, refl, inl, inr, Bool, true, false, ◌||◌, ◌&&◌, ◌==◌, ltb, leb, ◌^◌, List, [],
  ◌∷◌, Option, none, some, if◌then◌else◌, Bool-cases, arith,
}
use unstrung.Timer.{Timeval, alarm_base, eventless, passed}
use unstrung.Dag.{send_dio, send_dao}
use unstrung.Queue.{Entry, All, Heap, IsInRange, slept, out_of_fuel, run_due}
use unstrung.Queue.Due.{All-perm}
use unstrung.Timer.Alarm.{to_int-sub_ℕ}
use unstrung.Queue.Endless.{run_due_endless}
use unstrung.Queue.Run.{IsRun, run_due-IsRun}

-- The order of the list: by seconds, then by microseconds.
abbrev before : Timeval → Timeval → Bool
before a b = ltb a.sec b.sec || a.sec == b.sec && leb a.usec b.usec

before_refl : (a : Timeval) → before a a ≡ true
before_refl a = ground arith

before_trans : (a b c : Timeval) → before a b ≡ true → before b c ≡ true → before a c ≡ true
before_trans a b c p q = ground arith

before_total : (a b : Timeval) → before a b ≡ false → before b a ≡ true
before_total a b p = ground arith

before-eventless :
    (a b : Timeval)
    → (a.sec < 2 ^ 31) × (a.usec ≤ 1000000)
    → (b.sec < 2 ^ 31) × (b.usec ≤ 1000000)
    → before a b ≡ true
    → eventless b a ≡ true
unfolding eventless
before-eventless a b (near, few) (far, some_time) first =
    rw (to_int-sub_ℕ a.sec b.sec (omega arith) (omega arith))
      (rw (to_int-sub_ℕ a.usec b.usec (omega arith) (omega arith)) (ground arith))

abbrev sooner : Entry → Entry → Bool
sooner a b = before a.event.alarm_time b.event.alarm_time

-- The first entry, and the others.
abbrev extract : Entry → List Entry → Entry × List Entry
extract e [] = (e, [])
extract e (f ∷ fs) = let r = extract f fs in if sooner e r.0 then (e, r.0 ∷ r.1) else (r.0, e ∷ r.1)

extract-perm : (e : Entry) (es : List Entry) → Permᴰ (e ∷ es) ((extract e es).0 ∷ (extract e es).1)
extract-perm e [] = Permᴰ.refl (e ∷ [])
extract-perm e (f ∷ fs) =
    let r = extract f fs in
    let p : Permᴰ (e ∷ f ∷ fs) (e ∷ r.0 ∷ r.1) = Permᴰ.cons refl (extract-perm f fs) in
    elim (Bool-cases (sooner e r.0)) [
      | inl s ↦ rw s p
      | inr s ↦ rw s (Permᴰ.trans p (Permᴰ.swap refl refl))
    ]

abbrev AllLater : Entry → List Entry → Type 0
AllLater e es = All (λ f. sooner e f ≡ true) es

AllLater-trans : (e m : Entry) (es : List Entry) → sooner e m ≡ true → AllLater m es → AllLater e es
AllLater-trans e m [] s a = tt
AllLater-trans e m (f ∷ fs) s (x, xs) = (
  before_trans e.event.alarm_time m.event.alarm_time f.event.alarm_time s x,
  AllLater-trans e m fs s xs,
)

chosen :
    (b : Bool) (p q : Entry × List Entry) (P : Entry → Type 0)
    → (b ≡ true → P p.0)
    → (b ≡ false → P q.0)
    → P (if b then p else q).0
chosen true p q P f g = f refl
chosen false p q P f g = g refl

extract-AllLater : (e : Entry) (es : List Entry) → AllLater (extract e es).0 (e ∷ es)
extract-AllLater e [] = (before_refl e.event.alarm_time, tt)
extract-AllLater e (f ∷ fs) =
    let r = extract f fs in
    chosen (sooner e r.0) (e, r.0 ∷ r.1) (r.0, e ∷ r.1) (λ m. AllLater m (e ∷ f ∷ fs))
      (λ s.
        (before_refl e.event.alarm_time, AllLater-trans e r.0 (f ∷ fs) s (extract-AllLater f fs)))
      (λ s. (before_total e.event.alarm_time r.0.event.alarm_time s, extract-AllLater f fs))

abbrev list_top : List Entry → Option Entry
list_top [] = none
list_top (e ∷ es) = some (extract e es).0

abbrev list_pop : List Entry → List Entry
list_pop [] = []
list_pop (e ∷ es) = (extract e es).1

list_top-none : (q : List Entry) → list_top q ≡ none → q ≡ []
list_top-none [] h = refl
list_top-none (e ∷ es) h = cc

list_pop_removes : (q : List Entry) (e : Entry) → list_top q ≡ some e → Permᴰ q (e ∷ list_pop q)
list_pop_removes [] e h = absurd (none-ne-some e h)
list_pop_removes (x ∷ xs) e h =
    subst (λ m. Permᴰ (x ∷ xs) (m ∷ (extract x xs).1)) (some-injective (extract x xs).0 e h)
      (extract-perm x xs)

list_top_first : (q : List Entry) (e : Entry) → list_top q ≡ some e → AllLater e q
list_top_first [] e h = tt
list_top_first (x ∷ xs) e h =
    subst (λ m. AllLater m (x ∷ xs)) (some-injective (extract x xs).0 e h) (extract-AllLater x xs)

list_pop-IsInRange : (q : List Entry) → All IsInRange q → All IsInRange (list_pop q)
list_pop-IsInRange [] a = tt
list_pop-IsInRange (e ∷ es) a = (All-perm IsInRange (extract-perm e es) a).1

AllLater-eventless :
    (e : Entry) (es : List Entry)
    → IsInRange e
    → All IsInRange es
    → AllLater e es
    → All (λ f. eventless f.event.alarm_time e.event.alarm_time ≡ true) es
AllLater-eventless e [] r rs a = tt
AllLater-eventless e (f ∷ fs) r (g, gs) (x, xs) =
    (before-eventless e.event.alarm_time f.event.alarm_time r g x, AllLater-eventless e fs r gs xs)

list_top_least :
    (q : List Entry) (e : Entry)
    → All IsInRange q
    → list_top q ≡ some e
    → All (λ f. eventless f.event.alarm_time e.event.alarm_time ≡ true) q
list_top_least q e rs first =
    AllLater-eventless e q (All-perm IsInRange (list_pop_removes q e first) rs).0 rs
      (list_top_first q e first)

abbrev list_heap : Heap
list_heap = record {
  Queue = List Entry;
  contents = λ q. q;
  make = [];
  push = λ e q. e ∷ q;
  top = list_top;
  pop = list_pop;
  make_empty = refl;
  push_adds = λ e q. Permᴰ.refl (e ∷ q);
  top_none = list_top-none;
  pop_removes = list_pop_removes;
  IsOrdered = All IsInRange;
  make_IsOrdered = tt;
  push_IsOrdered = λ e q r rs. (r, rs);
  pop_IsOrdered = list_pop-IsInRange;
  top_first = list_top_least;
}

-- At second 1000: an event that is due, and one that is not.
abbrev two_events : List Entry
two_events =
    record {
      event_number = 1;
      event = record {
        event_type = send_dio;
        alarm_time = record { sec = 1003; usec = 0 };
        repeat_sec = 0;
        repeat_msec = 500;
      };
      in_queue = true;
    }
    ∷ record {
      event_number = 2;
      event = record {
        event_type = send_dao;
        alarm_time = record { sec = 999; usec = 1000000 };
        repeat_sec = 0;
        repeat_msec = 1500;
      };
      in_queue = true;
    }
    ∷ []

run_due-IsRun_example :
    (ran : List Entry) × (q' : List Entry) × (sleep : ℕ) × (run_due list_heap 3 none
        (record { sec = 1000; usec = 0 })
        60000
        two_events
      ≡ slept ran q' sleep)
    × IsRun none (record { sec = 1000; usec = 0 }) two_events ran q'
    × (sleep ≤ 60000)
unfolding alarm_base passed
run_due-IsRun_example =
    run_due-IsRun list_heap 3 none (record { sec = 1000; usec = 0 }) 60000 two_events (omega arith)
      (omega arith) (omega arith) (omega arith) (omega arith)

-- An event without a repetition that is due at second 1000.
abbrev urgent_event : Entry
urgent_event = record {
  event_number = 3;
  event = record {
    event_type = send_dio;
    alarm_time = record { sec = 1000; usec = 0 };
    repeat_sec = 0;
    repeat_msec = 0;
  };
  in_queue = true;
}

run_due_endless_example :
    run_due list_heap 50 none (record { sec = 1000; usec = 0 }) 60000 (urgent_event ∷ two_events)
    ≡ out_of_fuel
unfolding passed
run_due_endless_example =
    run_due_endless list_heap 50 (record { sec = 1000; usec = 0 }) 60000 (urgent_event ∷ two_events)
      (omega arith) (omega arith) (omega arith) (inl (refl, refl, refl))
