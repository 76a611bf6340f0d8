-- ===== src/Queue/Endless.antt =====
-- The loop over the due events where an event has no repetition.
use mathlib.Core.List.Permᴰ
use mathlib.Core.List.{Permᴰ}
use mathlib.Core.Path.{subst}
use unstrung.Prelude.{
  ℕ, zero, suc, ◌+◌, ◌*◌, ◌^◌, ◌≡◌, ◌<◌, ◌⊎◌, refl, inl, inr, true, false, List, [], ◌∷◌, none,
  some, Option-cases, arith,
}
use unstrung.Timer.{Timeval, micros, alarm_base, passed, eventless}
use unstrung.Timer.Alarm.{passed_iff, set_alarm_total}
use unstrung.Queue.{Entry, All, Heap, IsInRange, out_of_fuel, rearmed, run_due}
use unstrung.Queue.Due.{is_due, All-perm, eventless_le}
use unstrung.Queue.Run.{doit-true, eat_event_pop}

abbrev pub Any : (Entry → Type 0) → List Entry → Type 0
Any P [] = ⊥
Any P (e ∷ es) = P e ⊎ Any P es

Any-perm : (P : Entry → Type 0) {xs ys : List Entry} → Permᴰ xs ys → Any P xs → Any P ys
Any-perm P Permᴰ.nil a = a
Any-perm P (Permᴰ.cons e p) (inl x) = inl (subst P e x)
Any-perm P (Permᴰ.cons e p) (inr a) = inr (Any-perm P p a)
Any-perm P (Permᴰ.swap e f) (inl x) = inr (inl (subst P e x))
Any-perm P (Permᴰ.swap e f) (inr (inl y)) = inl (subst P f y)
Any-perm P (Permᴰ.swap e f) (inr (inr a)) = inr (inr a)
Any-perm P (Permᴰ.trans p q) a = Any-perm P q (Any-perm P p a)

-- An alarm in range, a repetition short of 4294967 milliseconds, and the alarm that it leads to
-- before second 2^31.
abbrev pub IsBounded : Timeval → Entry → Type 0
IsBounded now e =
    IsInRange e
    × (e.event.repeat_msec < 4294967)
    × (micros now + e.event.repeat_sec * 1000000 + e.event.repeat_msec * 1000 < 2 ^ 31 * 1000000)

-- A due event without a repetition.
abbrev pub IsUrgent : Timeval → Entry → Type 0
IsUrgent now e = (is_due now e ≡ true) × (e.event.repeat_sec ≡ 0) × (e.event.repeat_msec ≡ 0)

rearmed-kept :
    (now : Timeval) (e : Entry)
    → IsBounded now e
    → now.usec < 1000000
    → (again : Entry) × (rearmed none now (record e { in_queue = false }) ≡ some again)
      × (again.in_queue ≡ false)
      × IsBounded now again
      × (IsUrgent now e → IsUrgent now again)
unfolding rearmed alarm_base
rearmed-kept now e (in_range, short, near) small =
    let (alarm, set, at, bound) =
      set_alarm_total none now e.event.repeat_sec e.event.repeat_msec short in
    let again = record e { in_queue = false; event = record e.event { alarm_time = alarm } } in
    (
      again,
      rw (set, rearmed) refl,
      refl,
      ((omega (arith, at, near), bound), short, near),
      λ (d, s, m). ((passed_iff alarm now bound small).1 (omega (arith, at, s, m)), s, m),
    )

-- An urgent event is not behind one that is not due.
first_due :
    (now : Timeval) (first : Entry) (es : List Entry)
    → IsBounded now first
    → All (IsBounded now) es
    → now.usec < 1000000
    → All (λ f. eventless f.event.alarm_time first.event.alarm_time ≡ true) es
    → Any (IsUrgent now) es
    → is_due now first ≡ true
first_due now first [] b bs small least a = elim a [ ]
first_due now first (e ∷ es) b (be, bs) small (less, least) (inl (d, s, m)) =
    (passed_iff first.event.alarm_time now b.0.1 small).1 (
      omega (
        arith,
        eventless_le e.event.alarm_time first.event.alarm_time be.0 b.0 less,
        (passed_iff e.event.alarm_time now be.0.1 small).0 d,
      ))
first_due now first (e ∷ es) b (be, bs) small (less, least) (inr a) =
    first_due now first es b bs small least a

module _ (h : Heap) where
  open h use {
    Queue, contents, push, top, pop, push_adds, top_none, pop_removes, IsOrdered, push_IsOrdered,
    pop_IsOrdered, top_first,
  }

  -- On a queue that the heap keeps in order, whose alarms have at most 1000000 microseconds, whose
  -- repetitions are below 4294967 milliseconds, and whose alarms, those that the repetitions lead
  -- to from the time included, lie before second 2 ^ 31, for a time with fewer than 1000000
  -- microseconds that is not faked, one due event with an empty repetition makes the loop run out
  -- of fuel, however much it is, and neither end nor fail.
  pub run_due_endless :
      (fuel : ℕ) (now : Timeval) (timeout : ℕ) (q : Queue)
      → IsOrdered q
      → All (IsBounded now) (contents q)
      → now.usec < 1000000
      → Any (IsUrgent now) (contents q)
      → run_due h fuel none now timeout q ≡ out_of_fuel
  unfolding run_due
  run_due_endless zero now timeout q ordered bounded small urgent = refl
  run_due_endless (suc fuel) now timeout q ordered bounded small urgent =
      elim (Option-cases (top q)) [
        | inl empty ↦ absurd (subst (Any (IsUrgent now)) (top_none q empty) urgent)
        | inr (e, first) ↦
            let gone = pop_removes q e first in
            let (bound, bounded_rest) = All-perm (IsBounded now) gone bounded in
            let now_due : passed e.event.alarm_time now ≡ true =
              first_due now e (contents q) bound bounded small (top_first q e ordered first)
                urgent in
            let (again, set, free, bound_again, still) = rearmed-kept now e bound small in
            let again' = record again { in_queue = true } in
            let added = push_adds again' (pop q) in
            let left : Any (IsUrgent now) (again' ∷ contents (pop q)) =
              elim (Any-perm (IsUrgent now) gone urgent) [
                | inl u ↦ inl (still u)
                | inr a ↦ inr a
              ] in
            rw (first, run_due)
              (rw now_due (
                rw (doit-true e.event.event_type) (
                  rw set (
                    rw free (
                      rw (eat_event_pop h q e first) (
                        rw
                          (run_due_endless fuel now timeout (push again' (pop q))
                            (push_IsOrdered again' (pop q) bound_again.0 (pop_IsOrdered q ordered))
                            (All-perm (IsBounded now) (Permᴰ.symm added)
                              (bound_again, bounded_rest))
                            small (Any-perm (IsUrgent now) (Permᴰ.symm added) left))
                          refl))))))
      ]
