-- ===== src/Queue/Due.antt =====
-- The events of a queue that are due, as a part of its contents in any order.
use mathlib.Core.List.Permᴰ
use mathlib.Core.List.{Permᴰ}
use mathlib.Core.Path.{subst}
use unstrung.Prelude.{
  suc, ◌≡◌, ◌<◌, ◌≤◌, ◌^◌, refl, inl, inr, Bool, true, List, [], ◌∷◌, length, if◌then◌else◌,
  Bool-cases, ap, ◌∙◌, arith,
}
use unstrung.Timer.{Timeval, micros, passed, eventless}
use unstrung.Timer.Alarm.{to_int-sub_ℕ}
use unstrung.Queue.{Entry, All}

abbrev pub is_due : Timeval → Entry → Bool
is_due now e = passed e.event.alarm_time now

abbrev pub due : Timeval → List Entry → List Entry
due now [] = []
due now (e ∷ es) = if is_due now e then e ∷ due now es else due now es

due-cons :
    (now : Timeval) (a b : Entry) (l₁ l₂ : List Entry)
    → a ≡ b
    → Permᴰ (due now l₁) (due now l₂)
    → Permᴰ (due now (a ∷ l₁)) (due now (b ∷ l₂))
due-cons now a b l₁ l₂ e p =
    subst (λ x. Permᴰ (due now (a ∷ l₁)) (due now (x ∷ l₂))) e
      (elim (Bool-cases (is_due now a)) [ inl d ↦ rw d (Permᴰ.cons refl p) | inr d ↦ rw d p ])

due-swap :
    (now : Timeval) (a b : Entry) (l : List Entry)
    → Permᴰ (due now (a ∷ b ∷ l)) (due now (b ∷ a ∷ l))
due-swap now a b l = elim (Bool-cases (is_due now a)) [
  | inl d ↦ elim (Bool-cases (is_due now b)) [
    | inl f ↦ rw d (rw f (Permᴰ.swap refl refl))
    | inr f ↦ rw d (rw f (Permᴰ.refl (a ∷ due now l)))
  ]
  | inr d ↦ elim (Bool-cases (is_due now b)) [
    | inl f ↦ rw d (rw f (Permᴰ.refl (b ∷ due now l)))
    | inr f ↦ rw d (rw f (Permᴰ.refl (due now l)))
  ]
]

pub due-perm : (now : Timeval) {xs ys : List Entry} → Permᴰ xs ys → Permᴰ (due now xs) (due now ys)
due-perm now Permᴰ.nil = Permᴰ.nil
due-perm now (Permᴰ.cons {a} {b} {l₁} {l₂} e p) = due-cons now a b l₁ l₂ e (due-perm now p)
due-perm now (Permᴰ.swap {a} {b} {a'} {b'} {l} e f) =
    subst (λ x. Permᴰ (due now (a ∷ b ∷ l)) (due now (x ∷ b' ∷ l))) f
      (subst (λ y. Permᴰ (due now (a ∷ b ∷ l)) (due now (b ∷ y ∷ l))) e (due-swap now a b l))
due-perm now (Permᴰ.trans p q) = Permᴰ.trans (due-perm now p) (due-perm now q)

pub length-perm : {xs ys : List Entry} → Permᴰ xs ys → length xs ≡ length ys
length-perm Permᴰ.nil = refl
length-perm (Permᴰ.cons e p) = ap suc (length-perm p)
length-perm (Permᴰ.swap e f) = refl
length-perm (Permᴰ.trans p q) = length-perm p ∙ length-perm q

pub All-perm : (P : Entry → Type 0) {xs ys : List Entry} → Permᴰ xs ys → All P xs → All P ys
All-perm P Permᴰ.nil a = a
All-perm P (Permᴰ.cons e p) (x, xs) = (subst P e x, All-perm P p xs)
All-perm P (Permᴰ.swap e f) (x, (y, xs)) = (subst P f y, (subst P e x, xs))
All-perm P (Permᴰ.trans p q) a = All-perm P q (All-perm P p a)

-- What the heap says of its first entry, as an order of instants.
pub eventless_le :
    (a b : Timeval)
    → (a.sec < 2 ^ 31) × (a.usec ≤ 1000000)
    → (b.sec < 2 ^ 31) × (b.usec ≤ 1000000)
    → eventless a b ≡ true
    → micros b ≤ micros a
unfolding eventless
eventless_le a b (near, few) (far, some_time) less =
    let less' =
      rw
        (
          to_int-sub_ℕ b.sec a.sec (omega arith) (omega arith),
          to_int-sub_ℕ b.usec a.usec (omega arith) (omega arith),
        )
        at less in
    ground arith
