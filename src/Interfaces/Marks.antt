-- ===== src/Interfaces/Marks.antt =====
-- `remove_marks` along the list.
use mathlib.Core.Path.{subst}
use unstrung.Prelude.{
  ℕ, suc, ◌≡◌, refl, inl, inr, true, false, List, [], ◌∷◌, ◌==◌, ==_iff, if◌then◌else◌, Bool-cases,
  ◌∙◌, arith,
}
use unstrung.Prelude.Int.{ℤ, pos, negsuc}
use unstrung.Interfaces.{IfList, Interface, foreach_if, set_interface, remove_mark, remove_marks}
use unstrung.Interfaces.Listed.{times}

abbrev pub unmarked : Interface → Interface
unmarked x = record x { mark = false }

abbrev reached : ℕ → List ℕ → (ℕ → Interface) → Interface
reached p l interface = if times p l == 0 then interface p else unmarked (interface p)

reached_self :
    (x : ℕ) (xs : List ℕ) (interface : ℕ → Interface)
    → reached x xs (set_interface x (unmarked (interface x)) interface)
      ≡ reached x (x ∷ xs) interface
reached_self x xs interface =
    let self : (x == x) ≡ true = (==_iff x x).1 refl in
    let nonzero : (suc (times x xs) == 0) ≡ false = ground arith in
    elim (Bool-cases (times x xs == 0)) [
      | inl e ↦ rw e (rw self (rw nonzero refl))
      | inr e ↦ rw e (rw self (rw nonzero refl))
    ]

reached_other :
    (p x : ℕ) (xs : List ℕ) (interface : ℕ → Interface)
    → (x == p) ≡ false
    → reached p xs (set_interface x (unmarked (interface x)) interface)
      ≡ reached p (x ∷ xs) interface
reached_other p x xs interface e =
    let other : (p == x) ≡ false = ground arith in rw e (rw other refl)

foreach_if-remove_mark :
    (l : List ℕ) (ret : ℤ) (interface : ℕ → Interface) (p : ℕ)
    → (foreach_if remove_mark l ret interface).0 p ≡ reached p l interface
unfolding foreach_if remove_mark
foreach_if-remove_mark [] ret interface p = refl
foreach_if-remove_mark (x ∷ xs) ret interface p =
    foreach_if-remove_mark xs (pos 1) (set_interface x (unmarked (interface x)) interface) p
    ∙ elim (Bool-cases (x == p)) [
      | inl e ↦
          subst
            (λ k.
              reached k xs (set_interface x (unmarked (interface x)) interface)
              ≡ reached k (x ∷ xs) interface)
            ((==_iff x p).0 e) (reached_self x xs interface)
      | inr e ↦ reached_other p x xs interface e
    ]

-- `remove_marks` unmarks exactly the interfaces of the list, and changes nothing else of them.
pub remove_marks_lem :
    (s : IfList) (p : ℕ)
    → (remove_marks s).interface p
      ≡ (if times p s.all_if == 0 then s.interface p else unmarked (s.interface p))
unfolding remove_marks
remove_marks_lem s p = foreach_if-remove_mark s.all_if (negsuc 0) s.interface p
