-- ===== src/Filters/Memory.antt =====
-- Texts in the memory of the rows.
use mathlib.Core.Option.{none-ne-some, some-injective}
use native.Mathlib.Nat.{zero-add, suc-add}
use unstrung.Prelude.{
  ℕ, zero, suc, ◌+◌, ◌≡◌, ◌≤◌, ◌<◌, refl, inl, inr, false, List, [], ◌∷◌, ◌++◌, some, length, drop,
  length-append, length-drop, ◌==◌, Bool-cases, Option-cases, ap, arith,
}
use unstrung.Filters.{write_bytes, c_string}

pub length-write_bytes :
    (mem : List ℕ) (offset : ℕ) (bytes : List ℕ)
    → offset + length bytes ≤ length mem
    → length (write_bytes mem offset bytes) ≡ length mem
unfolding write_bytes
length-write_bytes mem zero bytes fits =
    omega
      (arith, length-append bytes (drop (length bytes) mem), length-drop (length bytes) mem, fits)
length-write_bytes [] (suc offset) bytes fits = refl
length-write_bytes (x ∷ mem) (suc offset) bytes fits =
    ap suc (length-write_bytes mem offset bytes (omega (arith, fits)))

-- A write behind a text leaves it.
pub c_string-write_bytes :
    (mem : List ℕ) (offset : ℕ) (bytes text : List ℕ)
    → c_string mem ≡ some text
    → length text < offset
    → c_string (write_bytes mem offset bytes) ≡ some text
unfolding c_string write_bytes
c_string-write_bytes mem zero bytes text e behind = absurd (omega (arith, behind))
c_string-write_bytes [] (suc offset) bytes text e behind = e
c_string-write_bytes (c ∷ mem) (suc offset) bytes text e behind = elim (Bool-cases (c == 0)) [
  | inl ends ↦ rw (ends, c_string) (rw (ends, c_string) at e)
  | inr goes ↦ elim (Option-cases (c_string mem)) [
    | inl stops ↦ absurd (none-ne-some text (rw (goes, stops, c_string) at e))
    | inr (w, found) ↦
        let same : c ∷ w ≡ text = some-injective (c ∷ w) text (rw (goes, found, c_string) at e) in
        let short : length w < offset = omega (arith, ap length same, behind) in
        rw (goes, c_string)
          (rw (c_string-write_bytes mem offset bytes w found short) (ap some same))
  ]
]

pub drop-write_bytes :
    (k : ℕ) (mem : List ℕ) (offset : ℕ) (bytes : List ℕ)
    → k ≤ length mem
    → drop k (write_bytes mem (k + offset) bytes) ≡ write_bytes (drop k mem) offset bytes
unfolding write_bytes
drop-write_bytes zero mem offset bytes inside = rw zero-add refl
drop-write_bytes (suc k) [] offset bytes inside = absurd (omega (arith, inside))
drop-write_bytes (suc k) (x ∷ mem) offset bytes inside =
    rw suc-add (drop-write_bytes k mem offset bytes (omega (arith, inside)))

abbrev pub NoNul : List ℕ → Type 0
NoNul [] = Unit {0}
NoNul (c ∷ text) = ((c == 0) ≡ false) × NoNul text

pub c_string-append : (text rest : List ℕ) → NoNul text → c_string (text ++ (0 ∷ rest)) ≡ some text
unfolding c_string
c_string-append [] rest n = refl
c_string-append (c ∷ text) rest (goes, n) =
    rw (goes, c_string) (rw (c_string-append text rest n) refl)
