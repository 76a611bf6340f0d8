-- ===== src/Message/Writing.antt =====
-- Writes into a buffer of zeros, one after the other.
use mathlib.Core.List.{append_assoc, append-nil}
use native.Mathlib.Nat.{zero-add, suc-add}
use unstrung.Prelude.{
  ℕ, zero, suc, ◌+◌, ◌-◌, ◌%◌, ◌≤◌, ◌<◌, ◌≡◌, refl, List, [], ◌∷◌, ◌++◌, some, length,
  length-append, length-replicate, take, drop, replicate, ap, ◌∙◌, arith,
}
use unstrung.Wire.{take-append_length, drop-append_length, drop-drop}
use unstrung.RplMsg.Chain.{opt, encode}
use unstrung.Message.{write_at, appended, append_suboption}

-- A buffer of which the first bytes are written and `k` are still 0.
abbrev pub zeros : ℕ → List ℕ
zeros k = replicate k 0

drop-zeros : (n k : ℕ) → drop n (zeros k) ≡ zeros (k - n)
drop-zeros zero k = ap zeros (omega arith)
drop-zeros (suc n) zero = ap zeros {x = 0} {y = 0 - suc n} (omega arith)
drop-zeros (suc n) (suc k) = drop-zeros n k ∙ ap zeros (omega arith)

pub write_at-zeros :
    (xs ys : List ℕ) (k pos : ℕ)
    → pos ≡ length xs
    → length ys ≤ k
    → write_at (xs ++ zeros k) pos ys ≡ some ((xs ++ ys) ++ zeros (k - length ys))
unfolding write_at
write_at-zeros xs ys k pos e h = ground (
  arith,
  length-append xs (zeros k),
  length-replicate {A = ℕ} k 0,
  take-append_length xs (zeros k),
  drop-append_length xs (zeros k),
  drop-drop (length ys) (length xs) (xs ++ zeros k),
  drop-zeros (length ys) k,
  append_assoc xs ys (zeros (k - length ys)),
)

-- An append that has room leaves the option's encoding behind what was there.
pub append_suboption-zeros :
    (xs content : List ℕ) (k pos avail type : ℕ)
    → pos ≡ length xs
    → length content + 2 ≤ k
    → length content + 2 ≤ avail
    → length content < 256
    → append_suboption (xs ++ zeros k) pos avail type content
      ≡ appended
          ((xs ++ encode (opt type content ∷ [])) ++ zeros (k - (length content + 2)))
          (pos + (length content + 2))
unfolding append_suboption encode
append_suboption-zeros xs content k pos avail type e room fits small =
    ground
      (arith, write_at-zeros xs (type ∷ (length content % 256) ∷ content) k pos, append-nil content)

pub take-zeros : (n k : ℕ) → n ≤ k → take n (zeros k) ≡ zeros n
take-zeros zero k h = refl
take-zeros (suc n) zero h = absurd (omega arith)
take-zeros (suc n) (suc k) h = ap (λ t. 0 ∷ t) (take-zeros n k (omega (arith, h)))

pub take-append_more {ℓ} :
    {A : Type ℓ} (xs ys : List A) (n : ℕ) → take (length xs + n) (xs ++ ys) ≡ xs ++ take n ys
take-append_more [] ys n = rw zero-add refl
take-append_more (x ∷ xs) ys n = rw suc-add (ap (λ t. x ∷ t) (take-append_more xs ys n))
