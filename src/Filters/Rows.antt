-- ===== src/Filters/Rows.antt =====
-- The rows of the patterns in their memory.
use mathlib.Core.List.{append_assoc}
use unstrung.Prelude.{
  ℕ, suc, ◌+◌, ◌*◌, ◌≡◌, ◌≤◌, ◌<◌, List, [], ◌∷◌, ◌++◌, some, length, drop, length-append,
  length-drop, ap, sym, ◌∙◌, arith,
}
use unstrung.Wire.{drop-drop}
use unstrung.Filters.{write_bytes, c_string}
use unstrung.Filters.Memory.{
  length-write_bytes, c_string-write_bytes, drop-write_bytes, NoNul, c_string-append,
}

-- The memory starts with the texts, one in each row.
abbrev pub IsRows : List (List ℕ) → List ℕ → Type 0
IsRows [] mem = Unit {0}
IsRows (w ∷ ws) mem = (c_string mem ≡ some w) × (length w < 32) × IsRows ws (drop 32 mem)

-- A write behind the rows leaves them.
pub IsRows-write_bytes :
    (ws : List (List ℕ)) (mem : List ℕ) (offset : ℕ) (bytes : List ℕ)
    → 32 * length ws ≤ length mem
    → IsRows ws mem
    → IsRows ws (write_bytes mem (32 * length ws + offset) bytes)
IsRows-write_bytes [] mem offset bytes room rows = tt
IsRows-write_bytes (w ∷ ws) mem offset bytes room (text, short, rows) =
    let at : 32 * suc (length ws) + offset ≡ 32 + (32 * length ws + offset) = omega arith in
    let below =
      IsRows-write_bytes ws (drop 32 mem) offset bytes (omega (arith, length-drop 32 mem, room))
        rows in
    (
      c_string-write_bytes mem (32 * suc (length ws) + offset) bytes w text (omega (arith, short)),
      short,
      rw at (
          rw (drop-write_bytes 32 mem (32 * length ws + offset) bytes (omega (arith, room))) below),
    )

pub IsRows-append :
    (ws : List (List ℕ)) (mem w : List ℕ)
    → IsRows ws mem
    → c_string (drop (32 * length ws) mem) ≡ some w
    → length w < 32
    → IsRows (ws ++ (w ∷ [])) mem
IsRows-append [] mem w rows text short = (text, short, tt)
IsRows-append (v ∷ ws) mem w (first, small, rows) text short =
    let at : 32 + 32 * length ws ≡ 32 * suc (length ws) = omega arith in
    let same = drop-drop (32 * length ws) 32 mem ∙ ap (λ k. drop k mem) at in
    (first, small, IsRows-append ws (drop 32 mem) w rows (ap c_string same ∙ text) short)

-- The row behind the others, with both writes.
pub new_row :
    (mem wild : List ℕ) (n : ℕ)
    → NoNul wild
    → 32 * n + (length wild + 2) ≤ length mem
    → c_string (
        drop (32 * n) (
          write_bytes
            (write_bytes mem (32 * n) (wild ++ (0 ∷ [])))
            (32 * n + (length wild + 1))
            (0 ∷ [])))
      ≡ some wild
unfolding write_bytes
new_row mem wild n no_nul room =
    let behind_row = drop (length (wild ++ (0 ∷ []))) (drop (32 * n) mem) in
    let filled = write_bytes mem (32 * n) (wild ++ (0 ∷ [])) in
    let size : length filled ≡ length mem =
      length-write_bytes mem (32 * n) (wild ++ (0 ∷ []))
        (omega (arith, length-append wild (0 ∷ []), room)) in
    let at : 32 * n + 0 ≡ 32 * n = omega arith in
    let inner : drop (32 * n) filled ≡ write_bytes (drop (32 * n) mem) 0 (wild ++ (0 ∷ [])) =
      ap (λ k. drop (32 * n) (write_bytes mem k (wild ++ (0 ∷ [])))) (sym at)
      ∙ drop-write_bytes (32 * n) mem 0 (wild ++ (0 ∷ [])) (omega (arith, room)) in
    rw (drop-write_bytes (32 * n) filled (length wild + 1) (0 ∷ []) (omega (arith, size, room))) (
      c_string-write_bytes (drop (32 * n) filled) (length wild + 1) (0 ∷ []) wild
        (ap c_string (inner ∙ append_assoc wild (0 ∷ []) behind_row)
          ∙ c_string-append wild behind_row no_nul)
        (omega arith))
