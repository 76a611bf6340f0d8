-- ===== src/Filters/Wildcards.antt =====
-- The configured patterns, and what matches them.
use mathlib.Core.List.{append_assoc, append-nil}
use mathlib.Core.Path.{subst}
use unstrung.Prelude.{
  ℕ, zero, suc, ◌+◌, ◌*◌, ◌≡◌, ◌≤◌, ◌<◌, refl, inl, inr, Bool, true, false, List, [], ◌∷◌, ◌++◌,
  Option, none, some, length, take, drop, min, length-append, take_all, ltb, leb, if◌then◌else◌,
  Bool-cases, ap, sym, ◌∙◌, arith,
}
use unstrung.Wire.{drop-drop, take-append_length}
use unstrung.Filters.{
  Filters, write_bytes, set_interface_wildcard, match_wildcards, matches_if_wildcard,
}
use unstrung.Filters.Rows.{IsRows, IsRows-write_bytes, IsRows-append, new_row}
use unstrung.Filters.Memory.{length-write_bytes, NoNul}

abbrev pub any_match : (List ℕ → List ℕ → Bool) → List ℕ → List (List ℕ) → Bool
any_match fnmatch ifname [] = false
any_match fnmatch ifname (w ∷ ws) = if fnmatch w ifname then true else any_match fnmatch ifname ws

match_wildcards-any_match :
    (fnmatch : List ℕ → List ℕ → Bool) (ifname mem : List ℕ) (ws : List (List ℕ)) (i : ℕ)
    → IsRows ws (drop (32 * i) mem)
    → match_wildcards fnmatch ifname mem (length ws) i ≡ some (any_match fnmatch ifname ws)
unfolding match_wildcards
match_wildcards-any_match fnmatch ifname mem [] i rows = refl
match_wildcards-any_match fnmatch ifname mem (w ∷ ws) i (text, short, rows) =
    let next : 32 * i + 32 ≡ 32 * suc i = omega arith in
    let rows' : IsRows ws (drop (32 * suc i) mem) =
      subst (IsRows ws) (drop-drop 32 (32 * i) mem ∙ ap (λ k. drop k mem) next) rows in
    let rest = match_wildcards-any_match fnmatch ifname mem ws (suc i) rows' in
    rw (text, match_wildcards)
      (elim (Bool-cases (fnmatch w ifname)) [ inl e ↦ rw e refl | inr e ↦ rw e rest ])

-- A pattern that has the room of a row, with its NUL and one byte more.
abbrev pub IsShort : List ℕ → Type 0
IsShort wild = NoNul wild × (length wild < 31)

abbrev pub Holds : List (List ℕ) → Filters → Type 0
Holds ws f =
    (f.if_wildcard_max ≡ length ws)
    × (length f.if_wildcard ≡ 256)
    × (length ws ≤ 8)
    × IsRows ws f.if_wildcard

new_row-Holds :
    (ws : List (List ℕ)) (wild : List ℕ) (f : Filters)
    → Holds ws f
    → NoNul wild
    → length wild < 31
    → length ws < 8
    → Holds (ws ++ (wild ∷ [])) (record f {
      if_wildcard =
          write_bytes
            (write_bytes f.if_wildcard (32 * length ws) (wild ++ (0 ∷ [])))
            (32 * length ws + (length wild + 1))
            (0 ∷ []);
      if_wildcard_max = suc (length ws);
    })
new_row-Holds ws wild f (max, size, some_rows, rows) no_nul short below =
    let n = length ws in
    let first = write_bytes f.if_wildcard (32 * n) (wild ++ (0 ∷ [])) in
    let longer = length-append ws (wild ∷ []) in
    let at : 32 * n + 0 ≡ 32 * n = omega arith in
    let size1 =
      length-write_bytes f.if_wildcard (32 * n) (wild ++ (0 ∷ []))
        (omega (arith, length-append wild (0 ∷ []), size, short, below))
      ∙ size in
    let size2 =
      length-write_bytes first (32 * n + (length wild + 1)) (0 ∷ [])
        (omega (arith, size1, short, below))
      ∙ size1 in
    let rows1 =
      subst (λ k. IsRows ws (write_bytes f.if_wildcard k (wild ++ (0 ∷ [])))) at
        (IsRows-write_bytes ws f.if_wildcard 0 (wild ++ (0 ∷ [])) (omega (arith, size, below))
          rows) in
    let rows2 =
      IsRows-write_bytes ws first (length wild + 1) (0 ∷ []) (omega (arith, size1, below)) rows1 in
    let mem = write_bytes first (32 * n + (length wild + 1)) (0 ∷ []) in
    let text = new_row f.if_wildcard wild n no_nul (omega (arith, size, short, below)) in
    (
      omega (arith, longer),
      size2,
      omega (arith, longer, below),
      IsRows-append ws mem wild rows2 text (omega (arith, short)),
    )

-- A short pattern goes into the next row, as long as there is one.
set_interface_wildcard-Holds :
    (ws : List (List ℕ)) (wild : List ℕ) (f : Filters)
    → Holds ws f
    → IsShort wild
    → (f' : Filters) × (set_interface_wildcard wild f ≡ some f')
      × Holds (if ltb (length ws) 8 then ws ++ (wild ∷ []) else ws) f'
unfolding set_interface_wildcard
set_interface_wildcard-Holds ws wild f (max, size, some_rows, rows) (no_nul, short) =
    elim (Bool-cases (ltb (length ws) 8)) [
      | inr full ↦
          (f, rw (max, set_interface_wildcard) (rw full refl), rw full (max, size, some_rows, rows))
      | inl free ↦
          let n = length ws in
          let below : n < 8 = ground (arith, free) in
          let first = write_bytes f.if_wildcard (32 * n) (wild ++ (0 ∷ [])) in
          let mem = write_bytes first (32 * n + (length wild + 1)) (0 ∷ []) in
          let whole : take (length wild + 1) (wild ++ (0 ∷ [])) ≡ wild ++ (0 ∷ []) =
            ap (λ k. take k (wild ++ (0 ∷ []))) (sym (length-append wild (0 ∷ [])))
            ∙ take_all (wild ++ (0 ∷ [])) in
          let fits : ltb 31 (length wild + 1) ≡ false = ground (arith, short) in
          let room : leb 256 (32 * n + (length wild + 1)) ≡ false = ground (arith, short, below) in
          (
            record f { if_wildcard = mem; if_wildcard_max = suc n },
            rw (max, set_interface_wildcard)
                (rw free (rw fits (rw size (rw room (rw whole refl))))),
            rw free (new_row-Holds ws wild f (max, size, some_rows, rows) no_nul short below),
          )
    ]

pub matches_if_wildcard-any_match :
    (fnmatch : List ℕ → List ℕ → Bool) (ifname : List ℕ) (ws : List (List ℕ)) (f : Filters)
    → Holds ws f
    → matches_if_wildcard fnmatch ifname f ≡ some (any_match fnmatch ifname ws)
unfolding matches_if_wildcard
matches_if_wildcard-any_match fnmatch ifname ws f (max, size, some_rows, rows) =
    let all : min (length ws) 8 ≡ length ws = omega (arith, some_rows) in
    rw max (rw all (match_wildcards-any_match fnmatch ifname f.if_wildcard ws 0 rows))

-- The configuration of a DAG: its patterns, one after the other.
pub set_wildcards : List (List ℕ) → Filters → Option Filters
unfolding set_interface_wildcard
set_wildcards [] f = some f
set_wildcards (wild ∷ wilds) f = elim (set_interface_wildcard wild f) [
  | none ↦ none
  | some f' ↦ set_wildcards wilds f'
]

abbrev pub AllShort : List (List ℕ) → Type 0
AllShort [] = Unit {0}
AllShort (wild ∷ wilds) = IsShort wild × AllShort wilds

take_short : (k : ℕ) (xs : List (List ℕ)) → length xs ≤ k → take k xs ≡ xs
take_short zero [] e = refl
take_short zero (x ∷ xs) e = absurd (omega (arith, e))
take_short (suc k) [] e = refl
take_short (suc k) (x ∷ xs) e = ap (λ t. x ∷ t) (take_short k xs (omega (arith, e)))

take_full : (ws vs : List (List ℕ)) (k : ℕ) → length ws ≡ k → take k (ws ++ vs) ≡ ws
take_full ws vs k e = subst (λ n. take n (ws ++ vs) ≡ ws) e (take-append_length ws vs)

set_wildcards-Holds :
    (ws wilds : List (List ℕ)) (f : Filters)
    → Holds ws f
    → AllShort wilds
    → (f' : Filters) × (set_wildcards wilds f ≡ some f') × Holds (take 8 (ws ++ wilds)) f'
unfolding set_wildcards
set_wildcards-Holds ws [] f holds all = (
  f,
  refl,
  subst (λ xs. Holds xs f) (sym (ap (take 8) (append-nil ws) ∙ take_short 8 ws holds.2)) holds,
)
set_wildcards-Holds ws (wild ∷ wilds) f holds (short, all) =
    let (f1, done, holds1) = set_interface_wildcard-Holds ws wild f holds short in
    elim (Bool-cases (ltb (length ws) 8)) [
      | inl free ↦
          let holds2 : Holds (ws ++ (wild ∷ [])) f1 = rw free at holds1 in
          let (f', ends, holds') = set_wildcards-Holds (ws ++ (wild ∷ [])) wilds f1 holds2 all in
          (
            f',
            rw (done, set_wildcards) ends,
            subst (λ xs. Holds (take 8 xs) f') (append_assoc ws (wild ∷ []) wilds) holds',
          )
      | inr full ↦
          let holds2 : Holds ws f1 = rw full at holds1 in
          let (f', ends, holds') = set_wildcards-Holds ws wilds f1 holds2 all in
          let eight : length ws ≡ 8 = ground (arith, full, holds.2) in
          let same : take 8 (ws ++ wilds) ≡ take 8 (ws ++ (wild ∷ wilds)) =
            take_full ws wilds 8 eight ∙ sym (take_full ws (wild ∷ wilds) 8 eight) in
          (f', rw (done, set_wildcards) ends, subst (λ xs. Holds xs f') same holds')
    ]

-- From no patterns in the 256 bytes of the rows, whatever they hold, any patterns without a NUL and
-- of fewer than 31 characters are stored without a write behind the rows, and then a name matches
-- exactly where one of the first eight patterns matches it.
pub matches_if_wildcard-set_wildcards :
    (fnmatch : List ℕ → List ℕ → Bool) (ifname : List ℕ) (wilds : List (List ℕ)) (f : Filters)
    → f.if_wildcard_max ≡ 0
    → length f.if_wildcard ≡ 256
    → AllShort wilds
    → (f' : Filters) × (set_wildcards wilds f ≡ some f')
      × (matches_if_wildcard fnmatch ifname f' ≡ some (any_match fnmatch ifname (take 8 wilds)))
matches_if_wildcard-set_wildcards fnmatch ifname wilds f max size all =
    let (f', ends, holds) = set_wildcards-Holds [] wilds f (max, size, omega arith, tt) all in
    (f', ends, matches_if_wildcard-any_match fnmatch ifname (take 8 wilds) f' holds)
