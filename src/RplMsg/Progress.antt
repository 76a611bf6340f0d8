-- ===== src/RplMsg/Progress.antt =====
-- The walk ends, and every option it hands out lies behind the last one.
use unstrung.Prelude.{
  ℕ, zero, suc, ◌+◌, ◌≤◌, ◌<◌, ◌≡◌, ◌≢◌, inl, inr, true, List, [], ◌∷◌, some, length, get_elem?,
  Bool-cases, Option-cases, ◌==◌, sym, ◌∙◌, arith,
}
use unstrung.RplMsg.{
  RplMsg, Offsets, Search, found, absent, fault, stuck, goes_on, skip_len, first_seen, store, scan,
  search_subopt, search_fuel, bytes_size,
}

-- A read that succeeds lies in the list.
pub get_elem?-lt {ℓ} :
    {A : Type ℓ} (xs : List A) (i : ℕ) {a : A} → get_elem? xs i ≡ some a → i < length xs
get_elem?-lt [] i h = cc
get_elem?-lt (x ∷ xs) zero h = omega arith
get_elem?-lt (x ∷ xs) (suc i) h = omega (arith, get_elem?-lt xs i h)

skip_len_pos : (type len : ℕ) {skip : ℕ} → skip_len type len ≡ some skip → 0 < skip
skip_len_pos type len h = ground arith

-- What one round of the loop comes to.
data Round (fuel : ℕ) (bytes : List ℕ) (len optnum : ℕ) (options : Offsets) (offset : ℕ)
    (result : Search) : Type 0 where
  ends : result ≡ absent options → Round fuel bytes len optnum options offset result
  faults : result ≡ fault → Round fuel bytes len optnum options offset result
  hits :
      (skip : ℕ)
      → 0 < skip
      → offset + 1 < length bytes
      → goes_on len offset ≡ true
      → result ≡ found offset skip (store (first_seen options optnum offset) optnum (offset + skip))
      → Round fuel bytes len optnum options offset result
  passes :
      (type skip : ℕ)
      → 0 < skip
      → offset + 1 < length bytes
      → result ≡ scan fuel bytes len optnum (first_seen options type offset) (offset + skip)
      → Round fuel bytes len optnum options offset result

module _ (fuel : ℕ) (bytes : List ℕ) (len optnum : ℕ) (options : Offsets) (offset : ℕ) where
  option-Round :
      (type opt_len : ℕ)
      → goes_on len offset ≡ true
      → get_elem? bytes offset ≡ some type
      → get_elem? bytes (offset + 1) ≡ some opt_len
      → Round fuel bytes len optnum options offset (scan (suc fuel) bytes len optnum options offset)
  unfolding scan
  option-Round type opt_len more t l = elim (Option-cases (skip_len type opt_len)) [
    | inl e ↦ ends (ground arith)
    | inr (skip, e) ↦ elim (Bool-cases (type == optnum)) [
      | inl same ↦
          hits skip (skip_len_pos type opt_len e) (get_elem?-lt bytes (offset + 1) l) more
            (ground arith)
      | inr other ↦
          passes type skip (skip_len_pos type opt_len e) (get_elem?-lt bytes (offset + 1) l)
            (ground arith)
    ]
  ]

  scan-Round :
      Round fuel bytes len optnum options offset (scan (suc fuel) bytes len optnum options offset)
  unfolding scan
  scan-Round = elim (Bool-cases (goes_on len offset)) [
    | inr done ↦ ends (ground arith)
    | inl more ↦ elim (Option-cases (get_elem? bytes offset)) [
      | inl e ↦ faults (ground arith)
      | inr (type, t) ↦ elim (Option-cases (get_elem? bytes (offset + 1))) [
        | inl e ↦ faults (ground arith)
        | inr (opt_len, l) ↦ option-Round type opt_len more t l
      ]
    ]
  ]

-- Enough fuel: the loop never runs out.
scan-ne-stuck :
    (fuel : ℕ) (bytes : List ℕ) (len optnum : ℕ) (options : Offsets) (offset : ℕ)
    → 0 < fuel
    → length bytes < fuel + offset
    → scan fuel bytes len optnum options offset ≢ stuck
scan-ne-stuck zero bytes len optnum options offset p h = absurd (omega arith)
scan-ne-stuck (suc fuel) bytes len optnum options offset p h =
    elim (scan-Round fuel bytes len optnum options offset) [
      | ends e ↦ rw e (λ q. cc)
      | faults e ↦ rw e (λ q. cc)
      | hits skip pos room more e ↦ rw e (λ q. cc)
      | passes type skip pos room e ↦
          rw e (scan-ne-stuck fuel bytes len optnum _ (offset + skip) (omega arith) (omega arith))
    ]

-- A search in a message whose array has 2048 bytes never runs out of fuel, whatever the bytes, the
-- length and the offsets are.
pub search_subopt-ne-stuck :
    (m : RplMsg) (optnum : ℕ) → length m.bytes ≡ bytes_size → search_subopt m optnum ≢ stuck
unfolding search_subopt
search_subopt-ne-stuck m optnum size = elim (Option-cases (m.options optnum)) [
  | inl e ↦ rw (e, search_subopt) (λ q. cc)
  | inr (offset, e) ↦
      rw (e, search_subopt)
        (scan-ne-stuck search_fuel m.bytes m.len optnum m.options offset (omega arith)
          (omega arith))
]

-- What a hit says: where it lies, and that the next search for the type starts behind it.
pub record IsHit (bytes : List ℕ) (optnum from offset skip : ℕ) (options : Offsets) : Type 0 where
  pub behind : from ≤ offset
  pub moves : 0 < skip
  pub inside : offset + 1 < length bytes
  pub resumes : options optnum ≡ some (offset + skip)

scan-IsHit :
    (fuel : ℕ) (bytes : List ℕ) (len optnum : ℕ) (options : Offsets) (from : ℕ) {offset skip : ℕ}
    {after : Offsets}
    → scan fuel bytes len optnum options from ≡ found offset skip after
    → IsHit bytes optnum from offset skip after
scan-IsHit zero bytes len optnum options from h = unfold scan in cc
scan-IsHit (suc fuel) bytes len optnum options from h =
    elim (scan-Round fuel bytes len optnum options from) [
      | ends e ↦ cc
      | faults e ↦ cc
      | hits skip pos room more e ↦ ground arith
      | passes type skip pos room e ↦
          let r = scan-IsHit fuel bytes len optnum _ (from + skip) (sym e ∙ h) in
          record {
            behind = omega (arith, r.behind);
            moves = r.moves;
            inside = r.inside;
            resumes = r.resumes;
          }
    ]

-- Where a search from a stored offset finds an option, the option lies at or behind that offset
-- with both of its first bytes inside the array, and the next search for the type goes on behind
-- it.
pub search_subopt-IsHit :
    (m : RplMsg) (optnum from : ℕ) {offset skip : ℕ} {after : Offsets}
    → m.options optnum ≡ some from
    → search_subopt m optnum ≡ found offset skip after
    → IsHit m.bytes optnum from offset skip after
unfolding search_subopt
search_subopt-IsHit m optnum from e h =
    scan-IsHit search_fuel m.bytes m.len optnum m.options from (rw (e, search_subopt) at h)
