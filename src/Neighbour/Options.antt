-- ===== src/Neighbour/Options.antt =====
-- The loop over the options of a solicitation that asks to join: when it ends.
use unstrung.Prelude.{
  ℕ, zero, suc, ◌+◌, ◌*◌, ◌≡◌, ◌≢◌, ◌≤◌, ◌<◌, ap, ◌∙◌, inl, inr, refl, true, List, Option, some,
  get_elem?, ltb, Bool-cases, Option-cases, arith,
}
use unstrung.Neighbour.{Scan, note_option, join_options}

-- Noting an option once more changes nothing.
note_option_again :
    (dat : List ℕ) (pos type : ℕ) (before noted : Option (List ℕ))
    → note_option dat pos type before ≡ some noted
    → note_option dat pos type noted ≡ some noted
unfolding note_option
note_option_again dat pos type before noted h = ground arith

-- At an option of the length 0 the loop stays where it is.
pub join_options_endless :
    (fuel : ℕ) (dat : List ℕ) (nd_len pos type : ℕ) (before noted : Option (List ℕ))
    → pos + 2 < nd_len
    → get_elem? dat pos ≡ some type
    → get_elem? dat (pos + 1) ≡ some 0
    → note_option dat pos type before ≡ some noted
    → join_options fuel dat nd_len pos before ≡ Scan.stuck
unfolding join_options
join_options_endless zero dat nd_len pos type before noted room at zero_len note = refl
join_options_endless (suc fuel) dat nd_len pos type before noted room at zero_len note =
    let here : ltb (pos + 2) nd_len ≡ true = ground arith in
    let same : pos + 0 * 8 ≡ pos = omega arith in
    rw (here, join_options)
      (rw at (
        rw zero_len (
          rw note (
            rw same (
              join_options_endless fuel dat nd_len pos type noted noted room at zero_len
                (note_option_again dat pos type before noted note))))))

-- The places at which the loop looks for an option: the first, and behind each option the next.
pub data Reached (dat : List ℕ) (nd_len first : ℕ) : ℕ → Type 0 where
  start : Reached dat nd_len first first
  next :
      {pos len : ℕ}
      → Reached dat nd_len first pos
      → pos + 2 < nd_len
      → get_elem? dat (pos + 1) ≡ some len
      → Reached dat nd_len first (pos + len * 8)

-- Where no option that is reached has the length 0, more fuel than what is left to read is enough.
pub join_options_ends :
    (fuel : ℕ) (dat : List ℕ) (nd_len first pos : ℕ) (before : Option (List ℕ))
    → ((i : ℕ) → Reached dat nd_len first i → i + 2 < nd_len → get_elem? dat (i + 1) ≢ some 0)
    → Reached dat nd_len first pos
    → 0 < fuel
    → nd_len ≤ fuel + pos
    → join_options fuel dat nd_len pos before ≢ Scan.stuck
unfolding join_options
join_options_ends zero dat nd_len first pos before lens at some_fuel h = absurd (omega arith)
join_options_ends (suc fuel) dat nd_len first pos before lens at some_fuel h =
    elim (Bool-cases (ltb (pos + 2) nd_len)) [
      | inr e ↦ rw (e, join_options) (λ x. cc)
      | inl e ↦
          rw (e, join_options)
            (elim (Option-cases (get_elem? dat pos)) [
              | inl a ↦ rw a (λ x. cc)
              | inr (type, a) ↦ rw a (elim (Option-cases (get_elem? dat (pos + 1))) [
                | inl b ↦ rw b (λ x. cc)
                | inr (len, b) ↦ rw b (elim (Option-cases (note_option dat pos type before)) [
                  | inl c ↦ rw c (λ x. cc)
                  | inr (noted, c) ↦
                      let room : pos + 2 < nd_len = ground arith in
                      let longer : len ≢ 0 = λ z. lens pos at room (b ∙ ap some z) in
                      rw c (
                        join_options_ends fuel dat nd_len first (pos + len * 8) noted lens
                          (next at room b) (omega (arith, longer)) (omega (arith, longer)))
                ])
              ])
            ])
    ]
