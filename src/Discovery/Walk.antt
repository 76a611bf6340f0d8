-- ===== src/Discovery/Walk.antt =====
-- The loop over the options of an advertisement ends, and where it reads.
use unstrung.Prelude.{
  ℕ, zero, suc, ◌+◌, ◌*◌, ◌≡◌, ◌≢◌, ◌<◌, ◌⊎◌, refl, inl, inr, false, List, get_elem?-some, length,
  ltb, ◌==◌, Bool-cases, arith,
}
use unstrung.Wire.{Addr}
use unstrung.Neighbour.{Neighbours, World, Outcome, done}
use unstrung.NdMessage.{nd_neighbor_solicit, nd_neighbor_advert}
use unstrung.Discovery.{
  nd_router_solicit, nd_router_advert, Walked, complete, refused, refuses_option, walk_options,
  after_walk, receive_discovery,
}

-- An option that is not refused is longer than nothing.
refuses_zero : (len type k : ℕ) → refuses_option len type (k * 8) ≡ false → k ≢ 0
unfolding refuses_option
refuses_zero len type k h = ground arith

pub walk_options_ends :
    (fuel : ℕ) (bytes : List ℕ) (len pos : ℕ)
    → 0 < fuel
    → len < fuel + pos
    → len < length bytes
    → (walk_options fuel bytes len pos ≡ complete) ⊎ (walk_options fuel bytes len pos ≡ refused)
unfolding walk_options
walk_options_ends zero bytes len pos some_fuel enough room = absurd (omega arith)
walk_options_ends (suc fuel) bytes len pos some_fuel enough room = elim (Bool-cases (ltb pos len)) [
  | inr e ↦ inl (rw (e, walk_options) refl)
  | inl e ↦
      let inside : pos < len = ground arith in
      let (type, at) = get_elem?-some bytes pos (omega (arith, inside)) in
      elim (Bool-cases (type == 0)) [
        | inl z ↦ inl (rw (e, walk_options) (rw at (rw z refl)))
        | inr z ↦
            let (nd_opt_len, next) = get_elem?-some bytes (pos + 1) (omega (arith, inside)) in
            elim (Bool-cases (refuses_option len type (nd_opt_len * 8))) [
              | inl r ↦ inr (rw (e, walk_options) (rw at (rw z (rw next (rw r refl)))))
              | inr r ↦
                  let longer = refuses_zero len type nd_opt_len r in
                  rw (e, walk_options)
                    (rw at (
                      rw z (
                        rw next (
                          rw r (
                            walk_options_ends fuel bytes len (pos + nd_opt_len * 8)
                              (omega (arith, inside, enough)) (omega (arith, longer, enough))
                              room)))))
            ]
      ]
]

-- A message that is done with, or counted as an error.
abbrev pub IsEnded : Outcome → Neighbours → Type 0
IsEnded o n = (o ≡ done n) ⊎ (o ≡ done (record n { error_cnt = n.error_cnt + 1 }))

after_walk-IsEnded :
    (walked : Walked) (n : Neighbours)
    → (walked ≡ complete) ⊎ (walked ≡ refused)
    → IsEnded (after_walk walked n) n
unfolding after_walk
after_walk-IsEnded walked n (inl e) = inl (rw e refl)
after_walk-IsEnded walked n (inr e) = inr (rw e refl)

-- A message that is not a solicitation, in memory that has a byte more than it, is done with more
-- fuel than it has bytes, and changes nothing but the count of errors, by one at most, whatever its
-- type and its bytes are.
pub receive_discovery-IsEnded :
    (fuel : ℕ) (w : World) (from ip6_to : Addr) (type : ℕ) (bytes : List ℕ) (len : ℕ)
    (n : Neighbours)
    → type ≢ nd_neighbor_solicit
    → len < fuel
    → len < length bytes
    → IsEnded (receive_discovery fuel w from ip6_to type bytes len n) n
unfolding receive_discovery
receive_discovery-IsEnded fuel w from ip6_to type bytes len n other enough room =
    let walk = λ (pos : ℕ).
      after_walk-IsEnded (walk_options fuel bytes len pos) n (
        walk_options_ends fuel bytes len pos (omega (arith, enough)) (omega (arith, enough))
          room) in
    let not_ns : (type == nd_neighbor_solicit) ≡ false = ground arith in
    elim (Bool-cases (type == nd_router_solicit)) [
      | inl a ↦ rw (a, receive_discovery) (walk 8)
      | inr a ↦ elim (Bool-cases (type == nd_router_advert)) [
        | inl b ↦ rw (a, receive_discovery) (rw b (walk 16))
        | inr b ↦ elim (Bool-cases (type == nd_neighbor_advert)) [
          | inl c ↦ rw (a, receive_discovery) (rw b (rw not_ns (rw c (walk 24))))
          | inr c ↦ rw (a, receive_discovery) (rw b (rw not_ns (rw c (inl refl))))
        ]
      ]
    ]
