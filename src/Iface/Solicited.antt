-- ===== src/Iface/Solicited.antt =====
-- The solicitations of a DIS whose options are a chain.
use mathlib.Core.Path.{subst}
use unstrung.Prelude.{
  ℕ, zero, suc, ◌+◌, ◌≤◌, ◌<◌, ◌≡◌, refl, List, [], ◌∷◌, Option, none, some, length, get_elem?,
  get_elem?-some, ◌∙◌, inl, inr, Option-cases, arith,
}
use unstrung.Wire.{rpl_dis_solicitedinfo}
use unstrung.RplMsg.{Offsets, RplMsg, Next, rplsolicitedinfo, bytes_size}
use unstrung.RplMsg.Chain.{SubOption, encode, IsChain, LiesAt, AllLong}
use unstrung.RplMsg.Contents.{contents, ended, handed, search_subopt-Walk}
use unstrung.RplMsg.Reads.{content_byte, solicited_absent, solicited_found}
use unstrung.Dag.{Env}
use unstrung.Iface.{Network, solicit, solicit_loop}

-- Each solicitation is answered by its instance and its flags.
pub take_solicits : Env → List (List ℕ) → Network → Option Network
take_solicits env [] n = some n
take_solicits env (content ∷ rest) n = elim (get_elem? content 0) [
  | none ↦ some n
  | some num ↦ elim (get_elem? content 1) [
    | none ↦ some n
    | some flags ↦ elim (solicit env num flags n) [
      | none ↦ none
      | some n' ↦ take_solicits env rest n'
    ]
  ]
]

module _ (env : Env) (fuel : ℕ) (m : RplMsg) (n : Network) where
  solicit_round :
      (offset num flags : ℕ) (content : List ℕ) (rest : List (List ℕ)) (after : Offsets)
      → rplsolicitedinfo m ≡ Next.option offset (record m { options = after })
      → get_elem? content 0 ≡ some num
      → get_elem? content 1 ≡ some flags
      → get_elem? m.bytes (offset + 2) ≡ some num
      → get_elem? m.bytes (offset + 3) ≡ some flags
      → ((n' : Network)
          → solicit_loop env fuel (record m { options = after }) n' ≡ take_solicits env rest n')
      → solicit_loop env (suc fuel) m n ≡ take_solicits env (content ∷ rest) n
  unfolding solicit_loop take_solicits
  solicit_round offset num flags content rest after r p q p' q' next =
      elim (Option-cases (solicit env num flags n)) [
        | inl e ↦ ground arith
        | inr (n', e) ↦ ground (arith, next n')
      ]

module _ (env : Env) where
  -- On a chain of at most 2048 bytes whose solicitations have two bytes at least, and with more
  -- fuel than bytes, the loop answers exactly the solicitations of the chain, one after the other,
  -- each by its instance and flags.
  pub solicit_loop-take_solicits :
      (fuel : ℕ) (os : List SubOption) (m : RplMsg) (from : ℕ) (n : Network)
      → m.options rpl_dis_solicitedinfo ≡ some from
      → IsChain os
      → LiesAt m.bytes from m.len os
      → AllLong (contents rpl_dis_solicitedinfo os)
      → length (encode os) ≤ bytes_size
      → length (encode os) < fuel
      → solicit_loop env fuel m n ≡ take_solicits env (contents rpl_dis_solicitedinfo os) n
  unfolding solicit_loop take_solicits
  solicit_loop-take_solicits zero os m from n e c at long size h = absurd (omega arith)
  solicit_loop-take_solicits (suc fuel) os m from n e c at long size h =
      elim (search_subopt-Walk os m rpl_dis_solicitedinfo from e c (λ q. absurd (omega arith)) at
        size) [
          | ended after none_left s ↦
              rw none_left (rw (solicited_absent m after s, solicit_loop) refl)
          | handed offset content more rest after split s resumes behind chain at' less ↦
              let long' = subst AllLong split long in
              let (num, p) = get_elem?-some content 0 (omega (arith, long'.0)) in
              let (flags, q) = get_elem?-some content 1 (omega (arith, long'.0)) in
              let byte = content_byte m.bytes (offset + 2) content more behind in
              rw split (
                solicit_round env fuel m n offset num flags content
                  (contents rpl_dis_solicitedinfo rest) after
                  (solicited_found m offset (length content + 2) after s) p q
                  (byte 0 (offset + 2) (omega arith) (omega (arith, long'.0)) ∙ p)
                  (byte 1 (offset + 3) (omega arith) (omega (arith, long'.0)) ∙ q)
                  (λ n'.
                    solicit_loop-take_solicits fuel rest (record m { options = after })
                      (offset + (length content + 2)) n' resumes chain at' long'.1 (omega arith)
                      (omega arith)))
        ]
