-- ===== src/Dag/Parent/Prefixes.antt =====
-- The prefixes of a DIO whose options are a chain.
use native.Mathlib.Decide.{dec_lt}
use unstrung.Prelude.{
  ℕ, zero, suc, ◌+◌, ◌/◌, ◌≤◌, ◌<◌, ◌≡◌, refl, true, false, List, [], ◌∷◌, ◌++◌, Option, none, some,
  length, get_elem?, get_elem?-some, drop, ltb, if◌then◌else◌, ap, ◌∙◌, inl, inr, Bool-cases,
  Option-cases, arith,
}
use unstrung.Wire.{Addr, rpl_dio_destprefix}
use unstrung.Stats.{ps_suboption_underrun}
use unstrung.RplMsg.{Offsets, RplMsg, Next, destprefix, bytes_size, copy_prefix}
use unstrung.RplMsg.Chain.{SubOption, encode, IsChain, LiesAt}
use unstrung.RplMsg.Contents.{contents, ended, handed, search_subopt-Walk}
use unstrung.RplMsg.Reads.{
  padded_prefix, content_byte, copy_prefix_at, destprefix_absent, destprefix_found, rpl_msg-LiesAt,
}
use unstrung.Dag.{DagNetwork, Env, ◌>>=◌}
use unstrung.Dag.Install.{add_prefix}
use unstrung.Prelude.Int.{pos}
use unstrung.Dag.Parent.{pio_loop, pio_fuel, after_adoption, count}
use unstrung.Dag.Schedule.{is_set, maybe_schedule_dio, maybe_send_dao}

-- One prefix: an option of less than 30 bytes of content ends the DIO and is counted, a prefix of
-- more than 128 bits is a fault, any other is added.
unfoldable pub take_prefixes : Env → Addr → ℕ → List (List ℕ) → DagNetwork → Option DagNetwork
take_prefixes env peer iface [] d = some d
take_prefixes env peer iface (content ∷ rest) d = elim (ltb (length content) 30) [
  | true ↦ some (count ps_suboption_underrun d)
  | false ↦ elim (get_elem? content 0) [
    | none ↦ some d
    | some prefixlen ↦ elim (ltb 16 ((prefixlen + 7) / 8)) [
      | true ↦ none
      | false ↦ elim (add_prefix env peer iface (padded_prefix (drop 14 content) prefixlen) d) [
        | none ↦ none
        | some d' ↦ take_prefixes env peer iface rest d'
      ]
    ]
  ]
]

module _ (env : Env) (peer : Addr) (iface fuel : ℕ) (m : RplMsg) (d : DagNetwork) where
  prefix_short :
      (offset : ℕ) (content : List ℕ) (rest : List (List ℕ)) (after : Offsets)
      → destprefix m ≡ (
          if ltb (length content + 2) 32
          then Next.underrun (record m { options = after })
          else Next.option offset (record m { options = after }))
      → length content < 30
      → pio_loop env peer iface (suc fuel) m d ≡ take_prefixes env peer iface (content ∷ rest) d
  unfolding pio_loop take_prefixes
  prefix_short offset content rest after r short = ground arith

  -- One round of the loop on an option that is long enough.
  prefix_round :
      (offset prefixlen : ℕ) (content : List ℕ) (rest : List (List ℕ)) (after : Offsets)
      → destprefix m ≡ (
          if ltb (length content + 2) 32
          then Next.underrun (record m { options = after })
          else Next.option offset (record m { options = after }))
      → 30 ≤ length content
      → get_elem? content 0 ≡ some prefixlen
      → get_elem? m.bytes (offset + 2) ≡ some prefixlen
      → copy_prefix m.bytes (offset + 16) prefixlen ≡ (
          if ltb 16 ((prefixlen + 7) / 8)
          then none
          else some (padded_prefix (drop 14 content) prefixlen))
      → ((d' : DagNetwork)
          → pio_loop env peer iface fuel (record m { options = after }) d'
            ≡ take_prefixes env peer iface rest d')
      → pio_loop env peer iface (suc fuel) m d ≡ take_prefixes env peer iface (content ∷ rest) d
  unfolding pio_loop take_prefixes
  prefix_round offset prefixlen content rest after r long p q copy next =
      elim (Bool-cases (ltb 16 ((prefixlen + 7) / 8))) [
        | inl big ↦ ground arith
        | inr fits ↦
            elim (Option-cases
              (add_prefix env peer iface (padded_prefix (drop 14 content) prefixlen) d)) [
                | inl e ↦ ground arith
                | inr (d', e) ↦ ground (arith, next d')
              ]
      ]

module _ (env : Env) (peer : Addr) (iface : ℕ) where
  -- The loop adds exactly the prefixes of the chain, in order, within the fuel.
  pub pio_loop-take_prefixes :
      (fuel : ℕ) (os : List SubOption) (m : RplMsg) (from : ℕ) (d : DagNetwork)
      → m.options rpl_dio_destprefix ≡ some from
      → IsChain os
      → LiesAt m.bytes from m.len os
      → length (encode os) ≤ bytes_size
      → length (encode os) < fuel
      → pio_loop env peer iface fuel m d
        ≡ take_prefixes env peer iface (contents rpl_dio_destprefix os) d
  unfolding pio_loop take_prefixes
  pio_loop-take_prefixes zero os m from d e c at size h = absurd (omega arith)
  pio_loop-take_prefixes (suc fuel) os m from d e c at size h =
      elim (search_subopt-Walk os m rpl_dio_destprefix from e c (λ q. absurd (omega arith)) at
        size) [
          | ended after none_left s ↦ rw none_left (rw (destprefix_absent m after s, pio_loop) refl)
          | handed offset content more rest after split s resumes behind chain at' less ↦
              let found_it = destprefix_found m offset (length content + 2) after s in
              elim (dec_lt (length content) 30) [
                | yes short ↦ rw split (
                    prefix_short env peer iface fuel m d offset content
                      (contents rpl_dio_destprefix rest) after found_it short)
                | no long ↦
                    let (prefixlen, p) = get_elem?-some content 0 (omega arith) in
                    rw split (
                      prefix_round env peer iface fuel m d offset prefixlen content
                        (contents rpl_dio_destprefix rest) after found_it (omega arith) p
                        (content_byte m.bytes (offset + 2) content more behind 0 (offset + 2)
                            (omega arith) (omega arith)
                          ∙ p)
                        (copy_prefix_at m.bytes (offset + 2) content more behind 14 (offset + 16)
                          prefixlen (omega arith) (omega arith) (omega arith))
                        (λ d'.
                          pio_loop-take_prefixes fuel rest (record m { options = after })
                            (offset + (length content + 2)) d' resumes chain at' (omega arith)
                            (omega arith)))
              ]
        ]

-- On a chain of at most 2048 bytes, what follows the choice of a parent adds the prefixes of the
-- DIO one after the other up to one whose option is too short, which is counted, a prefix of more
-- than 128 bits being a fault; then it reschedules the DIO where there is a parent and sends a DAO
-- if one is needed.
pub after_adoption_lem :
    (env : Env) (peer : Addr) (iface : ℕ) (os : List SubOption) (junk old : List ℕ) (d : DagNetwork)
    → IsChain os
    → length (encode os) ≤ bytes_size
    → after_adoption env peer iface (encode os ++ junk) (pos (length (encode os))) old d ≡ (do
      d1 ← take_prefixes env peer iface (contents rpl_dio_destprefix os) d
      d2 ← if is_set d1.parent then maybe_schedule_dio env d1 else some d1
      maybe_send_dao env d2)
unfolding after_adoption
after_adoption_lem env peer iface os junk old d c size =
    let (m, e, reset, at) = rpl_msg-LiesAt os junk old size in
    rw (e, after_adoption)
      (rw
        (pio_loop-take_prefixes env peer iface pio_fuel os m 0 d
          (ap (λ o. o rpl_dio_destprefix) reset) c at size (omega (arith, size)))
        refl)
