-- ===== src/Dag/Receive/Targets.antt =====
-- The targets of a DAO whose options are a chain.
use mathlib.Core.Path.{subst}
use unstrung.Prelude.{
  min, ℕ, zero, suc, ◌+◌, ◌/◌, ◌≤◌, ◌<◌, ◌≡◌, refl, true, false, List, [], ◌∷◌, Option, none, some,
  length, get_elem?, get_elem?-some, drop, ltb, if◌then◌else◌, ◌∙◌, inl, inr, Bool-cases,
  Option-cases, arith,
}
use unstrung.Wire.{Addr, rpl_dao_rpltarget}
use unstrung.RplMsg.{Offsets, RplMsg, Next, rpltarget, bytes_size, copy_prefix}
use unstrung.RplMsg.Chain.{SubOption, encode, IsChain, LiesAt, AllLong}
use unstrung.RplMsg.Contents.{contents, ended, handed, search_subopt-Walk}
use unstrung.RplMsg.Reads.{
  padded_prefix, content_byte, copy_prefix_at, rpltarget_absent, rpltarget_found,
}
use unstrung.Dag.{DagNetwork, Env}
use unstrung.Dag.Install.{add_childnode}
use unstrung.Dag.Receive.{target_loop}

-- One target: an option that is shorter than its prefix ends the DAO, a prefix of more than 128
-- bits is a fault, any other is added as a child.
unfoldable pub take_targets : Env → Addr → ℕ → List (List ℕ) → DagNetwork → Option DagNetwork
take_targets env peer iface [] d = some d
take_targets env peer iface (content ∷ rest) d = elim (get_elem? content 1) [
  | none ↦ some d
  | some prefixlen ↦ elim (ltb (length content) ((prefixlen + 7) / 8 + 2)) [
    | true ↦ some d
    | false ↦ elim (ltb 16 ((prefixlen + 7) / 8)) [
      | true ↦ none
      | false ↦ elim (add_childnode env peer iface (padded_prefix (drop 2 content) prefixlen) d) [
        | none ↦ none
        | some d' ↦ take_targets env peer iface rest d'
      ]
    ]
  ]
]

module _ (env : Env) (peer : Addr) (iface fuel : ℕ) (m : RplMsg) (d : DagNetwork) where
  -- One round of the loop on an option that was handed out.
  target_round :
      (offset prefixlen : ℕ) (content : List ℕ) (rest : List (List ℕ)) (after : Offsets)
      → rpltarget m ≡ (
          if ltb (length content + 2) ((prefixlen + 7) / 8 + 4)
          then Next.null (record m { options = after })
          else Next.option offset (record m { options = after }))
      → get_elem? content 1 ≡ some prefixlen
      → get_elem? m.bytes (offset + 3) ≡ some prefixlen
      → (2 + min ((prefixlen + 7) / 8) 16 ≤ length content
          → copy_prefix m.bytes (offset + 4) prefixlen ≡ (
              if ltb 16 ((prefixlen + 7) / 8)
              then none
              else some (padded_prefix (drop 2 content) prefixlen)))
      → ((d' : DagNetwork)
          → target_loop env peer iface fuel (record m { options = after }) d'
            ≡ take_targets env peer iface rest d')
      → target_loop env peer iface (suc fuel) m d ≡ take_targets env peer iface (content ∷ rest) d
  unfolding target_loop take_targets
  target_round offset prefixlen content rest after r p q copy next =
      elim (Bool-cases (ltb (length content) ((prefixlen + 7) / 8 + 2))) [
        | inl short ↦ ground arith
        | inr whole ↦ elim (Bool-cases (ltb 16 ((prefixlen + 7) / 8))) [
          | inl big ↦ ground arith
          | inr fits ↦
              elim (Option-cases
                (add_childnode env peer iface (padded_prefix (drop 2 content) prefixlen) d)) [
                  | inl e ↦ ground arith
                  | inr (d', e) ↦ ground (arith, next d')
                ]
        ]
      ]

module _ (env : Env) (peer : Addr) (iface : ℕ) where
  -- The loop adds exactly the targets of the chain, in order, within the fuel.
  pub target_loop-take_targets :
      (fuel : ℕ) (os : List SubOption) (m : RplMsg) (from : ℕ) (d : DagNetwork)
      → m.options rpl_dao_rpltarget ≡ some from
      → IsChain os
      → LiesAt m.bytes from m.len os
      → AllLong (contents rpl_dao_rpltarget os)
      → length (encode os) ≤ bytes_size
      → length (encode os) < fuel
      → target_loop env peer iface fuel m d
        ≡ take_targets env peer iface (contents rpl_dao_rpltarget os) d
  unfolding target_loop take_targets
  target_loop-take_targets zero os m from d e c at long size h = absurd (omega arith)
  target_loop-take_targets (suc fuel) os m from d e c at long size h =
      elim (search_subopt-Walk os m rpl_dao_rpltarget from e c (λ q. absurd (omega arith)) at
        size) [
          | ended after none_left s ↦
              rw none_left (rw (rpltarget_absent m after s, target_loop) refl)
          | handed offset content more rest after split s resumes behind chain at' less ↦
              let long' = subst AllLong split long in
              let (prefixlen, p) = get_elem?-some content 1 (omega (arith, long'.0)) in
              let read =
                content_byte m.bytes (offset + 2) content more behind 1 (offset + 3) (omega arith)
                  (omega (arith, long'.0))
                ∙ p in
              rw split (
                target_round env peer iface fuel m d offset prefixlen content
                  (contents rpl_dao_rpltarget rest) after
                  (rpltarget_found m offset (length content + 2) prefixlen after s read) p read
                  (copy_prefix_at m.bytes (offset + 2) content more behind 2 (offset + 4) prefixlen
                    (omega arith) (omega arith))
                  (λ d'.
                    target_loop-take_targets fuel rest (record m { options = after })
                      (offset + (length content + 2)) d' resumes chain at' long'.1 (omega arith)
                      (omega arith)))
        ]
