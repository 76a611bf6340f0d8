-- ===== src/Dag/Receive/Rounds.antt =====
-- The loop over the targets of a DAO ends by itself, whatever the message holds.
use unstrung.Prelude.Int.{ℤ}
use unstrung.Prelude.{
  ℕ, zero, suc, ◌+◌, ◌<◌, ◌≡◌, ◌≢◌, List, Option, none, some, length, get_elem?, ap, ◌∙◌, inl, inr,
  Option-cases, arith,
}
use unstrung.Wire.{Addr, Subnet, rpl_dao_rpltarget}
use unstrung.RplMsg.{RplMsg, Next, rpl_msg, rpltarget, copy_prefix, search_subopt, bytes_size}
use unstrung.RplMsg.Progress.{search_subopt-ne-stuck}
use unstrung.RplMsg.Steps.{rpl_msg-size, rpltarget-IsStep, Next-cases, Search-cases}
use unstrung.Dag.{DagNetwork, Env}
use unstrung.Dag.Install.{add_childnode}
use unstrung.Dag.Receive.{target_loop, target_fuel}

-- The loop as a relation, without fuel: the result on a message and a DAG after finitely many
-- rounds. `none` is a fault in the search, in a read of the message or in adding the child.
pub data Runs (env : Env) (peer : Addr) (iface : ℕ)
    : RplMsg → DagNetwork → Option DagNetwork → Type 0 where
  no_target :
      {m m' : RplMsg} {d : DagNetwork}
      → rpltarget m ≡ Next.null m'
      → Runs env peer iface m d (some d)
  underruns :
      {m m' : RplMsg} {d : DagNetwork}
      → rpltarget m ≡ Next.underrun m'
      → Runs env peer iface m d (some d)
  search_faults :
      {m : RplMsg} {d : DagNetwork} → rpltarget m ≡ Next.fault → Runs env peer iface m d none
  length_faults :
      {m m' : RplMsg} {d : DagNetwork} {offset : ℕ}
      → rpltarget m ≡ Next.option offset m'
      → get_elem? m'.bytes (offset + 3) ≡ none
      → Runs env peer iface m d none
  prefix_faults :
      {m m' : RplMsg} {d : DagNetwork} {offset prefixlen : ℕ}
      → rpltarget m ≡ Next.option offset m'
      → get_elem? m'.bytes (offset + 3) ≡ some prefixlen
      → copy_prefix m'.bytes (offset + 4) prefixlen ≡ none
      → Runs env peer iface m d none
  child_faults :
      {m m' : RplMsg} {d : DagNetwork} {offset prefixlen : ℕ} {sub : Subnet}
      → rpltarget m ≡ Next.option offset m'
      → get_elem? m'.bytes (offset + 3) ≡ some prefixlen
      → copy_prefix m'.bytes (offset + 4) prefixlen ≡ some sub
      → add_childnode env peer iface sub d ≡ none
      → Runs env peer iface m d none
  adds :
      {m m' : RplMsg} {d d' : DagNetwork} {offset prefixlen : ℕ} {sub : Subnet}
      {result : Option DagNetwork}
      → rpltarget m ≡ Next.option offset m'
      → get_elem? m'.bytes (offset + 3) ≡ some prefixlen
      → copy_prefix m'.bytes (offset + 4) prefixlen ≡ some sub
      → add_childnode env peer iface sub d ≡ some d'
      → Runs env peer iface m' d' result
      → Runs env peer iface m d result

rpltarget-ne-stuck : (m : RplMsg) → length m.bytes ≡ bytes_size → rpltarget m ≢ Next.stuck
unfolding rpltarget
rpltarget-ne-stuck m size = elim (Search-cases (search_subopt m rpl_dao_rpltarget)) [
  | inl (o, skip, options, s) ↦ λ x. ground arith
  | inr (inl (options, s)) ↦ λ x. ground arith
  | inr (inr (inl s)) ↦ λ x. ground arith
  | inr (inr (inr s)) ↦ λ x. search_subopt-ne-stuck m rpl_dao_rpltarget size s
]

module _ (env : Env) (peer : Addr) (iface : ℕ) where
  -- Fuel for the bytes that are left is enough.
  target_loop-Runs :
      (fuel : ℕ) (m : RplMsg) (from : ℕ) (d : DagNetwork)
      → m.options rpl_dao_rpltarget ≡ some from
      → length m.bytes ≡ bytes_size
      → 0 < fuel
      → length m.bytes < fuel + from
      → Runs env peer iface m d (target_loop env peer iface fuel m d)
  unfolding target_loop
  target_loop-Runs zero m from d e size p h = absurd (omega arith)
  target_loop-Runs (suc fuel) m from d e size p h = elim (Next-cases (rpltarget m)) [
    | inr (inl (m', r)) ↦ rw (r, target_loop) (no_target r)
    | inr (inr (inl (m', r))) ↦ rw (r, target_loop) (underruns r)
    | inr (inr (inr (inl r))) ↦ rw (r, target_loop) (search_faults r)
    | inr (inr (inr (inr r))) ↦ absurd (rpltarget-ne-stuck m size r)
    | inl (offset, m', r) ↦
        let s = rpltarget-IsStep m from offset m' e r in
        rw (r, target_loop)
          (elim (Option-cases (get_elem? m'.bytes (offset + 3))) [
            | inl n ↦ rw n (length_faults r n)
            | inr (prefixlen, q) ↦
                rw q (elim (Option-cases (copy_prefix m'.bytes (offset + 4) prefixlen)) [
                  | inl n ↦ rw n (prefix_faults r q n)
                  | inr (sub, c) ↦ rw c (elim (Option-cases (add_childnode env peer iface sub d)) [
                    | inl n ↦ rw n (child_faults r q c n)
                    | inr (d', a) ↦ rw a (
                        adds r q c a (
                          target_loop-Runs fuel m' s.upto d' s.resumes
                            (ap length s.same_bytes ∙ size) (omega (arith, s.inside, s.behind))
                            (omega (arith, s.moves, ap length s.same_bytes))))
                  ])
                ])
          ])
  ]

  -- On a message that the constructor made from whatever was received, over an array of 2048 bytes,
  -- the loop over the targets with `target_fuel` or any more fuel gives what the loop without fuel
  -- comes to after finitely many rounds: the DAG where no target is left, or a fault in the search,
  -- in a read of the message or in adding the child.
  pub target_loop_ends :
      (k : ℕ) (memory old : List ℕ) (len : ℤ) (m : RplMsg) (d : DagNetwork)
      → length old ≡ bytes_size
      → rpl_msg memory len old ≡ some m
      → Runs env peer iface m d (target_loop env peer iface (k + target_fuel) m d)
  target_loop_ends k memory old len m d size e =
      let (reset, n) = rpl_msg-size memory old len m size e in
      target_loop-Runs (k + target_fuel) m 0 d (ap (λ o. o rpl_dao_rpltarget) reset) n (omega arith)
        (omega (arith, n))
