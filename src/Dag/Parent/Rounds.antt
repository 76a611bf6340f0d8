-- ===== src/Dag/Parent/Rounds.antt =====
-- The loop over the prefixes of a DIO ends by itself, whatever the message holds.
use native.Mathlib.Nat.{zero-add, suc-add}
use unstrung.Prelude.Int.{ℤ}
use unstrung.Prelude.{
  ℕ, zero, suc, ◌+◌, ◌<◌, ◌≡◌, refl, List, some, length, get_elem?, ap, ◌∙◌, inl, inr, Option-cases,
  arith,
}
use unstrung.Wire.{Addr, rpl_dio_destprefix}
use unstrung.RplMsg.{RplMsg, rpl_msg, destprefix, copy_prefix, bytes_size}
use unstrung.RplMsg.Steps.{rpl_msg-size, destprefix-IsStep, Next-cases}
use unstrung.Dag.{DagNetwork, Env}
use unstrung.Dag.Install.{add_prefix}
use unstrung.Dag.Parent.{pio_loop, pio_fuel}

module _ (env : Env) (peer : Addr) (iface : ℕ) where
  -- Once there is fuel for the bytes that are left, one more changes nothing.
  pio_loop-suc :
      (fuel : ℕ) (m : RplMsg) (from : ℕ) (d : DagNetwork)
      → m.options rpl_dio_destprefix ≡ some from
      → 0 < fuel
      → length m.bytes < fuel + from
      → pio_loop env peer iface (suc fuel) m d ≡ pio_loop env peer iface fuel m d
  unfolding pio_loop
  pio_loop-suc zero m from d e p h = absurd (omega arith)
  pio_loop-suc (suc fuel) m from d e p h = elim (Next-cases (destprefix m)) [
    | inr (inl (m', r)) ↦ ground arith
    | inr (inr (inl (m', r))) ↦ ground arith
    | inr (inr (inr (inl r))) ↦ ground arith
    | inr (inr (inr (inr r))) ↦ ground arith
    | inl (offset, m', r) ↦
        let s = destprefix-IsStep m from offset m' e r in
        elim (Option-cases (get_elem? m'.bytes (offset + 2))) [
          | inl n ↦ ground arith
          | inr (prefixlen, q) ↦
              elim (Option-cases (copy_prefix m'.bytes (offset + 16) prefixlen)) [
                | inl n ↦ ground arith
                | inr (sub, c) ↦ elim (Option-cases (add_prefix env peer iface sub d)) [
                  | inl n ↦ ground arith
                  | inr (d', a) ↦ ground (
                    arith,
                    pio_loop-suc fuel m' s.upto d' s.resumes (omega (arith, s.inside, s.behind))
                        (omega (arith, s.moves, ap length s.same_bytes)),
                  )
                ]
              ]
        ]
  ]

  pio_loop_more :
      (k fuel : ℕ) (m : RplMsg) (from : ℕ) (d : DagNetwork)
      → m.options rpl_dio_destprefix ≡ some from
      → 0 < fuel
      → length m.bytes < fuel + from
      → pio_loop env peer iface (k + fuel) m d ≡ pio_loop env peer iface fuel m d
  pio_loop_more zero fuel m from d e p h = rw zero-add refl
  pio_loop_more (suc k) fuel m from d e p h = rw suc-add (
      pio_loop-suc (k + fuel) m from d e (omega (arith, p)) (omega (arith, h))
      ∙ pio_loop_more k fuel m from d e p h)

  -- On a message that the constructor made, more fuel than `pio_fuel` changes nothing in the loop
  -- over the prefixes, whatever was received.
  pub pio_loop_ends :
      (k : ℕ) (memory old : List ℕ) (len : ℤ) (m : RplMsg) (d : DagNetwork)
      → length old ≡ bytes_size
      → rpl_msg memory len old ≡ some m
      → pio_loop env peer iface (k + pio_fuel) m d ≡ pio_loop env peer iface pio_fuel m d
  pio_loop_ends k memory old len m d size e =
      let (reset, n) = rpl_msg-size memory old len m size e in
      pio_loop_more k pio_fuel m 0 d (ap (λ o. o rpl_dio_destprefix) reset) (omega arith)
        (omega (arith, n))
