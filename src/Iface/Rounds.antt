-- ===== src/Iface/Rounds.antt =====
-- The loop over the solicitations of a DIS ends by itself, whatever the message holds.
use native.Mathlib.Nat.{zero-add, suc-add}
use unstrung.Prelude.Int.{ℤ}
use unstrung.Prelude.{
  ℕ, zero, suc, ◌+◌, ◌<◌, ◌≡◌, refl, List, some, length, get_elem?, ap, ◌∙◌, inl, inr, Option-cases,
  arith,
}
use unstrung.Wire.{rpl_dis_solicitedinfo}
use unstrung.RplMsg.{RplMsg, rpl_msg, rplsolicitedinfo, bytes_size}
use unstrung.RplMsg.Steps.{rpl_msg-size, rplsolicitedinfo-IsStep, Next-cases}
use unstrung.Dag.{Env}
use unstrung.Iface.{Network, solicit, solicit_loop, solicit_fuel}

module _ (env : Env) where
  -- Once there is fuel for the bytes that are left, one more changes nothing.
  solicit_loop-suc :
      (fuel : ℕ) (m : RplMsg) (from : ℕ) (n : Network)
      → m.options rpl_dis_solicitedinfo ≡ some from
      → 0 < fuel
      → length m.bytes < fuel + from
      → solicit_loop env (suc fuel) m n ≡ solicit_loop env fuel m n
  unfolding solicit_loop
  solicit_loop-suc zero m from n e p h = absurd (omega arith)
  solicit_loop-suc (suc fuel) m from n e p h = elim (Next-cases (rplsolicitedinfo m)) [
    | inr (inl (m', r)) ↦ ground arith
    | inr (inr (inl (m', r))) ↦ ground arith
    | inr (inr (inr (inl r))) ↦ ground arith
    | inr (inr (inr (inr r))) ↦ ground arith
    | inl (offset, m', r) ↦
        let s = rplsolicitedinfo-IsStep m from offset m' e r in
        elim (Option-cases (get_elem? m'.bytes (offset + 2))) [
          | inl i ↦ ground arith
          | inr (num, q) ↦ elim (Option-cases (get_elem? m'.bytes (offset + 3))) [
            | inl i ↦ ground arith
            | inr (flags, c) ↦ elim (Option-cases (solicit env num flags n)) [
              | inl i ↦ ground arith
              | inr (n', a) ↦ ground (
                arith,
                solicit_loop-suc fuel m' s.upto n' s.resumes (omega (arith, s.inside, s.behind))
                    (omega (arith, s.moves, ap length s.same_bytes)),
              )
            ]
          ]
        ]
  ]

  solicit_loop_more :
      (k fuel : ℕ) (m : RplMsg) (from : ℕ) (n : Network)
      → m.options rpl_dis_solicitedinfo ≡ some from
      → 0 < fuel
      → length m.bytes < fuel + from
      → solicit_loop env (k + fuel) m n ≡ solicit_loop env fuel m n
  solicit_loop_more zero fuel m from n e p h = rw zero-add refl
  solicit_loop_more (suc k) fuel m from n e p h = rw suc-add (
      solicit_loop-suc (k + fuel) m from n e (omega (arith, p)) (omega (arith, h))
      ∙ solicit_loop_more k fuel m from n e p h)

  -- On a message that the constructor made, more fuel than `solicit_fuel` changes nothing in the
  -- loop over the solicitations, whatever was received.
  pub solicit_loop_ends :
      (k : ℕ) (memory old : List ℕ) (len : ℤ) (m : RplMsg) (n : Network)
      → length old ≡ bytes_size
      → rpl_msg memory len old ≡ some m
      → solicit_loop env (k + solicit_fuel) m n ≡ solicit_loop env solicit_fuel m n
  solicit_loop_ends k memory old len m n size e =
      let (reset, l) = rpl_msg-size memory old len m size e in
      solicit_loop_more k solicit_fuel m 0 n (ap (λ o. o rpl_dis_solicitedinfo) reset) (omega arith)
        (omega (arith, l))
