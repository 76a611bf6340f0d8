-- ===== src/RplMsg/Steps.antt =====
-- Each option that a reader hands out moves the message on, so the loops over them end.
use unstrung.Prelude.Int.{ℤ, pos, negsuc}
use unstrung.Prelude.{
  take, drop, length-take, length-drop, length-append, ℕ, ◌+◌, ◌≤◌, ◌<◌, ◌≡◌, ◌⊎◌, refl, List, some,
  length, get_elem?, inl, inr, Option-cases, arith,
}
use unstrung.Wire.{rpl_dao_rpltarget, rpl_dio_destprefix, rpl_dis_solicitedinfo}
use unstrung.RplMsg.{
  rpl_msg, clamp_len, reset_options, bytes_size, RplMsg, Offsets, Search, Next, found, absent,
  fault, stuck, search_subopt, rpltarget, destprefix, rplsolicitedinfo,
}
use unstrung.RplMsg.Progress.{search_subopt-IsHit}

-- The step that a call of `rpltarget`, `destprefix` or `rplsolicitedinfo` makes.
pub record IsStep (optnum from : ℕ) (m : RplMsg) (offset : ℕ) (after : RplMsg) : Type 0 where
  pub same_bytes : after.bytes ≡ m.bytes
  pub upto : ℕ
  pub resumes : after.options optnum ≡ some upto
  pub moves : from < upto
  pub behind : from ≤ offset
  pub inside : offset + 1 < length m.bytes

clamp_len-le : (len : ℤ) → clamp_len len ≤ bytes_size
unfolding clamp_len
clamp_len-le (pos n) = ground arith
clamp_len-le (negsuc n) = omega arith

module _ (m : RplMsg) (optnum from : ℕ) (e : m.options optnum ≡ some from) where
  hit-IsStep :
      (offset skip : ℕ) (options : Offsets)
      → search_subopt m optnum ≡ found offset skip options
      → IsStep optnum from m offset (record m { options = options })
  hit-IsStep offset skip options h =
      let hit = search_subopt-IsHit m optnum from e h in
      record {
        same_bytes = refl;
        upto = offset + skip;
        resumes = hit.resumes;
        moves = omega (arith, hit.behind, hit.moves);
        behind = hit.behind;
        inside = hit.inside;
      }

-- The four outcomes of a search.
pub Search-cases :
    (s : Search)
    → ((offset : ℕ) × (skip : ℕ) × (o : Offsets) × (s ≡ found offset skip o))
      ⊎ (((o : Offsets) × (s ≡ absent o)) ⊎ ((s ≡ fault) ⊎ (s ≡ stuck)))
Search-cases (found offset skip o) = inl (offset, skip, o, refl)
Search-cases (absent o) = inr (inl (o, refl))
Search-cases fault = inr (inr (inl refl))
Search-cases stuck = inr (inr (inr refl))

module _ (m : RplMsg) (from : ℕ) where
  pub rplsolicitedinfo-IsStep :
      (offset : ℕ) (m' : RplMsg)
      → m.options rpl_dis_solicitedinfo ≡ some from
      → rplsolicitedinfo m ≡ Next.option offset m'
      → IsStep rpl_dis_solicitedinfo from m offset m'
  unfolding rplsolicitedinfo
  rplsolicitedinfo-IsStep offset m' e h =
      elim (Search-cases (search_subopt m rpl_dis_solicitedinfo)) [
        | inl (o, skip, options, s) ↦
            ground (arith, hit-IsStep m rpl_dis_solicitedinfo from e o skip options s)
        | inr (inl (options, s)) ↦ ground arith
        | inr (inr (inl s)) ↦ ground arith
        | inr (inr (inr s)) ↦ ground arith
      ]

  pub destprefix-IsStep :
      (offset : ℕ) (m' : RplMsg)
      → m.options rpl_dio_destprefix ≡ some from
      → destprefix m ≡ Next.option offset m'
      → IsStep rpl_dio_destprefix from m offset m'
  unfolding destprefix
  destprefix-IsStep offset m' e h = elim (Search-cases (search_subopt m rpl_dio_destprefix)) [
    | inl (o, skip, options, s) ↦
        ground (arith, hit-IsStep m rpl_dio_destprefix from e o skip options s)
    | inr (inl (options, s)) ↦ ground arith
    | inr (inr (inl s)) ↦ ground arith
    | inr (inr (inr s)) ↦ ground arith
  ]

  pub rpltarget-IsStep :
      (offset : ℕ) (m' : RplMsg)
      → m.options rpl_dao_rpltarget ≡ some from
      → rpltarget m ≡ Next.option offset m'
      → IsStep rpl_dao_rpltarget from m offset m'
  unfolding rpltarget
  rpltarget-IsStep offset m' e h = elim (Search-cases (search_subopt m rpl_dao_rpltarget)) [
    | inl (o, skip, options, s) ↦ elim (Option-cases (get_elem? m.bytes (o + 3))) [
      | inl n ↦ ground arith
      | inr (prefixlen, p) ↦ ground (arith, hit-IsStep m rpl_dao_rpltarget from e o skip options s)
    ]
    | inr (inl (options, s)) ↦ ground arith
    | inr (inr (inl s)) ↦ ground arith
    | inr (inr (inr s)) ↦ ground arith
  ]

-- The outcomes of a reader.
pub Next-cases :
    (r : Next)
    → ((offset : ℕ) × (m : RplMsg) × (r ≡ Next.option offset m))
      ⊎ (((m : RplMsg) × (r ≡ Next.null m))
          ⊎ (((m : RplMsg) × (r ≡ Next.underrun m)) ⊎ ((r ≡ Next.fault) ⊎ (r ≡ Next.stuck))))
Next-cases (Next.option offset m) = inl (offset, m, refl)
Next-cases (Next.null m) = inr (inl (m, refl))
Next-cases (Next.underrun m) = inr (inr (inl (m, refl)))
Next-cases Next.fault = inr (inr (inr (inl refl)))
Next-cases Next.stuck = inr (inr (inr (inr refl)))

-- The constructor leaves a message of the full size, with every offset 0.
pub rpl_msg-size :
    (memory old : List ℕ) (len : ℤ) (m : RplMsg)
    → length old ≡ bytes_size
    → rpl_msg memory len old ≡ some m
    → (m.options ≡ reset_options) × (length m.bytes ≡ bytes_size)
unfolding rpl_msg
rpl_msg-size memory old len m size e =
    let n = clamp_len len in
    ground (
      arith,
      length-append (take n memory) (drop n old),
      length-take n memory,
      length-drop n old,
      clamp_len-le len,
    )
