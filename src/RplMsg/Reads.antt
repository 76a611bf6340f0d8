-- ===== src/RplMsg/Reads.antt =====
-- What the readers of an option see of its content.
use unstrung.Prelude.{
  ℕ, zero, suc, ◌+◌, ◌-◌, ◌/◌, ◌≤◌, ◌<◌, ◌≡◌, refl, List, [], ◌∷◌, ◌++◌, none, some, length,
  length-append, length-drop, get_elem?, take, drop, replicate, ltb, if◌then◌else◌, sym, ap, ◌∙◌,
  min, arith,
}
use unstrung.Wire.{
  take-append_length, Subnet, get_elem?-drop, drop-drop, rpl_dao_rpltarget, rpl_dio_destprefix,
  rpl_dis_solicitedinfo,
}
use unstrung.Prelude.Int.{pos}
use unstrung.RplMsg.Chain.{SubOption, encode, LiesAt}
use unstrung.RplMsg.{
  bytes_size, reset_options, rpl_msg, clamp_len, RplMsg, Offsets, Next, found, absent,
  search_subopt, copy_prefix, rpltarget, destprefix, rplsolicitedinfo,
}

-- The prefix of a length that the first bytes give, with the rest of the address 0.
unfoldable pub padded_prefix : List ℕ → ℕ → Subnet
padded_prefix bytes prefixlen =
    let n = (prefixlen + 7) / 8 in
    record { addr = take n bytes ++ replicate (16 - n) 0; maskbits = prefixlen }

take-append_le {ℓ} :
    {A : Type ℓ} (n : ℕ) (xs ys : List A) → n ≤ length xs → take n (xs ++ ys) ≡ take n xs
take-append_le zero xs ys h = refl
take-append_le (suc n) [] ys h = absurd (omega arith)
take-append_le (suc n) (x ∷ xs) ys h = ap (λ t. x ∷ t) (take-append_le n xs ys (omega (arith, h)))

get_elem?-append_left {ℓ} :
    {A : Type ℓ} (xs ys : List A) (i : ℕ) → i < length xs → get_elem? (xs ++ ys) i ≡ get_elem? xs i
get_elem?-append_left [] ys i h = absurd (omega arith)
get_elem?-append_left (x ∷ xs) ys zero h = refl
get_elem?-append_left (x ∷ xs) ys (suc i) h = get_elem?-append_left xs ys i (omega (arith, h))

drop-append_left {ℓ} :
    {A : Type ℓ} (n : ℕ) (xs ys : List A) → n ≤ length xs → drop n (xs ++ ys) ≡ drop n xs ++ ys
drop-append_left zero xs ys h = refl
drop-append_left (suc n) [] ys h = absurd (omega arith)
drop-append_left (suc n) (x ∷ xs) ys h = drop-append_left n xs ys (omega (arith, h))

module _ (bytes : List ℕ) (offset : ℕ) (content more : List ℕ)
    (at : drop offset bytes ≡ content ++ more) where
  pub content_byte :
      (i place : ℕ)
      → place ≡ offset + i
      → i < length content
      → get_elem? bytes place ≡ get_elem? content i
  content_byte i place e h =
      ap (get_elem? bytes) e
      ∙ sym (get_elem?-drop offset bytes i)
      ∙ ap (λ t. get_elem? t i) at
      ∙ get_elem?-append_left content more i h

  pub drop-content : (k : ℕ) → k ≤ length content → drop (offset + k) bytes ≡ drop k content ++ more
  drop-content k h =
      sym (drop-drop k offset bytes) ∙ ap (drop k) at ∙ drop-append_left k content more h

  length-content : 0 < length content → offset + length content ≤ length bytes
  length-content h =
      omega (arith, length-drop offset bytes, ap length at, length-append content more)

  -- `k` bytes of the content stand before the prefix.
  pub copy_prefix_at :
      (k place prefixlen : ℕ)
      → place ≡ offset + k
      → 0 < k
      → k + min ((prefixlen + 7) / 8) 16 ≤ length content
      → copy_prefix bytes place prefixlen ≡ (
          if ltb 16 ((prefixlen + 7) / 8)
          then none
          else some (padded_prefix (drop k content) prefixlen))
  unfolding copy_prefix padded_prefix
  copy_prefix_at k place prefixlen e above room = ground (
    arith,
    length-content,
    drop-content k,
    length-drop k content,
    take-append_le ((prefixlen + 7) / 8) (drop k content) more,
  )

-- The readers after a search that found an option or that did not.
module _ (m : RplMsg) where
  pub rpltarget_absent :
      (after : Offsets)
      → search_subopt m rpl_dao_rpltarget ≡ absent after
      → rpltarget m ≡ Next.null (record m { options = after })
  unfolding rpltarget
  rpltarget_absent after e = rw (e, rpltarget) refl

  pub rpltarget_found :
      (offset optlen prefixlen : ℕ) (after : Offsets)
      → search_subopt m rpl_dao_rpltarget ≡ found offset optlen after
      → get_elem? m.bytes (offset + 3) ≡ some prefixlen
      → rpltarget m ≡ (
          if ltb optlen ((prefixlen + 7) / 8 + 4)
          then Next.null (record m { options = after })
          else Next.option offset (record m { options = after }))
  unfolding rpltarget
  rpltarget_found offset optlen prefixlen after e p = rw (e, rpltarget) (rw p refl)

  pub destprefix_absent :
      (after : Offsets)
      → search_subopt m rpl_dio_destprefix ≡ absent after
      → destprefix m ≡ Next.null (record m { options = after })
  unfolding destprefix
  destprefix_absent after e = rw (e, destprefix) refl

  pub destprefix_found :
      (offset optlen : ℕ) (after : Offsets)
      → search_subopt m rpl_dio_destprefix ≡ found offset optlen after
      → destprefix m ≡ (
          if ltb optlen 32
          then Next.underrun (record m { options = after })
          else Next.option offset (record m { options = after }))
  unfolding destprefix
  destprefix_found offset optlen after e = rw (e, destprefix) refl

  pub solicited_absent :
      (after : Offsets)
      → search_subopt m rpl_dis_solicitedinfo ≡ absent after
      → rplsolicitedinfo m ≡ Next.null (record m { options = after })
  unfolding rplsolicitedinfo
  solicited_absent after e = rw (e, rplsolicitedinfo) refl

  pub solicited_found :
      (offset optlen : ℕ) (after : Offsets)
      → search_subopt m rpl_dis_solicitedinfo ≡ found offset optlen after
      → rplsolicitedinfo m ≡ Next.option offset (record m { options = after })
  unfolding rplsolicitedinfo
  solicited_found offset optlen after e = rw (e, rplsolicitedinfo) refl

-- A message that is a chain, in a buffer that goes on behind it: the copy holds the chain.
pub rpl_msg-LiesAt :
    (os : List SubOption) (junk old : List ℕ)
    → length (encode os) ≤ bytes_size
    → (m : RplMsg) × (rpl_msg (encode os ++ junk) (pos (length (encode os))) old ≡ some m)
      × (m.options ≡ reset_options)
      × LiesAt m.bytes 0 m.len os
unfolding rpl_msg clamp_len
rpl_msg-LiesAt os junk old h =
    let n = length (encode os) in
    (
      record { bytes = take n (encode os ++ junk) ++ drop n old; len = n; options = reset_options },
      ground (arith, length-append (encode os) junk),
      refl,
      ((drop n old, ap (λ t. t ++ drop n old) (take-append_length (encode os) junk)), omega arith),
    )
