-- ===== src/RplMsg/Finding.antt =====
-- The loop of `search_subopt` on a well-formed chain.
use native.Mathlib.Nat.{add-zero}
use native.Mathlib.Decide.{dec_lt, ℕ_discrete}
use unstrung.Prelude.{
  eq_true, eq_false, ℕ, zero, suc, ◌+◌, ◌≤◌, ◌<◌, ◌≡◌, ◌≢◌, refl, List, [], ◌∷◌, ◌++◌, some, length,
  get_elem?, drop, sym, ap, ◌∙◌, arith,
}
use unstrung.RplMsg.{
  RplMsg, bytes_size, search_fuel, search_subopt, Offsets, found, absent, goes_on, first_seen,
  store, scan,
}
use unstrung.RplMsg.Chain.{
  SubOption, pad, opt, encode, IsChain, first_of_type, Finds, LiesAt, length-encode_opt,
  first_of_type_short, byte_at, Finds-behind, head_of_long, drop_next, drop-option,
}

scan_short :
    (fuel : ℕ) (bytes : List ℕ) (left optnum : ℕ) (options : Offsets) (offset : ℕ)
    → left ≤ 2
    → scan (suc fuel) bytes (offset + left) optnum options offset ≡ absent options
unfolding scan goes_on
scan_short fuel bytes left optnum options offset h = ground arith

scan_pad :
    (fuel : ℕ) (bytes : List ℕ) (left optnum : ℕ) (options : Offsets) (offset y : ℕ)
    → 2 < left
    → optnum ≢ 0
    → get_elem? bytes offset ≡ some 0
    → get_elem? bytes (offset + 1) ≡ some y
    → scan (suc fuel) bytes (offset + left) optnum options offset
      ≡ scan fuel bytes (offset + left) optnum (first_seen options 0 offset) (offset + 1)
unfolding scan goes_on
scan_pad fuel bytes left optnum options offset y h n e f = ground arith

scan_other :
    (fuel : ℕ) (bytes : List ℕ) (left optnum : ℕ) (options : Offsets) (offset type size : ℕ)
    → 2 < left
    → type ≢ 0
    → 0 < size
    → type ≢ optnum
    → get_elem? bytes offset ≡ some type
    → get_elem? bytes (offset + 1) ≡ some size
    → scan (suc fuel) bytes (offset + left) optnum options offset
      ≡ scan fuel bytes
          (offset + left)
          optnum
          (first_seen options type offset)
          (offset + (size + 2))
unfolding scan goes_on
scan_other fuel bytes left optnum options offset type size h nz pos ne e f = ground arith

scan_same :
    (fuel : ℕ) (bytes : List ℕ) (left optnum : ℕ) (options : Offsets) (offset type size : ℕ)
    → 2 < left
    → type ≢ 0
    → 0 < size
    → type ≡ optnum
    → get_elem? bytes offset ≡ some type
    → get_elem? bytes (offset + 1) ≡ some size
    → scan (suc fuel) bytes (offset + left) optnum options offset
      ≡ found offset (size + 2) (store (first_seen options type offset) type (offset + (size + 2)))
unfolding scan goes_on
scan_same fuel bytes left optnum options offset type size h nz pos same e f = ground arith

module _ (fuel : ℕ) (bytes : List ℕ) (optnum : ℕ) (options : Offsets) (offset : ℕ) where
  Finds-pad :
      (os : List SubOption) (junk : List ℕ)
      → IsChain os
      → optnum ≢ 0
      → drop offset bytes ≡ 0 ∷ (encode os ++ junk)
      → Finds optnum (offset + 1) (first_of_type optnum os) (
          scan fuel bytes
            (offset + suc (length (encode os)))
            optnum
            (first_seen options 0 offset)
            (offset + 1))
      → Finds optnum offset
          (first_of_type optnum (pad ∷ os))
          (scan (suc fuel) bytes (offset + suc (length (encode os))) optnum options offset)
  unfolding first_of_type
  Finds-pad os junk c nz d rest = elim (dec_lt 2 (suc (length (encode os)))) [
    | no short ↦
        rw
          (
            first_of_type_short optnum os c (omega arith),
            scan_short fuel bytes (suc (length (encode os))) optnum options offset (omega arith),
          )
          (options, refl)
    | yes long ↦
        let (y, e) = head_of_long (encode os) junk (omega arith) in
        rw
          (scan_pad fuel bytes (suc (length (encode os))) optnum options offset y long nz
            (rw add-zero at (byte_at bytes offset 0 d)) (byte_at bytes offset 1 d ∙ e))
          (Finds-behind optnum offset 1 pad _ _ (unfold encode in refl) rest)
  ]

  Finds-other :
      (type : ℕ) (content : List ℕ) (os : List SubOption) (junk : List ℕ)
      → IsChain (opt type content ∷ os)
      → type ≢ optnum
      → drop offset bytes ≡ type ∷ length content ∷ ((content ++ encode os) ++ junk)
      → Finds optnum (offset + (length content + 2)) (first_of_type optnum os) (
          scan fuel bytes
            (offset + length (encode (opt type content ∷ os)))
            optnum
            (first_seen options type offset)
            (offset + (length content + 2)))
      → Finds optnum offset (first_of_type optnum (opt type content ∷ os)) (
          scan
            (suc fuel)
            bytes
            (offset + length (encode (opt type content ∷ os)))
            optnum
            options
            offset)
  unfolding first_of_type encode
  Finds-other type content os junk c ne d rest =
      rw
        (
          scan_other fuel bytes (length (encode (opt type content ∷ os))) optnum options offset type
              (length content) (omega (arith, length-encode_opt type content os, c.1)) c.0 c.1 ne
              (rw add-zero at (byte_at bytes offset 0 d)) (byte_at bytes offset 1 d),
          eq_false type optnum ne,
        )
        (Finds-behind optnum offset (length content + 2) (opt type content) _ _
          (omega (arith, length-encode_opt type content [])) rest)

  Finds-same :
      (type : ℕ) (content : List ℕ) (os : List SubOption) (junk : List ℕ)
      → IsChain (opt type content ∷ os)
      → type ≡ optnum
      → drop offset bytes ≡ type ∷ length content ∷ ((content ++ encode os) ++ junk)
      → Finds optnum offset (first_of_type optnum (opt type content ∷ os)) (
          scan
            (suc fuel)
            bytes
            (offset + length (encode (opt type content ∷ os)))
            optnum
            options
            offset)
  unfolding first_of_type
  Finds-same type content os junk c same d =
      let after : Offsets =
        store (first_seen options type offset) type (offset + (length content + 2)) in
      rw
        (
          scan_same fuel bytes (length (encode (opt type content ∷ os))) optnum options offset type
              (length content) (omega (arith, length-encode_opt type content os, c.1)) c.0 c.1 same
              (rw add-zero at (byte_at bytes offset 0 d)) (byte_at bytes offset 1 d),
          eq_true type optnum same,
        )
        (
          after,
          ap (λ t. found t (length content + 2) after) (unfold encode in sym (add-zero offset)),
          unfold encode in ground arith,
        )

-- In a chain that fills the message, the loop finds exactly the first option of the type.
pub scan-Finds :
    (os : List SubOption) (fuel : ℕ) (bytes : List ℕ) (len optnum : ℕ) (options : Offsets)
    (offset : ℕ)
    → IsChain os
    → optnum ≢ 0
    → LiesAt bytes offset len os
    → length (encode os) < fuel
    → Finds optnum offset (first_of_type optnum os) (scan fuel bytes len optnum options offset)
unfolding first_of_type encode
scan-Finds os zero bytes len optnum options offset c nz at h = absurd (omega arith)
scan-Finds [] (suc fuel) bytes len optnum options offset c nz at h =
    rw at.1 (options, scan_short fuel bytes 0 optnum options offset (omega arith))
scan-Finds (pad ∷ os) (suc fuel) bytes len optnum options offset c nz ((junk, d), e) h = rw e (
    Finds-pad fuel bytes optnum options offset os junk c nz d (
      scan-Finds os fuel bytes _ optnum _ (offset + 1) c nz
        ((junk, drop_next bytes offset 1 d), omega arith) (omega arith)))
scan-Finds (opt type content ∷ os) (suc fuel) bytes len optnum options offset c nz ((junk, d), e)
      h =
    elim (ℕ_discrete type optnum) [
      | yes same ↦ rw e (Finds-same fuel bytes optnum options offset type content os junk c same d)
      | no other ↦ rw e (
          Finds-other fuel bytes optnum options offset type content os junk c other d (
            scan-Finds os fuel bytes _ optnum _ (offset + (length content + 2)) c.2 nz
              (
                (
                  junk,
                  drop_next bytes offset (length content + 2) d
                      ∙ drop-option type content (encode os) junk,
                ),
                omega (arith, length-encode_opt type content os),
              )
              (omega (arith, length-encode_opt type content os))))
    ]

-- On a message whose options from the place of the last search on are a well-formed chain of at
-- most 2048 bytes, `search_subopt` finds exactly the first option of a type other than the padding,
-- with its place and length, and stores where the next search goes on, or reports that there is
-- none.
pub search_subopt-Finds :
    (os : List SubOption) (m : RplMsg) (optnum from : ℕ)
    → m.options optnum ≡ some from
    → IsChain os
    → optnum ≢ 0
    → LiesAt m.bytes from m.len os
    → length (encode os) ≤ bytes_size
    → Finds optnum from (first_of_type optnum os) (search_subopt m optnum)
unfolding search_subopt
search_subopt-Finds os m optnum from e c nz at h =
    rw (e, search_subopt)
      (scan-Finds os search_fuel m.bytes m.len optnum m.options from c nz at (omega (arith, h)))
