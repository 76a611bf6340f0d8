-- ===== src/Link/Text.antt =====
-- The text of an address and what is read from it.
use mathlib.Core.List.{append_assoc, append-nil}
use unstrung.Prelude.{
  ℕ, zero, suc, ◌-◌, ◌*◌, ◌/◌, ◌%◌, ◌≤◌, ◌<◌, ◌≡◌, refl, bit_or, true, List, [], ◌∷◌, ◌++◌, some,
  length, ltb, ◌==◌, ==_iff, all_below_sound, ap, sym, ◌∙◌, arith,
}
use unstrung.Link.{
  nibble_of, is_separator, parse_loop, parse_eui2bin, hex_digit, hex_byte, fmt_rest, fmt_eui,
}

abbrev pub AllBytes : List ℕ → Type 0
AllBytes [] = Unit {0}
AllBytes (b ∷ bs) = (b < 256) × AllBytes bs

pub nibble_of-hex_digit : (d : ℕ) → d < 16 → nibble_of (hex_digit d) ≡ some d
unfolding nibble_of
nibble_of-hex_digit d h = ground arith

join_nibbles : (b : ℕ) → b < 256 → bit_or (b / 16 % 16 * 16) (b % 16) ≡ b
join_nibbles b h =
    (==_iff (bit_or (b / 16 % 16 * 16) (b % 16)) b).0
      (all_below_sound 256 (λ x. bit_or (x / 16 % 16 * 16) (x % 16) == x) b refl h)

parse_hex_byte :
    (b : ℕ) (cs : List ℕ) (dstlen : ℕ) (written : List ℕ)
    → b < 256
    → parse_loop (hex_byte b ++ cs) (suc dstlen) true 0 written
      ≡ parse_loop cs dstlen true 0 (written ++ (b ∷ []))
unfolding parse_loop
parse_hex_byte b cs dstlen written h =
    let hi = nibble_of-hex_digit (b / 16 % 16) (omega arith) in
    let lo = nibble_of-hex_digit (b % 16) (omega arith) in
    rw (hi, parse_loop) (rw (lo, parse_loop) (rw (join_nibbles b h) refl))

parse_dash :
    (cs : List ℕ) (dstlen : ℕ) (written : List ℕ)
    → parse_loop (45 ∷ cs) (suc dstlen) true 0 written ≡ parse_loop cs (suc dstlen) true 0 written
unfolding parse_loop is_separator nibble_of
parse_dash cs dstlen written = refl

-- The text behind the first byte is complete and is read back.
fmt_rest-parse_loop :
    (bs : List ℕ) (txtlen dstlen : ℕ) (written : List ℕ)
    → AllBytes bs
    → 3 * length bs < txtlen
    → length bs ≤ dstlen
    → ((fmt_rest txtlen bs).1 ≡ true)
      × (parse_loop (fmt_rest txtlen bs).0 dstlen true 0 written ≡ some (written ++ bs))
unfolding fmt_rest parse_loop
fmt_rest-parse_loop [] txtlen dstlen written a room fits =
    (refl, ap some (sym (append-nil written)))
fmt_rest-parse_loop (b ∷ bs) txtlen zero written a room fits = absurd (omega arith)
fmt_rest-parse_loop (b ∷ bs) txtlen (suc dstlen) written a room fits =
    let wide : ltb 3 txtlen ≡ true = ground (arith, room) in
    let (whole, read) =
      fmt_rest-parse_loop bs (txtlen - 3) dstlen (written ++ (b ∷ [])) a.1 (omega (arith, room))
        (omega (arith, fits)) in
    let rest = (fmt_rest (txtlen - 3) bs).0 in
    rw (wide, fmt_rest)
      (
        whole,
        parse_dash (hex_byte b ++ rest) dstlen written
            ∙ parse_hex_byte b rest dstlen written a.0
            ∙ read
            ∙ ap some (append_assoc written (b ∷ []) bs),
      )

-- For bytes below 256, a buffer of more than three characters for each byte, and room for all
-- bytes, `fmt_eui` writes the whole address and `parse_eui2bin` reads exactly its bytes from the
-- text.
pub parse_eui2bin-fmt_eui :
    (bytes : List ℕ) (txtlen dstlen : ℕ)
    → AllBytes bytes
    → 3 * length bytes < txtlen
    → length bytes ≤ dstlen
    → ((fmt_eui txtlen bytes).1 ≡ true)
      × (parse_eui2bin dstlen (fmt_eui txtlen bytes).0 ≡ some bytes)
unfolding fmt_eui parse_eui2bin
parse_eui2bin-fmt_eui [] txtlen dstlen a room fits = (refl, refl)
parse_eui2bin-fmt_eui (b ∷ bs) txtlen zero a room fits = absurd (omega arith)
parse_eui2bin-fmt_eui (b ∷ bs) txtlen (suc dstlen) a room fits =
    let wide : ltb 3 txtlen ≡ true = ground (arith, room) in
    let (whole, read) =
      fmt_rest-parse_loop bs (txtlen - 2) dstlen (b ∷ []) a.1 (omega (arith, room))
        (omega (arith, fits)) in
    rw (wide, fmt_eui) (whole, parse_hex_byte b (fmt_rest (txtlen - 2) bs).0 dstlen [] a.0 ∙ read)
