-- ===== src/Acp/Names.antt =====
-- The address that is read from a name.
use mathlib.Core.List.{append_assoc, append-nil}
use mathlib.Core.Path.{subst}
use unstrung.Prelude.{
  ℕ, zero, suc, ◌+◌, ◌%◌, ◌≡◌, ◌≢◌, ◌<◌, ◌⊎◌, refl, inl, inr, true, false, ◌||◌, List, [], ◌∷◌,
  ◌++◌, Option, some, length, replicate, ◌==◌, ap, sym, ◌∙◌, arith,
}
use unstrung.Wire.{bytes_eq}
use unstrung.Link.{hex_byte, hex_digit}
use unstrung.Link.Text.{AllBytes}
use unstrung.Acp.{
  parsed, local_part, cut, rfc8994_name, rfcself_name, address_bytes, parse_rfc8994string,
}

-- No character of a text is `c`.
abbrev pub Without : ℕ → List ℕ → Type 0
Without c [] = Unit {0}
Without c (x ∷ xs) = (x ≢ c) × Without c xs

Without-append : (c : ℕ) (xs ys : List ℕ) → Without c xs → Without c ys → Without c (xs ++ ys)
Without-append c [] ys a b = b
Without-append c (x ∷ xs) ys (n, a) b = (n, Without-append c xs ys a b)

local_part-at :
    (xs ys : List ℕ) → Without 0 xs → Without 64 xs → local_part (xs ++ (64 ∷ ys)) ≡ some xs
unfolding local_part
local_part-at [] ys a b = refl
local_part-at (x ∷ xs) ys (n, a) (m, b) =
    let plain : (x == 0 || x == 64) ≡ false = ground arith in
    rw plain (rw (local_part-at xs ys a b, local_part) refl)

cut-at : (c : ℕ) (xs ys : List ℕ) → Without c xs → cut c (xs ++ (c ∷ ys)) ≡ (xs, some ys)
unfolding cut
cut-at c [] ys a = ground arith
cut-at c (x ∷ xs) ys (n, a) =
    let other : (x == c) ≡ false = ground arith in
    rw (other, cut) (ap (λ r. (x ∷ r.0, r.1)) (cut-at c xs ys a))

cut_none : (c : ℕ) (xs : List ℕ) → Without c xs → (cut c xs).0 ≡ xs
unfolding cut
cut_none c [] a = refl
cut_none c (x ∷ xs) (n, a) =
    let other : (x == c) ≡ false = ground arith in
    rw (other, cut) (ap (λ r. x ∷ r) (cut_none c xs a))

-- The bytes of an address as text.
abbrev pub hex_text : List ℕ → List ℕ
hex_text [] = []
hex_text (b ∷ bs) = hex_byte b ++ hex_text bs

hex_digit-ne : (d c : ℕ) → d < 16 → c < 48 ⊎ (c ≡ 64) → hex_digit d ≢ c
hex_digit-ne d c h (inl k) e = ground arith
hex_digit-ne d c h (inr k) e = ground arith

Without-hex_text : (c : ℕ) (bs : List ℕ) → (c < 48) ⊎ (c ≡ 64) → Without c (hex_text bs)
Without-hex_text c [] k = tt
Without-hex_text c (b ∷ bs) k =
    (hex_digit-ne _ c (omega arith) k, (hex_digit-ne _ c (omega arith) k, Without-hex_text c bs k))

address_bytes-rest :
    (scan : List ℕ → Option ℕ) (rounds : ℕ)
    → address_bytes scan rounds [] ≡ some (replicate rounds 0)
unfolding address_bytes
address_bytes-rest scan zero = refl
address_bytes-rest scan (suc rounds) = rw (address_bytes-rest scan rounds) refl

address_bytes-hex_text :
    (scan : List ℕ → Option ℕ) (rounds : ℕ) (bs : List ℕ) (left : ℕ)
    → ((b : ℕ) (rest : List ℕ) → b < 256 → scan (hex_byte b ++ rest) ≡ some b)
    → AllBytes bs
    → rounds ≡ length bs + left
    → address_bytes scan rounds (hex_text bs) ≡ some (bs ++ replicate left 0)
unfolding address_bytes
address_bytes-hex_text scan rounds [] left reads a h =
    let same : rounds ≡ left = omega (arith, h) in
    address_bytes-rest scan rounds ∙ ap (λ k. some (replicate k 0)) same
address_bytes-hex_text scan zero (b ∷ bs) left reads a h = absurd (omega (arith, h))
address_bytes-hex_text scan (suc rounds) (b ∷ bs) left reads (small, a) h =
    let byte : b % 256 ≡ b = omega (arith, small) in
    rw (reads b (hex_text bs) small)
      (rw (address_bytes-hex_text scan rounds bs left reads a (omega (arith, h))) (rw byte refl))

-- One of the two names that are accepted.
abbrev pub IsAcpName : List ℕ → Type 0
IsAcpName name = (name ≡ rfc8994_name) ⊎ (name ≡ rfcself_name)

-- What may follow the address before the '@': nothing, or a '+' and any text.
abbrev pub IsSuffix : List ℕ → Type 0
IsSuffix [] = Unit {0}
IsSuffix (c ∷ cs) = (c ≡ 43) × Without 0 cs × Without 64 cs

cut-suffix : (xs suffix : List ℕ) → Without 43 xs → IsSuffix suffix → (cut 43 (xs ++ suffix)).0 ≡ xs
cut-suffix xs [] a k = ap (λ t. (cut 43 t).0) (append-nil xs) ∙ cut_none 43 xs a
cut-suffix xs (c ∷ cs) a (k, n0, n64) =
    ap (λ x. (cut 43 (xs ++ (x ∷ cs))).0) k ∙ ap (λ r. r.0) (cut-at 43 xs cs a)

Without-suffix : (c : ℕ) (suffix : List ℕ) → (c ≡ 0) ⊎ (c ≡ 64) → IsSuffix suffix → Without c suffix
Without-suffix c [] k s = tt
Without-suffix c (x ∷ xs) (inl k) (e, a, b) =
    (omega (arith, k, e), subst (λ z. Without z xs) (sym k) a)
Without-suffix c (x ∷ xs) (inr k) (e, a, b) =
    (omega (arith, k, e), subst (λ z. Without z xs) (sym k) b)

parse-name :
    (scan : List ℕ → Option ℕ) (name bs suffix domain beyond : List ℕ) (left : ℕ)
    → ((b : ℕ) (rest : List ℕ) → b < 256 → scan (hex_byte b ++ rest) ≡ some b)
    → (bytes_eq rfc8994_name name || bytes_eq rfcself_name name) ≡ true
    → Without 0 name
    → Without 64 name
    → Without 43 name
    → AllBytes bs
    → IsSuffix suffix
    → 16 ≡ length bs + left
    → parse_rfc8994string scan ((name ++ (43 ∷ (hex_text bs ++ suffix))) ++ (64 ∷ domain)) beyond
      ≡ parsed (record { addr = bs ++ replicate left 0; maskbits = 128 })
unfolding parse_rfc8994string
parse-name scan name bs suffix domain beyond left reads named a0 a64 a43 a is_suffix h =
    let plus = hex_text bs ++ suffix in
    let w0 =
      Without-append 0 (hex_text bs) suffix (Without-hex_text 0 bs (inl (omega arith)))
        (Without-suffix 0 suffix (inl refl) is_suffix) in
    let w64 =
      Without-append 64 (hex_text bs) suffix (Without-hex_text 64 bs (inr refl))
        (Without-suffix 64 suffix (inr refl) is_suffix) in
    let text =
      local_part-at (name ++ (43 ∷ plus)) (domain ++ beyond)
        (Without-append 0 name (43 ∷ plus) a0 (omega arith, w0))
        (Without-append 64 name (43 ∷ plus) a64 (omega arith, w64)) in
    rw (append_assoc (name ++ (43 ∷ plus)) (64 ∷ domain) beyond, parse_rfc8994string)
      (rw text (
        rw (cut-at 43 name plus a43) (
          rw (ap (λ r. r.0) (cut-at 43 name plus a43)) (
            rw named (
              rw
                (cut-suffix (hex_text bs) suffix (Without-hex_text 43 bs (inl (omega arith)))
                  is_suffix)
                (rw (address_bytes-hex_text scan 16 bs left reads a h) refl))))))

-- Where `sscanf` reads two hexadecimal digits as their byte, a name that is one of the two accepted
-- ones, a plus, at most 16 bytes in hexadecimal, nothing or a plus with any text, and an at sign
-- with any text is read as those bytes filled up with zeros to 16, as an address of 128 bits,
-- whatever the stack holds.
pub parse_rfc8994string-hex_text :
    (scan : List ℕ → Option ℕ) (name bs suffix domain beyond : List ℕ) (left : ℕ)
    → ((b : ℕ) (rest : List ℕ) → b < 256 → scan (hex_byte b ++ rest) ≡ some b)
    → IsAcpName name
    → AllBytes bs
    → IsSuffix suffix
    → 16 ≡ length bs + left
    → parse_rfc8994string scan ((name ++ (43 ∷ (hex_text bs ++ suffix))) ++ (64 ∷ domain)) beyond
      ≡ parsed (record { addr = bs ++ replicate left 0; maskbits = 128 })
parse_rfc8994string-hex_text scan name bs suffix domain beyond left reads (inl e) a is_suffix h =
    rw e (
      parse-name scan rfc8994_name bs suffix domain beyond left reads refl (omega arith)
        (omega arith) (omega arith) a is_suffix h)
parse_rfc8994string-hex_text scan name bs suffix domain beyond left reads (inr e) a is_suffix h =
    rw e (
      parse-name scan rfcself_name bs suffix domain beyond left reads refl (omega arith)
        (omega arith) (omega arith) a is_suffix h)
