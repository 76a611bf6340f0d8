-- ===== src/Link/Checksum.antt =====
-- The checksum as a sum modulo 65535.
use unstrung.Prelude.{
  ℕ, ◌+◌, ◌*◌, ◌-◌, ◌/◌, ◌%◌, ◌^◌, ◌<◌, ◌≡◌, List, [], ◌∷◌, ◌++◌, take, length-take, length-append,
  some, length, ap, ◌∙◌, arith,
}
use unstrung.Link.{csum_loop, csum_partial, fold_sum, pseudo_header, csum_ipv6_magic}

-- The sum of the 16-bit words of an even number of bytes.
unfoldable pub word_sum : List ℕ → ℕ
word_sum [] = 0
word_sum (lo ∷ []) = 0
word_sum (lo ∷ hi ∷ rest) = lo + hi * 256 + word_sum rest

csum_loop_total :
    (buff : List ℕ) (sum : ℕ)
    → length buff % 2 ≡ 0
    → sum + word_sum buff < 2 ^ 32
    → csum_loop buff sum ≡ some (sum + word_sum buff)
unfolding csum_loop word_sum
csum_loop_total [] sum even h = ap some (omega arith)
csum_loop_total (lo ∷ []) sum even h = absurd (omega arith)
csum_loop_total (lo ∷ hi ∷ rest) sum even h =
    let same : (sum + (lo + hi * 256)) % 2 ^ 32 ≡ sum + (lo + hi * 256) = omega (arith, h) in
    rw same (
      csum_loop_total rest (sum + (lo + hi * 256)) (omega arith) (omega (arith, h))
      ∙ ap some (omega arith))

fold_lem :
    (s : ℕ)
    → s < 2 ^ 32
    → (fold_sum (fold_sum s) < 2 ^ 16) × (fold_sum (fold_sum s) % 65535 ≡ s % 65535)
fold_lem s h = (omega arith, omega arith)

-- On a buffer of an even length whose 16-bit words add up to less than 2 ^ 32 together with the
-- start value, `csum_partial` returns a number below 2 ^ 16 that is that sum modulo 65535.
pub csum_partial_lem :
    (buff : List ℕ) (sum : ℕ)
    → length buff % 2 ≡ 0
    → sum + word_sum buff < 2 ^ 32
    → (c : ℕ) × (csum_partial buff sum ≡ some c)
      × (c < 2 ^ 16)
      × (c % 65535 ≡ (sum + word_sum buff) % 65535)
unfolding csum_partial
csum_partial_lem buff sum even h =
    let total = sum + word_sum buff in
    let (small, same) = fold_lem total h in
    let kept : fold_sum (fold_sum total) % 2 ^ 16 ≡ fold_sum (fold_sum total) =
      omega (arith, small) in
    (
      fold_sum (fold_sum total),
      rw (csum_loop_total buff sum even h, csum_partial) (ap some kept),
      small,
      same,
    )

word_sum-append :
    (xs ys : List ℕ) → length xs % 2 ≡ 0 → word_sum (xs ++ ys) ≡ word_sum xs + word_sum ys
unfolding word_sum
word_sum-append [] ys even = omega arith
word_sum-append (lo ∷ []) ys even = absurd (omega (arith, even))
word_sum-append (lo ∷ hi ∷ xs) ys even =
    let below : length xs % 2 ≡ 0 = omega (arith, even) in
    omega (arith, word_sum-append xs ys below)

length-pseudo_header :
    (saddr daddr : List ℕ) (len proto : ℕ)
    → length saddr ≡ 16
    → length daddr ≡ 16
    → length (pseudo_header saddr daddr len proto) ≡ 40
unfolding pseudo_header
length-pseudo_header saddr daddr len proto s d =
    let tail : List ℕ =
      (len / 2 ^ 24 % 256)
      ∷ (len / 2 ^ 16 % 256)
      ∷ (len / 2 ^ 8 % 256)
      ∷ (len % 256)
      ∷ 0
      ∷ 0
      ∷ 0
      ∷ (proto % 256)
      ∷ [] in
    omega (
      arith,
      length-append (take 16 saddr) (take 16 daddr ++ tail),
      length-append (take 16 daddr) tail,
      length-take 16 saddr,
      length-take 16 daddr,
      s,
      d,
    )

-- For addresses of 16 bytes and a body of an even length, where the 16-bit words of the
-- pseudo-header add up to less than 2 ^ 32 and those of the body to less than 2 ^ 32 - 2 ^ 16, the
-- checksum over the pseudo-header and then the body is a number below 2 ^ 16 that is the sum of the
-- words of both modulo 65535.
pub csum_partial-csum_ipv6_magic :
    (saddr daddr body : List ℕ) (len proto : ℕ)
    → length saddr ≡ 16
    → length daddr ≡ 16
    → length body % 2 ≡ 0
    → word_sum (pseudo_header saddr daddr len proto) < 2 ^ 32
    → word_sum body < 2 ^ 32 - 2 ^ 16
    → (pseudo : ℕ) × (c : ℕ) × (csum_ipv6_magic saddr daddr len proto 0 ≡ some pseudo)
      × (csum_partial body pseudo ≡ some c)
      × (c < 2 ^ 16)
      × (c % 65535 ≡ word_sum (pseudo_header saddr daddr len proto ++ body) % 65535)
unfolding csum_ipv6_magic
csum_partial-csum_ipv6_magic saddr daddr body len proto s d even h k =
    let ph = pseudo_header saddr daddr len proto in
    let size : length ph ≡ 40 = length-pseudo_header saddr daddr len proto s d in
    let both = word_sum-append ph body (omega (arith, size)) in
    let (pseudo, first, small, same) =
      csum_partial_lem ph 0 (omega (arith, size)) (omega (arith, h)) in
    let (c, second, small', same') = csum_partial_lem body pseudo even (omega (arith, small, k)) in
    (pseudo, c, first, second, small', omega (arith, same, same', both))
