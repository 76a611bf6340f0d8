-- ===== src/Link.antt =====
-- iface.cpp and ifacefuncs.cpp: the link-layer addresses of an interface, their text, and the
-- checksum. A character is its code, a text the characters before its NUL, a buffer its bytes.
pub mod Text
pub mod Checksum
use unstrung.Prelude.{
  ℕ, zero, suc, ◌+◌, ◌-◌, ◌*◌, ◌/◌, ◌%◌, ◌^◌, bit_or, Bool, true, false, ◌&&◌, ◌||◌, List, [], ◌∷◌,
  ◌++◌, Option, none, some, take, drop, replicate, length, leb, ltb, ◌==◌, if◌then◌else◌,
}

-- The digit that a character stands for.
pub nibble_of : ℕ → Option ℕ
nibble_of c =
    if leb 48 c && leb c 57
    then some (c - 48)
    else if leb 65 c && leb c 70
    then some (c - 65 + 10)
    else if leb 97 c && leb c 102
    then some (c - 97 + 10)
    else none

-- '-' or ':'
pub is_separator : ℕ → Bool
is_separator c = c == 45 || c == 58

-- The loop of `parse_eui2bin`: the room in `dst`, `highnibble`, `upper4` and the bytes that were
-- written. `none` is a return of -1.
pub parse_loop : List ℕ → ℕ → Bool → ℕ → List ℕ → Option (List ℕ)
parse_loop [] dstlen high upper4 written = some written
parse_loop (c ∷ cs) zero high upper4 written = some written
parse_loop (c ∷ cs) (suc dstlen) high upper4 written = elim (nibble_of c) [
  | some nibble ↦ elim high [
    | true ↦ parse_loop cs (suc dstlen) false (nibble * 16) written
    | false ↦ parse_loop cs dstlen true 0 (written ++ (bit_or upper4 nibble ∷ []))
  ]
  | none ↦ elim (is_separator c) [
    | false ↦ none
    | true ↦ elim high [
      | true ↦ parse_loop cs (suc dstlen) true upper4 written
      | false ↦ parse_loop cs dstlen true 0 (written ++ (bit_or 0 (upper4 / 16) ∷ []))
    ]
  ]
]

pub parse_eui2bin : ℕ → List ℕ → Option (List ℕ)
unfolding parse_loop
parse_eui2bin dstlen srcbuf = parse_loop srcbuf dstlen true 0 []

-- `%02x`
abbrev pub hex_digit : ℕ → ℕ
hex_digit d = if ltb d 10 then 48 + d else 87 + d

abbrev pub hex_byte : ℕ → List ℕ
hex_byte b = hex_digit (b / 16 % 16) ∷ hex_digit (b % 16) ∷ []

-- The loop of `fmt_eui` behind the first byte, and the whole; the text, and whether it is complete.
pub fmt_rest : ℕ → List ℕ → List ℕ × Bool
fmt_rest txtlen [] = ([], true)
fmt_rest txtlen (b ∷ srceui) =
    let rest = fmt_rest (txtlen - 3) srceui in
    if ltb 3 txtlen then (45 ∷ (hex_byte b ++ rest.0), rest.1) else ([], false)

pub fmt_eui : ℕ → List ℕ → List ℕ × Bool
unfolding fmt_rest
fmt_eui txtlen [] = ([], true)
fmt_eui txtlen (b ∷ srceui) =
    let rest = fmt_rest (txtlen - 2) srceui in
    if ltb 3 txtlen then (hex_byte b ++ rest.0, rest.1) else ([], false)

-- The addresses of an interface.
pub record LinkAddr : Type 0 where
  pub eui48 : List ℕ
  pub eui64 : List ℕ
  pub eui64set : Bool
  pub ipv6_link_addr : List ℕ

-- `eui64_from_eui48` on the six bytes of `eui48`; `none` is a shorter one.
unfoldable pub eui64_from_eui48 : List ℕ → Option (List ℕ)
eui64_from_eui48 (a ∷ b ∷ c ∷ d ∷ e ∷ f ∷ more) =
    some (bit_or a 0x02 ∷ b ∷ c ∷ 0xff ∷ 0xfe ∷ d ∷ e ∷ f ∷ [])
eui64_from_eui48 _ = none

unfoldable pub generate_linkaddr : LinkAddr → LinkAddr
generate_linkaddr i = record i { ipv6_link_addr = 0xfe ∷ 0x80 ∷ (replicate 6 0 ++ take 8 i.eui64) }

unfoldable pub generate_eui64 : LinkAddr → Option LinkAddr
unfolding generate_linkaddr eui64_from_eui48
generate_eui64 i =
    if i.eui64set then some (generate_linkaddr i) else elim (eui64_from_eui48 i.eui48) [
      | none ↦ none
      | some eui ↦ some (generate_linkaddr (record i { eui64 = eui; eui64set = true }))
    ]

-- `none` is a write behind `eui48`.
unfoldable pub set_eui48 : LinkAddr → List ℕ → Option LinkAddr
unfolding generate_eui64
set_eui48 i addr48 =
    if leb (length addr48) 6
    then generate_eui64
        (record i { eui48 = addr48 ++ drop (length addr48) i.eui48; eui64set = false })
    else none

-- The loop of `csum_partial` on bytes in the order of a little-endian host; an odd length reads one
-- byte more. `sum` has 32 bits.
pub csum_loop : List ℕ → ℕ → Option ℕ
csum_loop [] sum = some sum
csum_loop (lo ∷ []) sum = none
csum_loop (lo ∷ hi ∷ rest) sum = csum_loop rest ((sum + (lo + hi * 256)) % 2 ^ 32)

abbrev pub fold_sum : ℕ → ℕ
fold_sum sum = (sum % 2 ^ 16 + sum / 2 ^ 16) % 2 ^ 32

pub csum_partial : List ℕ → ℕ → Option ℕ
unfolding csum_loop
csum_partial buff sum = elim (csum_loop buff sum) [
  | none ↦ none
  | some total ↦ some (fold_sum (fold_sum total) % 2 ^ 16)
]

-- `ph`: the pseudo-header of a message of `len` bytes.
unfoldable pub pseudo_header : List ℕ → List ℕ → ℕ → ℕ → List ℕ
pseudo_header saddr daddr len proto =
    take 16 saddr
    ++ (take 16 daddr
        ++ ((len / 2 ^ 24 % 256)
            ∷ (len / 2 ^ 16 % 256)
            ∷ (len / 2 ^ 8 % 256)
            ∷ (len % 256)
            ∷ 0
            ∷ 0
            ∷ 0
            ∷ (proto % 256)
            ∷ []))

pub csum_ipv6_magic : List ℕ → List ℕ → ℕ → ℕ → ℕ → Option ℕ
unfolding csum_partial pseudo_header
csum_ipv6_magic saddr daddr len proto sum = csum_partial (pseudo_header saddr daddr len proto) sum
