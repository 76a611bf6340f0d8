-- ===== src/Acp.antt =====
-- libidevid/rfc8994acp.cpp: the address in the name of a device in an autonomic control plane. A
-- character is its code. `scan` stands for `sscanf` with "%02x" on a text.
pub mod Names
use unstrung.Prelude.{
  ℕ, zero, suc, ◌+◌, ◌%◌, Bool, true, false, not, ◌&&◌, ◌||◌, List, [], ◌∷◌, ◌++◌, Option, none,
  some, ◌==◌, if◌then◌else◌,
}
use unstrung.Wire.{Subnet, bytes_eq}

pub data Parsed : Type 0 where
  parsed : Subnet → Parsed
  rejected fault : Parsed

-- The text up to the first '@' or to its end; `none` is a read behind the memory.
pub local_part : List ℕ → Option (List ℕ)
local_part [] = none
local_part (c ∷ cs) =
    if c == 0 || c == 64
    then some []
    else elim (local_part cs) [ none ↦ none | some text ↦ some (c ∷ text) ]

-- `strchr(text, c)`, with a NUL written there: what is before and what is behind it.
pub cut : ℕ → List ℕ → List ℕ × Option (List ℕ)
cut c [] = ([], none)
cut c (x ∷ xs) = let rest = cut c xs in if x == c then ([], some xs) else (x ∷ rest.0, rest.1)

-- "rfc8994" and "rfcSELF"
abbrev pub rfc8994_name : List ℕ
rfc8994_name = 114 ∷ 102 ∷ 99 ∷ 56 ∷ 57 ∷ 57 ∷ 52 ∷ []

abbrev pub rfcself_name : List ℕ
rfcself_name = 114 ∷ 102 ∷ 99 ∷ 83 ∷ 69 ∷ 76 ∷ 70 ∷ []

-- The loop over the bytes of the address, for the rounds that are left.
pub address_bytes : (List ℕ → Option ℕ) → ℕ → List ℕ → Option (List ℕ)
address_bytes scan zero plus = some []
address_bytes scan (suc rounds) [] = elim (address_bytes scan rounds []) [
  | none ↦ none
  | some bytes ↦ some (0 ∷ bytes)
]
address_bytes scan (suc rounds) (a ∷ []) = elim (address_bytes scan rounds (a ∷ [])) [
  | none ↦ none
  | some bytes ↦ some (0 ∷ bytes)
]
address_bytes scan (suc rounds) (a ∷ b ∷ plus) = elim (scan (a ∷ b ∷ plus)) [
  | none ↦ none
  | some onebyte ↦ elim (address_bytes scan rounds plus) [
    | none ↦ none
    | some bytes ↦ some ((onebyte % 256) ∷ bytes)
  ]
]

-- `parse_rfc8994string` on `prefix_len` bytes, which are copied to the stack in front of `beyond`.
pub parse_rfc8994string : (List ℕ → Option ℕ) → List ℕ → List ℕ → Parsed
unfolding local_part cut address_bytes
parse_rfc8994string scan prefix beyond = elim (local_part (prefix ++ beyond)) [
  | none ↦ fault
  | some text ↦
      let first = cut 43 text in
      elim first.1 [
        | none ↦ rejected
        | some plus ↦
            if bytes_eq rfc8994_name first.0 || bytes_eq rfcself_name first.0
            then elim (address_bytes scan 16 (cut 43 plus).0) [
              | none ↦ rejected
              | some bytes ↦ parsed (record { addr = bytes; maskbits = 128 })
            ]
            else rejected
      ]
]
