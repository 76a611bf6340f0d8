-- ===== src/Tests/Links.antt =====
-- Examples of the texts of addresses and of the checksum.
use unstrung.Prelude.{ℕ, ◌%◌, ◌^◌, ◌<◌, ◌≡◌, refl, true, some, [], ◌∷◌, ◌++◌, arith}
use unstrung.Link.{parse_eui2bin, fmt_eui, csum_partial, csum_ipv6_magic, pseudo_header}
use unstrung.Link.Text.{parse_eui2bin-fmt_eui}
use unstrung.Link.Checksum.{csum_partial-csum_ipv6_magic, word_sum}
use unstrung.Tests.{link_local_addr}

parse_eui2bin-fmt_eui_example :
    ((fmt_eui 25 (0 ∷ 0x1a ∷ 255 ∷ [])).1 ≡ true)
    × (parse_eui2bin 8 (fmt_eui 25 (0 ∷ 0x1a ∷ 255 ∷ [])).0 ≡ some (0 ∷ 0x1a ∷ 255 ∷ []))
parse_eui2bin-fmt_eui_example =
    parse_eui2bin-fmt_eui (0 ∷ 0x1a ∷ 255 ∷ []) 25 8 (omega arith, (omega arith, (omega arith, tt)))
      (omega arith) (omega arith)

-- Two bytes between two addresses.
csum_partial-csum_ipv6_magic_example :
    (pseudo : ℕ) × (c : ℕ) × (csum_ipv6_magic (link_local_addr 1) (link_local_addr 2) 2 58 0
      ≡ some pseudo)
    × (csum_partial (155 ∷ 2 ∷ []) pseudo ≡ some c)
    × (c < 2 ^ 16)
    × (c % 65535
        ≡ word_sum (pseudo_header (link_local_addr 1) (link_local_addr 2) 2 58 ++ (155 ∷ 2 ∷ []))
          % 65535)
unfolding word_sum pseudo_header
csum_partial-csum_ipv6_magic_example =
    csum_partial-csum_ipv6_magic (link_local_addr 1) (link_local_addr 2) (155 ∷ 2 ∷ []) 2 58 refl
      refl refl (omega arith) (omega arith)
