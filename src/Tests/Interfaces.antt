-- ===== src/Tests/Interfaces.antt =====
-- Examples of the list of interfaces, the discovery messages and the names of devices.
use unstrung.Prelude.{
  ℕ, ◌+◌, ◌*◌, ◌/◌, ◌%◌, ◌≡◌, ◌<◌, refl, inl, true, false, List, [], ◌∷◌, ◌++◌, Option, none, some,
  replicate, ◌==◌, if◌then◌else◌, ap, arith,
}
use unstrung.Link.{nibble_of, hex_byte}
use unstrung.Link.Text.{nibble_of-hex_digit}
use unstrung.Discovery.{receive_discovery}
use unstrung.Discovery.Walk.{IsEnded, receive_discovery-IsEnded}
use unstrung.Interfaces.{Interface, IfList, remove_from_list}
use unstrung.Interfaces.Listed.{IsListed, remove_from_list-IsListed}
use unstrung.Acp.{parsed, rfc8994_name, parse_rfc8994string}
use unstrung.Acp.Names.{hex_text, parse_rfc8994string-hex_text}
use unstrung.Tests.{link_local_addr}
use unstrung.Tests.Neighbours.{assistant, a_world}

abbrev pub an_interface : Interface
an_interface = record {
  if_index = 2;
  if_name = 101 ∷ 116 ∷ 104 ∷ 48 ∷ [];
  alive = true;
  disabled = false;
  loopback = false;
  mark = true;
}

abbrev three_ifs : IfList
three_ifs = record {
  all_if = 2 ∷ 0 ∷ 1 ∷ [];
  on_list = λ p. if p == 0 then true else if p == 1 then true else p == 2;
  interface = λ p. an_interface;
}

three_ifs-IsListed : IsListed three_ifs
three_ifs-IsListed p = ground arith

remove_from_list-IsListed_example :
    (s' : IfList) × (remove_from_list 0 three_ifs ≡ some s')
    × IsListed s'
    × ((p : ℕ) → s'.on_list p ≡ (if p == 0 then false else three_ifs.on_list p))
remove_from_list-IsListed_example = remove_from_list-IsListed 0 three_ifs three_ifs-IsListed

-- A router advertisement with one option of 8 bytes and one of the length 0.
abbrev an_advert : List ℕ
an_advert = 134 ∷ (replicate 15 0 ++ (1 ∷ 1 ∷ replicate 6 7 ++ (5 ∷ 0 ∷ replicate 6 0)))

receive_discovery-IsEnded_example :
    IsEnded
      (receive_discovery 40 a_world
        (link_local_addr 5)
        (link_local_addr 9)
        134
        an_advert
        30
        assistant)
      assistant
receive_discovery-IsEnded_example =
    receive_discovery-IsEnded 40 a_world (link_local_addr 5) (link_local_addr 9) 134 an_advert 30
      assistant (λ e. absurd (omega (arith, e))) (omega arith) (omega arith)

-- Two hexadecimal digits.
abbrev both : Option ℕ → Option ℕ → Option ℕ
both none lo = none
both (some hi) none = none
both (some hi) (some lo) = some (hi * 16 + lo)

abbrev scan_hex : List ℕ → Option ℕ
scan_hex [] = none
scan_hex (a ∷ []) = none
scan_hex (a ∷ b ∷ rest) = both (nibble_of a) (nibble_of b)

scan_hex-hex_byte : (b : ℕ) (rest : List ℕ) → b < 256 → scan_hex (hex_byte b ++ rest) ≡ some b
scan_hex-hex_byte b rest h =
    rw (nibble_of-hex_digit (b / 16 % 16) (omega arith))
      (rw (nibble_of-hex_digit (b % 16) (omega arith)) (ap some (omega (arith, h))))

-- "rfc8994+fd0a+@x"
parse_rfc8994string-hex_text_example :
    parse_rfc8994string scan_hex
      ((rfc8994_name ++ (43 ∷ (hex_text (0xfd ∷ 0x0a ∷ []) ++ (43 ∷ [])))) ++ (64 ∷ 120 ∷ []))
      []
    ≡ parsed (record { addr = (0xfd ∷ 0x0a ∷ []) ++ replicate 14 0; maskbits = 128 })
parse_rfc8994string-hex_text_example =
    parse_rfc8994string-hex_text scan_hex rfc8994_name (0xfd ∷ 0x0a ∷ []) (43 ∷ []) (120 ∷ []) [] 14
      scan_hex-hex_byte (inl refl) (omega arith) (refl, tt, tt) refl
