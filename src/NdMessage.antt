-- ===== src/NdMessage.antt =====
-- neighbour.h, neighboursolicit.cpp and neighbouradvert.cpp: the neighbour discovery messages that an
-- interface builds, in the layout of netinet/icmp6.h.
use unstrung.Prelude.{
  ℕ, ◌+◌, ◌-◌, ◌/◌, ◌%◌, Bool, List, ◌∷◌, ◌++◌, length, take, replicate, if◌then◌else◌,
}
use unstrung.Wire.{Addr}
use unstrung.Message.{round_up_8}

abbrev pub nd_neighbor_solicit : ℕ
nd_neighbor_solicit = 135

abbrev pub nd_neighbor_advert : ℕ
nd_neighbor_advert = 136

-- `ND_NA_FLAG_OVERRIDE` and `ND_NA_FLAG_SOLICITED`, in the first byte of the flags.
abbrev pub na_override : ℕ
na_override = 0x20

abbrev pub na_solicited : ℕ
na_solicited = 0x40

abbrev pub nd_opt_aro : ℕ
nd_opt_aro = 33

abbrev pub nd_ns_join_declined : ℕ
nd_ns_join_declined = 253

-- `start_neighbour_advert` with the target: 24 bytes.
unfoldable pub start_neighbour_advert : ℕ → Addr → List ℕ
start_neighbour_advert flags target =
    nd_neighbor_advert ∷ 0 ∷ 0 ∷ 0 ∷ flags ∷ 0 ∷ 0 ∷ 0 ∷ take 16 target

-- `end_neighbour_advert`: the message with zeros up to a multiple of eight bytes.
unfoldable pub end_neighbour_advert : List ℕ → List ℕ
end_neighbour_advert content = content ++ replicate (round_up_8 (length content) - length content) 0

unfoldable pub build_basic_neighbour_advert : Addr → Bool → List ℕ
unfolding start_neighbour_advert end_neighbour_advert
build_basic_neighbour_advert link_addr solicited =
    end_neighbour_advert
      (start_neighbour_advert (na_override + (if solicited then na_solicited else 0)) link_addr)

-- `struct nd_opt_aro`, with the fields that the code leaves at zero.
abbrev pub aro_option : ℕ → ℕ → ℕ → List ℕ → List ℕ
aro_option len status lifetime eui64 =
    nd_opt_aro ∷ len ∷ status ∷ 0 ∷ 0 ∷ 0 ∷ (lifetime / 256 % 256) ∷ (lifetime % 256) ∷ take 8 eui64

-- `build_neighbour_solicit`: the solicitation with an ARO for the sender's own EUI-64.
unfoldable pub build_neighbour_solicit : Addr → List ℕ → List ℕ
unfolding end_neighbour_advert
build_neighbour_solicit link_addr eui64 = end_neighbour_advert (
    (nd_neighbor_solicit ∷ 0 ∷ 0 ∷ 0 ∷ na_override ∷ 0 ∷ 0 ∷ 0 ∷ take 16 link_addr)
    ++ aro_option ((16 - 8) / 4) 0 5 eui64)
