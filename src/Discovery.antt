-- ===== src/Discovery.antt =====
-- iface.cpp (receive_packet): the neighbour discovery messages, with verbose output off.
pub mod Walk
use unstrung.Prelude.{
  ℕ, zero, suc, ◌+◌, ◌*◌, ◌≡◌, Bool, true, false, ◌&&◌, List, [], ◌∷◌, Option, none, some,
  get_elem?, length, ltb, ◌==◌, if◌then◌else◌,
}
use unstrung.Wire.{Addr}
use unstrung.Neighbour.{Neighbours, World, Outcome, done, receive_neighbour_solicit}
use unstrung.NdMessage.{nd_neighbor_solicit, nd_neighbor_advert}

abbrev pub nd_router_solicit : ℕ
nd_router_solicit = 133

abbrev pub nd_router_advert : ℕ
nd_router_advert = 134

abbrev pub nd_opt_prefix_information : ℕ
nd_opt_prefix_information = 3

-- How the loop over the options ends: whether a length was refused. `fault` is a read outside the
-- memory, `stuck` a loop that took all its fuel.
pub data Walked : Type 0 where
  complete refused fault stuck : Walked

-- One option of `optlen` bytes is refused by one of the three checks.
pub refuses_option : ℕ → ℕ → ℕ → Bool
refuses_option len type optlen =
    if ltb optlen 2
    then true
    else if ltb len optlen
    then true
    else type == nd_opt_prefix_information && ltb optlen 32

pub walk_options : ℕ → List ℕ → ℕ → ℕ → Walked
unfolding refuses_option
walk_options zero bytes len pos = Walked.stuck
walk_options (suc fuel) bytes len pos = elim (ltb pos len) [
  | false ↦ complete
  | true ↦ elim (get_elem? bytes pos) [
    | none ↦ Walked.fault
    | some type ↦ elim (type == 0) [
      | true ↦ complete
      | false ↦ elim (get_elem? bytes (pos + 1)) [
        | none ↦ Walked.fault
        | some nd_opt_len ↦ elim (refuses_option len type (nd_opt_len * 8)) [
          | true ↦ refused
          | false ↦ walk_options fuel bytes len (pos + nd_opt_len * 8)
        ]
      ]
    ]
  ]
]

-- The state after the loop: a refused length is an error of the interface.
pub after_walk : Walked → Neighbours → Outcome
after_walk complete n = done n
after_walk refused n = done (record n { error_cnt = n.error_cnt + 1 })
after_walk Walked.fault n = Outcome.fault
after_walk Walked.stuck n = Outcome.stuck

-- `receive_packet` on the types that are not RPL; the counter `recv_cnt` is that of `Iface`.
pub receive_discovery : ℕ → World → Addr → Addr → ℕ → List ℕ → ℕ → Neighbours → Outcome
unfolding walk_options after_walk
receive_discovery fuel w from ip6_to type bytes len n =
    if type == nd_router_solicit
    then after_walk (walk_options fuel bytes len 8) n
    else if type == nd_router_advert
    then after_walk (walk_options fuel bytes len 16) n
    else if type == nd_neighbor_solicit
    then receive_neighbour_solicit fuel w from ip6_to bytes len n
    else if type == nd_neighbor_advert
    then after_walk (walk_options fuel bytes len 24) n
    else done n
