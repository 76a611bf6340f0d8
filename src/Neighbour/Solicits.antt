-- ===== src/Neighbour/Solicits.antt =====
-- A solicitation to all hosts, and when the handler of solicitations returns.
use unstrung.Prelude.{
  ℕ, ◌+◌, ◌≡◌, ◌≢◌, ◌≤◌, ◌<◌, inl, inr, refl, true, false, List, Option, none, some, get_elem?,
  length, take, drop, ltb, ◌==◌, Bool-cases, get_elem?-some, sym, ◌∙◌, arith,
}
use unstrung.Wire.{Addr, bytes_eq}
use unstrung.Node.{markvalid}
use unstrung.Stats.{ps_neighbour_solicit, ps_neighbour_joinassistant_solicit}
use unstrung.Neighbour.{
  Neighbours, World, Outcome, Scan, seen, note_option, join_options, all_hosts_addr, count, on_node,
  find_neighbour, reply_mcast_neighbour_join, solicit_target, receive_neighbour_solicit,
}
use unstrung.NdMessage.{nd_opt_aro}
use unstrung.Neighbour.Options.{Reached, start, join_options_endless, join_options_ends}

-- The state in which the target of a solicitation to all hosts is answered.
abbrev pub target_marked : Addr → Neighbours → Neighbours
target_marked key n =
    let found = find_neighbour key (count ps_neighbour_solicit n) in
    count ps_neighbour_joinassistant_solicit
      (on_node key (λ target. markvalid target found.if_index key true) found)

pub receive_all_hosts :
    (fuel : ℕ) (w : World) (from : Addr) (dat : List ℕ) (nd_len : ℕ) (n : Neighbours)
    → 24 ≤ nd_len
    → 24 ≤ length dat
    → bytes_eq all_hosts_addr n.link_addr ≡ false
    → receive_neighbour_solicit fuel w from all_hosts_addr dat nd_len n
      ≡ reply_mcast_neighbour_join fuel w
          (take 16 (drop 8 dat))
          dat
          nd_len
          (target_marked (take 16 (drop 8 dat)) n)
unfolding receive_neighbour_solicit solicit_target find_neighbour
receive_all_hosts fuel w from dat nd_len n long whole other =
    let a : ltb nd_len 24 ≡ false = ground arith in
    let b : ltb (length dat) 24 ≡ false = ground arith in
    rw (a, receive_neighbour_solicit) (rw b (rw other refl))

note_option-some :
    (dat : List ℕ) (pos type : ℕ)
    → pos + 16 ≤ length dat
    → (noted : Option (List ℕ)) × (note_option dat pos type none ≡ some noted)
unfolding note_option
note_option-some dat pos type room = elim (Bool-cases (type == nd_opt_aro)) [
  | inl e ↦
      let inside : ltb (length dat) (pos + 16) ≡ false = ground arith in
      (some (take 8 (drop (pos + 8) dat)), rw e (rw inside refl))
  | inr e ↦ (none, rw e refl)
]

-- A solicitation to all hosts of at least 27 bytes, in a buffer of at least 40, whose first option
-- has the length 0 takes all fuel, however much it is, where the own address is not that of all
-- hosts.
pub receive_neighbour_solicit_endless :
    (fuel : ℕ) (w : World) (from : Addr) (dat : List ℕ) (nd_len : ℕ) (n : Neighbours)
    → 27 ≤ nd_len
    → 40 ≤ length dat
    → bytes_eq all_hosts_addr n.link_addr ≡ false
    → get_elem? dat 25 ≡ some 0
    → receive_neighbour_solicit fuel w from all_hosts_addr dat nd_len n ≡ Outcome.stuck
unfolding reply_mcast_neighbour_join
receive_neighbour_solicit_endless fuel w from dat nd_len n long whole other len =
    let (type, at) = get_elem?-some dat 24 (omega arith) in
    let (noted, note) = note_option-some dat 24 type (omega arith) in
    receive_all_hosts fuel w from dat nd_len n (omega arith) (omega arith) other
    ∙ rw
        (
          join_options_endless fuel dat nd_len 24 type none noted (omega arith) at len note,
          reply_mcast_neighbour_join,
        )
        refl

reply_mcast_neighbour_join_ends :
    (fuel : ℕ) (w : World) (key : Addr) (dat : List ℕ) (nd_len : ℕ) (n : Neighbours)
    → join_options fuel dat nd_len 24 none ≢ Scan.stuck
    → reply_mcast_neighbour_join fuel w key dat nd_len n ≢ Outcome.stuck
unfolding reply_mcast_neighbour_join
reply_mcast_neighbour_join_ends fuel w key dat nd_len n ends =
    cases (join_options fuel dat nd_len 24 none) refl
  where
    cases :
        (s : Scan)
        → s ≡ join_options fuel dat nd_len 24 none
        → reply_mcast_neighbour_join fuel w key dat nd_len n ≢ Outcome.stuck
    cases (seen (none)) e = rw (← e, reply_mcast_neighbour_join) (λ x. cc)
    cases (seen (some eui64)) e = rw (← e, reply_mcast_neighbour_join) (λ x. cc)
    cases Scan.fault e = rw (← e, reply_mcast_neighbour_join) (λ x. cc)
    cases Scan.stuck e = absurd (ends (sym e))

-- Where no option of a solicitation that the walk from its byte 24 reaches has the length byte 0,
-- fuel of one at least and of the bytes behind the first 24 is enough, for any addresses and
-- neighbours.
pub receive_neighbour_solicit_ends :
    (fuel : ℕ) (w : World) (from ip6_to : Addr) (dat : List ℕ) (nd_len : ℕ) (n : Neighbours)
    → ((i : ℕ) → Reached dat nd_len 24 i → i + 2 < nd_len → get_elem? dat (i + 1) ≢ some 0)
    → 0 < fuel
    → nd_len ≤ fuel + 24
    → receive_neighbour_solicit fuel w from ip6_to dat nd_len n ≢ Outcome.stuck
unfolding receive_neighbour_solicit solicit_target
receive_neighbour_solicit_ends fuel w from ip6_to dat nd_len n lens some_fuel enough =
    let ends = join_options_ends fuel dat nd_len 24 24 none lens start some_fuel enough in
    grind (arith, reply_mcast_neighbour_join_ends)
