-- ===== src/Neighbour.antt =====
-- neighbour.h, neighboursolicit.cpp and neighbouradvert.cpp: the neighbours of an interface, the
-- solicitations that it receives, the advertisements that it sends, and the queries for a node that
-- wants to join. The messages have the layout of netinet/icmp6.h.
pub mod Options
pub mod Nodes
pub mod Solicits
pub mod Asking
pub mod Joining
pub mod Answers
pub mod Reachable
pub mod Registrar
use unstrung.Prelude.{
  ℕ, zero, suc, ◌+◌, ◌-◌, ◌*◌, ◌/◌, ◌%◌, ◌^◌, Bool, true, false, List, [], ◌∷◌, ◌++◌, Option, none,
  some, get_elem?, length, take, drop, replicate, ltb, ◌==◌, if◌then◌else◌,
}
use unstrung.Wire.{Addr, bytes_eq}
use unstrung.Node.{
  RplNode, NodeMap, no_node, has_node, node_at, put_node, markvalid, set_last_seen, set_accepted,
  join_declined, join_query_in_progress, join_accepted,
}
use unstrung.Stats.{
  Stats, bump, ps_neighbour_unicast_reachability, ps_neighbour_unicast_target_ns,
  ps_neighbour_unicast_source_unspecified, ps_neighbour_mcast_solicit, ps_neighbour_ignored,
  ps_neighbour_solicit, ps_neighbour_joinassistant_solicit, ps_neighbour_join_query_started,
  ps_neighbour_join_query_inprogress, ps_neighbour_join_neighbour_solicitation,
  ps_neighbour_join_query_already_declined, ps_neighbour_join_query_already_accepted,
  ps_neighbour_join_query_noconnection,
}
use unstrung.Message.{round_up_8}
use unstrung.Grasp.{GraspClient, start_query_for_aro}
use unstrung.NdMessage.{
  na_override, na_solicited, nd_opt_aro, nd_ns_join_declined, start_neighbour_advert,
  end_neighbour_advert, build_basic_neighbour_advert, aro_option,
}

abbrev pub all_hosts_addr : Addr
all_hosts_addr = 0xff ∷ 0x02 ∷ (replicate 13 0 ++ (0x01 ∷ []))

-- What a sender hands to `send_raw_icmp`: the destination and the message.
pub record Sent : Type 0 where
  pub dest : Addr
  pub message : List ℕ

-- What an interface keeps of its neighbours, with the counters and what it sent.
pub record Neighbours : Type 0 where
  pub nodes : NodeMap
  pub if_index : ℕ
  pub link_addr : Addr
  pub global_stats : Stats
  pub error_cnt : ℕ
  pub join_query_client : Option GraspClient
  pub sent : List Sent

-- The clock, and whether a query is written as a whole.
pub record World : Type 0 where
  pub clock : ℕ
  pub wrote : Bool

-- How a handler ends: `fault` is an access outside the buffer, `stuck` a loop that took all its
-- fuel.
pub data Outcome : Type 0 where
  done : Neighbours → Outcome
  fault stuck : Outcome

abbrev pub count : ℕ → Neighbours → Neighbours
count k n = record n { global_stats = bump k n.global_stats }

-- `this->neighbours[key]` after an operation on it.
abbrev pub on_node : Addr → (RplNode → RplNode) → Neighbours → Neighbours
on_node key f n = record n { nodes = put_node n.nodes key (f (node_at n.nodes key)) }

-- `find_neighbour`
pub find_neighbour : Addr → Neighbours → Neighbours
find_neighbour nip n =
    on_node nip (λ target. if target.valid then target else markvalid target n.if_index nip true) n

-- `rpl_node::reply_neighbour_advert`, sent to the node itself.
pub reply_neighbour_advert : Addr → ℕ → Neighbours → Neighbours
unfolding start_neighbour_advert end_neighbour_advert
reply_neighbour_advert key success n =
    let nodeip = (node_at n.nodes key).addr in
    let content =
      start_neighbour_advert (na_override + na_solicited) nodeip
      ++ aro_option 16 (success % 256) 0 (drop 8 nodeip) in
    record n {
      sent = n.sent ++ (record { dest = nodeip; message = end_neighbour_advert content } ∷ []);
    }

-- `network_interface::reply_neighbour_advert`
pub confirm_reachability : World → Addr → Neighbours → Neighbours
confirm_reachability w from n =
    if bytes_eq (replicate 16 0) from
    then count ps_neighbour_unicast_source_unspecified n
    else on_node from (λ source. set_last_seen (markvalid source n.if_index from true) w.clock) n

pub reply_mcast_neighbour_advert : World → Addr → Addr → Neighbours → Neighbours
unfolding build_basic_neighbour_advert
reply_mcast_neighbour_advert w key from n =
    record (on_node key (λ target. set_last_seen target w.clock) n) {
      sent =
          n.sent
          ++ (record { dest = from; message = build_basic_neighbour_advert n.link_addr true } ∷ []);
    }

-- The loop over the options of a solicitation that asks to join: the EUI-64 of the first ARO. An
-- ARO is logged, so that its 16 bytes are read.
pub data Scan : Type 0 where
  seen : Option (List ℕ) → Scan
  fault stuck : Scan

pub note_option : List ℕ → ℕ → ℕ → Option (List ℕ) → Option (Option (List ℕ))
note_option dat pos type in_aro_opt =
    if type == nd_opt_aro
    then (if ltb (length dat) (pos + 16) then none else elim in_aro_opt [
      | none ↦ some (some (take 8 (drop (pos + 8) dat)))
      | some first ↦ some (some first)
    ])
    else some in_aro_opt

pub join_options : ℕ → List ℕ → ℕ → ℕ → Option (List ℕ) → Scan
join_options zero dat nd_len pos in_aro_opt = Scan.stuck
join_options (suc fuel) dat nd_len pos in_aro_opt = elim (ltb (pos + 2) nd_len) [
  | false ↦ seen in_aro_opt
  | true ↦ elim (get_elem? dat pos) [
    | none ↦ Scan.fault
    | some type ↦ elim (get_elem? dat (pos + 1)) [
      | none ↦ Scan.fault
      | some len ↦ elim (note_option dat pos type in_aro_opt) [
        | none ↦ Scan.fault
        | some noted ↦ join_options fuel dat nd_len (pos + len * 8) noted
      ]
    ]
  ]
]

-- The branches behind the loop, on the ARO that it found.
pub answer_join : World → Addr → List ℕ → Neighbours → Neighbours
unfolding reply_neighbour_advert
answer_join w key eui64 n =
    let counted = count ps_neighbour_join_neighbour_solicitation n in
    let this = node_at n.nodes key in
    if join_declined this
    then reply_neighbour_advert key nd_ns_join_declined
        (count ps_neighbour_join_query_already_declined counted)
    else if join_query_in_progress this
    then count ps_neighbour_join_query_inprogress counted
    else if join_accepted this
    then reply_neighbour_advert key 0 (count ps_neighbour_join_query_already_accepted counted)
    else (let started = count ps_neighbour_join_query_started counted in
        elim n.join_query_client [
          | some client ↦
              let (client', gsi) = start_query_for_aro w.wrote eui64 client in
              on_node key (λ target. record target { query_id = gsi })
                (record started { join_query_client = some client' })
          | none ↦
              reply_neighbour_advert key nd_ns_join_declined
                (count ps_neighbour_join_query_noconnection started)
        ])

pub reply_mcast_neighbour_join : ℕ → World → Addr → List ℕ → ℕ → Neighbours → Outcome
unfolding join_options answer_join
reply_mcast_neighbour_join fuel w key dat nd_len n = elim (join_options fuel dat nd_len 24 none) [
  | seen (none) ↦ done n
  | seen (some eui64) ↦ done (answer_join w key eui64 n)
  | Scan.fault ↦ Outcome.fault
  | Scan.stuck ↦ Outcome.stuck
]

-- `IN6_IS_ADDR_MULTICAST`
abbrev pub is_multicast : Addr → Bool
is_multicast [] = false
is_multicast (b ∷ bs) = b == 0xff

-- `receive_neighbour_solicit` behind the check of the length, with the target's address.
pub solicit_target : ℕ → World → Addr → Addr → Addr → List ℕ → ℕ → Neighbours → Outcome
unfolding find_neighbour confirm_reachability reply_mcast_neighbour_advert
    reply_mcast_neighbour_join
solicit_target fuel w from ip6_to key dat nd_len before =
    let n = find_neighbour key before in
    if bytes_eq ip6_to n.link_addr
    then done (
        confirm_reachability w from (
          count ps_neighbour_unicast_reachability
            (if bytes_eq key n.link_addr then count ps_neighbour_unicast_target_ns n else n)))
    else if is_multicast ip6_to
    then (let marked = on_node key (λ target. markvalid target n.if_index key true) n in
        if bytes_eq ip6_to all_hosts_addr
        then reply_mcast_neighbour_join fuel w key dat nd_len
            (count ps_neighbour_joinassistant_solicit marked)
        else done
            (reply_mcast_neighbour_advert w key from (count ps_neighbour_mcast_solicit marked)))
    else done (count ps_neighbour_ignored n)

-- `receive_neighbour_solicit` of `nd_len` bytes at `dat`; a short buffer is a fault.
pub receive_neighbour_solicit : ℕ → World → Addr → Addr → List ℕ → ℕ → Neighbours → Outcome
unfolding solicit_target
receive_neighbour_solicit fuel w from ip6_to dat nd_len n =
    let counted = count ps_neighbour_solicit n in
    if ltb nd_len 24
    then done (record counted { error_cnt = counted.error_cnt + 1 })
    else if ltb (length dat) 24
    then Outcome.fault
    else solicit_target fuel w from ip6_to (take 16 (drop 8 dat)) dat nd_len counted

-- `find_neighbour_by_grasp_sessionid`: the first of the map in the order of `rpl_less`.
pub bytes_less : List ℕ → List ℕ → Bool
bytes_less [] ys = false
bytes_less (x ∷ xs) [] = false
bytes_less (x ∷ xs) (y ∷ ys) = if x == y then bytes_less xs ys else ltb x y

unfoldable pub find_by_session : NodeMap → ℕ → Option Addr
unfolding bytes_less
find_by_session (no_node memory) gsi = none
find_by_session (has_node k node m) gsi =
    let rest = find_by_session m gsi in
    if node.query_id == gsi
    then elim rest [ none ↦ some k | some j ↦ some (if bytes_less j k then j else k) ]
    else rest

-- `network_interface::process_grasp_reply`
pub process_grasp_reply : ℕ → Bool → Neighbours → Neighbours
unfolding find_by_session reply_neighbour_advert
process_grasp_reply gsi success n = elim (find_by_session n.nodes gsi) [
  | none ↦ n
  | some key ↦
      reply_neighbour_advert key (if success then 0 else nd_ns_join_declined)
        (on_node key (λ rn. set_accepted rn success) n)
]
