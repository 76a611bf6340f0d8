-- ===== src/Dag/Receive.antt =====
-- dag.cpp: what a DAG does with a DIS, a DIO and a DAO.
pub mod Members
pub mod Returns
pub mod Targets
pub mod Rounds
pub mod Messages
use unstrung.Prelude.{
  ℕ, zero, suc, ◌+◌, Bool, true, false, not, ◌&&◌, ◌||◌, List, Option, none, some, get_elem?, take,
  ◌==◌, if◌then◌else◌,
}
use unstrung.Prelude.Int.{ℤ}
use unstrung.Wire.{Addr, bytes_eq, dao_k}
use unstrung.Node.{RplNode, node_at, put_node, makevalid, markself, set_last_seen}
use unstrung.RplMsg.{RplMsg, Next, rpl_msg, rpltarget, copy_prefix}
use unstrung.Sequence.{seq_too_old, seq_update}
use unstrung.Stats.{
  ps_seq_old, ps_packet_received, ps_packet_processed, ps_packets_watched, ps_self_packet_received,
  ps_dao_packet_received, ps_dio_packet_received, ps_dis_packet_received,
}
use unstrung.Message.{Built, build_dao, build_daoack}
use unstrung.Message
use unstrung.Dag.{DagNetwork, Env, send_icmp, emit, ◌>>=◌}
use unstrung.Dag.Schedule.{schedule_dio, maybe_send_dao}
use unstrung.Dag.Install.{add_childnode}
use unstrung.Dag.Parent.{Dio, count, potentially_lower_rank}

-- The member that `update_node` works on, with its `debug` set.
abbrev pub seen_node : DagNetwork → Addr → RplNode
seen_node d from = record (node_at d.members from) { has_debug = true }

-- `peer.isself() || iface->if_ifaddr(from)`
unfoldable pub is_own : Env → ℕ → Addr → DagNetwork → Bool
is_own env iface from d = (node_at d.members from).self || bytes_eq from (env.if_addr iface)

-- `update_node`, and `update_parent` and `update_child` which call it: `false` is NULL.
unfoldable pub update_node : Env → ℕ → Addr → ℕ → DagNetwork → DagNetwork × Bool
unfolding is_own
update_node env iface from now d =
    if is_own env iface from d
    then (
      count ps_self_packet_received
          (record d { members = put_node d.members from (markself (seen_node d from) iface) }),
      false,
    )
    else (
      record d {
        members =
            put_node d.members from
              (set_last_seen (makevalid (seen_node d from) from true true) now);
      },
      true,
    )

unfoldable pub receive_dis : Env → DagNetwork → Option DagNetwork
receive_dis env d = schedule_dio env 1 (count ps_dis_packet_received (count ps_packet_received d))

-- Whether the sequence number lets a DIO in: `d` has counted it already.
pub dio_is_old : Dio → DagNetwork → Bool
dio_is_old dio d =
    seq_too_old d.last_seq dio.dtsn
    && (not (dio.dtsn == 0) && not (d.stats ps_dio_packet_received == 1))

-- What an active DAG does with a DIO from a peer.
unfoldable pub process_dio :
    Env → ℕ → Addr → Dio → List ℕ → ℤ → List ℕ → DagNetwork → Option DagNetwork
process_dio env iface from dio memory len old d =
    if d.active
    then (do
      d' ← potentially_lower_rank env from iface dio memory len old d
      some (count ps_packet_processed d'))
    else some (count ps_packets_watched d)

-- `receive_dio`; `memory` and `len` are what follows the header.
unfoldable pub receive_dio :
    Env → ℕ → Addr → ℕ → Dio → List ℕ → ℤ → List ℕ → DagNetwork → Option DagNetwork
unfolding dio_is_old update_node process_dio
receive_dio env iface from now dio memory len old d =
    let counted = count ps_dio_packet_received (count ps_packet_received d) in
    if dio_is_old dio counted
    then some (count ps_seq_old counted)
    else (let (seen, is_peer) = update_node env iface from now counted in
        if is_peer
        then process_dio env iface from dio memory len old
            (record seen { last_seq = seq_update seen.last_seq dio.dtsn })
        else some seen)

-- `struct nd_rpl_dao`, without the DODAGID.
pub record Dao : Type 0 where
  pub instanceid : ℕ
  pub flags : ℕ
  pub daoseq : ℕ

-- The loop over the targets of a DAO, with fuel.
unfoldable pub target_loop : Env → Addr → ℕ → ℕ → RplMsg → DagNetwork → Option DagNetwork
target_loop env peer iface zero m d = none
target_loop env peer iface (suc fuel) m d = elim (rpltarget m) [
  | Next.null m' ↦ some d
  | Next.underrun m' ↦ some d
  | Next.option offset m' ↦ elim (get_elem? m'.bytes (offset + 3)) [
    | none ↦ none
    | some prefixlen ↦ elim (copy_prefix m'.bytes (offset + 4) prefixlen) [
      | none ↦ none
      | some sub ↦ elim (add_childnode env peer iface sub d) [
        | none ↦ none
        | some d' ↦ target_loop env peer iface fuel m' d'
      ]
    ]
  ]
  | Next.fault ↦ none
  | Next.stuck ↦ none
]

abbrev pub target_fuel : ℕ
target_fuel = 2049

-- `icmp_body[2048]` of the functions that send.
abbrev pub icmp_body_size : ℕ
icmp_body_size = 2048

-- What a sender does with a message that was built.
unfoldable pub send_built : ℕ → Option Addr → Built → DagNetwork → Option DagNetwork
send_built iface dest (Message.built buff len) d =
    some (emit (send_icmp iface dest (take len buff)) d)
send_built iface dest Built.refused d = some d
send_built iface dest Built.fault d = none

-- `network_interface::send_daoack(child, dag, seq_num)`
unfoldable pub send_daoack : ℕ → Addr → ℕ → DagNetwork → Option DagNetwork
unfolding send_built
send_daoack iface child seq_num d =
    send_built iface (some (node_at d.members child).addr) (build_daoack d icmp_body_size seq_num) d

-- `dag_network::send_dao`, and `network_interface::send_dao(parent, dag)` which it calls.
pub send_dao_to_parent : DagNetwork → Option DagNetwork
unfolding send_built
send_dao_to_parent d = elim d.bestparent [
  | none ↦ some d
  | some parent ↦ elim d.bestparentif [
    | none ↦ some d
    | some iface ↦
        (let (d', message) = build_dao d icmp_body_size in
          send_built iface (some (node_at d.members parent).addr) message d')
  ]
]

-- `receive_dao`; `memory` and `len` are what follows the header and the DODAGID.
unfoldable pub receive_dao :
    Env → ℕ → Addr → ℕ → Dao → List ℕ → ℤ → List ℕ → DagNetwork → Option DagNetwork
unfolding update_node send_daoack
receive_dao env iface from now dao memory len old d =
    let counted = count ps_dao_packet_received (count ps_packet_received d) in
    let (seen, is_peer) = update_node env iface from now counted in
    if not is_peer
    then some seen
    else if not seen.active
    then some (count ps_packets_watched seen)
    else (do
      m ← rpl_msg memory len old
      d1 ← target_loop env from iface target_fuel m seen
      d2 ← maybe_send_dao env d1
      d3 ← if dao_k dao.flags then send_daoack iface from dao.daoseq d2 else some d2
      some (count ps_packet_processed d3))
