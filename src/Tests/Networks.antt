-- ===== src/Tests/Networks.antt =====
-- Examples of a packet among the DAGs of a process.
use unstrung.Prelude.{◌≡◌, refl, true, [], ◌∷◌, none, some, arith}
use unstrung.Node.{
  node_at, find_node, put_node, makevalid, markself, could_be_valid, new_node, zero_node,
}
use unstrung.Dag.{init_dag}
use unstrung.Dag.Receive.{receive_dao, update_node, is_own}
use unstrung.Iface.{
  Network, Packet, iface_receive_dao, packet_too_short, parse_dao, dao_options, dao_options_len,
  unsigned_less, deliver, find_or_make_by_instanceid, find_by_instanceid, on_dag,
}
use unstrung.Iface.Dispatch.{receive_packet, dispatch}
use unstrung.Iface.Kept.{Kept}
use unstrung.Iface.Routing.{receive_packet-Kept}
use unstrung.Tests.{system, a_network, a_packet}

-- A DAO for an instance that is not known yet.
abbrev unknown_dao : Packet
unknown_dao = record a_packet { buffer = 155 ∷ 2 ∷ 0 ∷ 0 ∷ 9 ∷ 0 ∷ 0 ∷ 5 ∷ [] }

abbrev watcher : Network
watcher = record a_network { watching = true }

packet_received :
    (n' : Network) × (receive_packet system (λ p n. none) 0 unknown_dao watcher ≡ some n')
unfolding receive_packet dispatch iface_receive_dao packet_too_short parse_dao dao_options
    dao_options_len unsigned_less deliver find_or_make_by_instanceid find_by_instanceid on_dag
    init_dag receive_dao update_node is_own node_at find_node put_node makevalid markself
    could_be_valid new_node zero_node
packet_received = (_, refl)

receive_packet-Kept_example : Kept 9 watcher packet_received.0
receive_packet-Kept_example =
    receive_packet-Kept system (λ p n. none) 0 unknown_dao 2 0 0 9 (0 ∷ 0 ∷ 5 ∷ []) watcher
      packet_received.0 refl (λ e. absurd (omega (arith, e))) packet_received.1
