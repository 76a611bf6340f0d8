-- ===== src/Neighbour/Asking.antt =====
-- A solicitation with an ARO asks the registrar, whatever is known of the node.
use unstrung.Prelude.{ℕ, ◌≡◌, ◌≤◌, refl, true, false, List, none, some, length, take, drop, ap, ◌∙◌}
use unstrung.Wire.{Addr, bytes_eq}
use unstrung.Node.{
  RplNode, node_at, markvalid, join_declined, join_query_in_progress, join_accepted, zero_node,
}
use unstrung.Stats.{
  ps_neighbour_solicit, ps_neighbour_join_query_started, ps_neighbour_join_neighbour_solicitation,
}
use unstrung.Grasp.{GraspClient, start_query_for_aro}
use unstrung.Neighbour.{
  Neighbours, World, done, seen, join_options, all_hosts_addr, count, on_node, find_neighbour,
  reply_mcast_neighbour_join, receive_neighbour_solicit, answer_join,
}
use unstrung.Neighbour.Nodes.{node_at-put_node}
use unstrung.Neighbour.Solicits.{receive_all_hosts, target_marked}

markvalid-settled :
    (x : RplNode) (index : ℕ) (key : Addr)
    → (join_declined (markvalid x index key true) ≡ false)
      × (join_query_in_progress (markvalid x index key true) ≡ false)
      × (join_accepted (markvalid x index key true) ≡ false)
unfolding join_declined join_query_in_progress join_accepted markvalid zero_node
markvalid-settled x index key = (refl, refl, refl)

-- The state after a query for a node.
abbrev pub queried : World → Addr → List ℕ → GraspClient → Neighbours → Neighbours
queried w key eui64 client n =
    let asked = start_query_for_aro w.wrote eui64 client in
    on_node key (λ target. record target { query_id = asked.1 })
      (record (count ps_neighbour_join_query_started
        (count ps_neighbour_join_neighbour_solicitation n)) { join_query_client = some asked.0 })

answer_join-queried :
    (w : World) (key : Addr) (eui64 : List ℕ) (n : Neighbours) (client : GraspClient)
    → join_declined (node_at n.nodes key) ≡ false
    → join_query_in_progress (node_at n.nodes key) ≡ false
    → join_accepted (node_at n.nodes key) ≡ false
    → n.join_query_client ≡ some client
    → answer_join w key eui64 n ≡ queried w key eui64 client n
unfolding answer_join
answer_join-queried w key eui64 n client declined asked accepted there =
    rw (declined, answer_join) (rw asked (rw accepted (rw there refl)))

-- The node that a solicitation to all hosts leaves under its target before it is answered.
pub target_marked-node :
    (key : Addr) (n : Neighbours)
    → (x : RplNode) × (index : ℕ) × (node_at (target_marked key n).nodes key
        ≡ markvalid x index key true)
target_marked-node key n =
    let found = find_neighbour key (count ps_neighbour_solicit n) in
    (
      node_at found.nodes key,
      found.if_index,
      node_at-put_node found.nodes key
          (markvalid (node_at found.nodes key) found.if_index key true),
    )

-- A solicitation to all hosts with an ARO, where there is a client, starts a query, whatever was
-- known of the node.
pub receive_neighbour_solicit-queried :
    (fuel : ℕ) (w : World) (from : Addr) (dat eui64 : List ℕ) (nd_len : ℕ) (n : Neighbours)
    (client : GraspClient)
    → 24 ≤ nd_len
    → 24 ≤ length dat
    → bytes_eq all_hosts_addr n.link_addr ≡ false
    → join_options fuel dat nd_len 24 none ≡ seen (some eui64)
    → n.join_query_client ≡ some client
    → receive_neighbour_solicit fuel w from all_hosts_addr dat nd_len n
      ≡ done
          (queried w (take 16 (drop 8 dat)) eui64 client (target_marked (take 16 (drop 8 dat)) n))
unfolding reply_mcast_neighbour_join find_neighbour
receive_neighbour_solicit-queried fuel w from dat eui64 nd_len n client long whole other scanned
      there =
    let key = take 16 (drop 8 dat) in
    let (x, index, at) = target_marked-node key n in
    let (declined, asked, accepted) = markvalid-settled x index key in
    receive_all_hosts fuel w from dat nd_len n long whole other
    ∙ rw (scanned, reply_mcast_neighbour_join)
        (ap done (
          answer_join-queried w key eui64 (target_marked key n) client
            (ap join_declined at ∙ declined) (ap join_query_in_progress at ∙ asked)
            (ap join_accepted at ∙ accepted) there))
