-- ===== src/Tests/Packets.antt =====
-- Examples of messages from a sender to a receiver.
use native.Mathlib.Omega.{arith}
use unstrung.Prelude.{
  ℕ, ◌%◌, ◌≡◌, refl, true, false, List, [], ◌∷◌, none, some, length, drop, ltb, if◌then◌else◌,
}
use unstrung.Prelude.Int.{pos}
use unstrung.Wire.{dio_grounded, dio_mop, daoack_d}
use unstrung.Node.{
  find_node, node_at, makevalid, node_is_equal, could_be_valid, new_node, zero_node,
}
use unstrung.Stats.{ps_daoack_wrong_seqno}
use unstrung.RplMsg.Reads.{padded_prefix}
use unstrung.Dag.{◌>>=◌}
use unstrung.Dag.Schedule.{maybe_schedule_dio, maybe_send_dao, is_set}
use unstrung.Dag.Install.{add_prefix}
use unstrung.Dag.Parent.{after_adoption, from_bestparent, commit_parent, receive_daoack, count}
use unstrung.Dag.Receive.{Dao, receive_dao, icmp_body_size, is_own}
use unstrung.Dag.Receive.Messages.{dao_counted, finish_dao, seen_peer}
use unstrung.Message.{sent, build_dao, build_dio, build_daoack}
use unstrung.Message.Dao.{next_sequence, dao_entries}
use unstrung.Iface.{find_by_instanceid, iface_receive_dao, parse_dao, parse_daoack, parse_dio}
use unstrung.Iface.Exchange.{add_children, dao_read, receive_dao-build_dao}
use unstrung.Iface.Announced.{dio_read, after_adoption-build_dio}
use unstrung.Iface.Handshake.{receive_daoack-build_dao, parse_daoack-build_daoack}
use unstrung.Iface.Overrun.{iface_receive_dao_overrun}
use unstrung.Tests.{link_local_addr, ula, live_dag, system, old_stack, a_dao, a_network, a_packet}

stranger : is_own system 0 (link_local_addr 2) live_dag ≡ false
unfolding is_own node_at find_node makevalid could_be_valid new_node zero_node
stranger = refl

receive_dao-build_dao_example :
    let message = sent (build_dao live_dag icmp_body_size).1 in
    (parse_dao (drop 4 message) ≡ some (dao_read live_dag))
    × ((build_dao live_dag icmp_body_size).0.dao_sequence ≡ next_sequence live_dag)
    × (receive_dao system 0
          (link_local_addr 2)
          12
          (dao_read live_dag)
          (drop 24 message)
          (pos (length (drop 24 message)))
          old_stack
          live_dag
        ≡ (add_children system
              (link_local_addr 2)
              0
              (dao_entries live_dag)
              (seen_peer (link_local_addr 2) 12 (dao_counted live_dag))
            >>= finish_dao system 0 (link_local_addr 2) 12 (dao_read live_dag)))
receive_dao-build_dao_example =
    receive_dao-build_dao system 0 (link_local_addr 2) 12 live_dag live_dag old_stack refl
      (refl, tt) (omega arith) refl stranger

after_adoption-build_dio_example :
    let message = sent (build_dio live_dag icmp_body_size (ula 64)).1 in
    (parse_dio (drop 4 message) ≡ some (dio_read live_dag))
    × (dio_grounded (dio_read live_dag).mopprf ≡ live_dag.grounded)
    × (dio_mop (dio_read live_dag).mopprf ≡ live_dag.mode)
    × (after_adoption system
          (link_local_addr 1)
          0
          (drop 28 message)
          (pos (length (drop 28 message)))
          old_stack
          live_dag
        ≡ (do
          s1 ←
              add_prefix system
                (link_local_addr 1)
                0
                (padded_prefix (ula 64).addr (ula 64).maskbits)
                live_dag
          s2 ← if is_set s1.parent then maybe_schedule_dio system s1 else some s1
          maybe_send_dao system s2))
after_adoption-build_dio_example =
    after_adoption-build_dio system (link_local_addr 1) 0 live_dag live_dag (ula 64) old_stack refl
      refl (omega arith) (omega arith)

best_answers : from_bestparent (link_local_addr 1) (build_dao live_dag icmp_body_size).0 ≡ true
unfolding from_bestparent build_dao node_is_equal node_at find_node makevalid could_be_valid
    new_node zero_node
best_answers = refl

receive_daoack-build_dao_example :
    let child = (build_dao live_dag icmp_body_size).0 in
    receive_daoack system (link_local_addr 1) (next_sequence live_dag % 256) child ≡ (
      if ltb (next_sequence live_dag) 256
      then commit_parent system child
      else some (count ps_daoack_wrong_seqno child))
receive_daoack-build_dao_example =
    receive_daoack-build_dao system (link_local_addr 1) live_dag best_answers

parse_daoack-build_daoack_example :
    (ack : Dao) × (parse_daoack (drop 4 (sent (build_daoack live_dag 2048 261))) ≡ some ack)
    × (ack.instanceid ≡ live_dag.instanceid % 256)
    × (daoack_d ack.flags ≡ true)
    × (ack.daoseq ≡ 261 % 256)
parse_daoack-build_daoack_example = parse_daoack-build_daoack live_dag 2048 261 refl (omega arith)

-- A DAO of four bytes with the bit D.
abbrev short_dao : List ℕ
short_dao = 7 ∷ 0xc0 ∷ 0 ∷ 5 ∷ []

first_live : find_by_instanceid 7 a_network.dags ≡ some live_dag
unfolding find_by_instanceid
first_live = refl

iface_receive_dao_overrun_example :
    iface_receive_dao system 0 a_packet short_dao (pos 4) a_network ≡ none
iface_receive_dao_overrun_example =
    iface_receive_dao_overrun system 0 a_packet short_dao 4 a_network live_dag a_dao
      (unfold parse_dao in refl) refl (omega arith) (omega arith) (omega arith) first_live refl
      stranger
