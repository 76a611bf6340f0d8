-- ===== src/Tests/Dags.antt =====
-- Examples of a DAG that receives messages.
use native.Mathlib.Omega.{arith}
use unstrung.Prelude.{
  ◌+◌, ◌*◌, ◌≤◌, ◌≡◌, refl, inr, true, false, List, [], ◌∷◌, ◌++◌, replicate, some, length,
  if◌then◌else◌,
}
use unstrung.Prelude.Int.{pos}
use unstrung.Wire.{rpl_dao_rpltarget, rpl_dio_destprefix}
use unstrung.Node.{
  no_node, node_is_equal, put_node, find_node, node_at, makevalid, could_be_valid, new_node,
  zero_node,
}
use unstrung.Timer.{micros, alarm_base}
use unstrung.RplMsg.Chain.{SubOption, opt, encode}
use unstrung.RplMsg.Contents.{contents}
use unstrung.Dag.{DagNetwork, RplEvent, send_dio, requeue, init_dag, ◌>>=◌}
use unstrung.Dag.Schedule.{
  schedule_dio, maybe_schedule_dio, maybe_send_dao, dag_rank_infinite, is_set,
}
use unstrung.Dag.Schedule.Alarms.{schedule_dio_due}
use unstrung.Dag.Parent.{after_adoption}
use unstrung.Dag.Parent.Prefixes.{take_prefixes, after_adoption_lem}
use unstrung.Dag.Receive.{receive_dio, receive_dao, update_node, is_own}
use unstrung.Dag.Receive.Members.{IsFiled, put_node-IsFiled, Remembers, update_node-Remembers}
use unstrung.Dag.Receive.Returns.{receive_dao_returns}
use unstrung.Dag.Receive.Targets.{take_targets}
use unstrung.Dag.Receive.Messages.{dao_counted, finish_dao, receive_dao_lem}
use unstrung.Dag.Choice.{choice, Keeps}
use unstrung.Dag.Choosing.{Chooses, receive_dio-Chooses}
use unstrung.Dag.Parent.{receive_daoack}
use unstrung.Dag.Received.{Commits, receive_daoack-Commits, receive_dao-Keeps}
use unstrung.Dag.Reachable.{start, next, handle, dio, daoack, IsCoherent, Reaches-init_dag}
use unstrung.RplMsg.{goes_on, clamp_len, destprefix, rpl_msg, scan, search_subopt}
use unstrung.Dag.Parent.{commit_parent, pio_loop, potentially_lower_rank}
use unstrung.Timer.{normalise, set_alarm}
use unstrung.Sequence.{seq_too_old}
use unstrung.Dag.Install.{add_parent_route_to_default}
use unstrung.Dag.Schedule.{same_node, same_iface}
use unstrung.Node.{set_last_seen}
use unstrung.Tests.{
  stack_node, link_local_addr, dodagid, blank_dag, live_dag, system, target_options, old_stack,
  a_dao, a_dio,
}

stranger : is_own system 0 (link_local_addr 2) live_dag ≡ false
unfolding is_own node_at find_node makevalid could_be_valid new_node zero_node
stranger = refl

receive_dio-Chooses_example :
    Chooses
      (link_local_addr 2)
      0
      a_dio
      live_dag
      (receive_dio system 0 (link_local_addr 2) 12 a_dio [] (pos 0) old_stack live_dag)
receive_dio-Chooses_example =
    receive_dio-Chooses system 0 (link_local_addr 2) 12 a_dio [] (pos 0) old_stack live_dag

receive_daoack-Commits_example :
    Commits (link_local_addr 1) 4 live_dag (receive_daoack system (link_local_addr 1) 4 live_dag)
receive_daoack-Commits_example = receive_daoack-Commits system (link_local_addr 1) 4 live_dag

receive_dao-Keeps_example : Keeps live_dag (
    receive_dao system 0
      (link_local_addr 2)
      12
      a_dao
      (encode target_options)
      (pos 21)
      old_stack
      live_dag)
receive_dao-Keeps_example =
    receive_dao-Keeps system 0 (link_local_addr 2) 12 a_dao (encode target_options) (pos 21)
      old_stack live_dag

receive_dao_returns_example :
    (d : DagNetwork) × (receive_dao system 0
        (link_local_addr 2)
        12
        a_dao
        (encode target_options ++ (1 ∷ []))
        (pos (length (encode target_options)))
        old_stack
        live_dag
      ≡ some d)
receive_dao_returns_example =
    receive_dao_returns system 0 (link_local_addr 2) 12 a_dao target_options (1 ∷ []) old_stack
      live_dag (λ e. absurd (omega arith), omega arith, tt) (unfold contents in (omega arith, tt))
      (unfold contents in ((128, refl, omega arith), tt)) (unfold encode in omega arith) refl
      stranger refl refl

receive_dao_lem_example :
    receive_dao system 0
      (link_local_addr 2)
      12
      a_dao
      (encode target_options ++ (1 ∷ []))
      (pos (length (encode target_options)))
      old_stack
      live_dag
    ≡ (take_targets system
          (link_local_addr 2)
          0
          (contents rpl_dao_rpltarget target_options)
          (update_node system 0 (link_local_addr 2) 12 (dao_counted live_dag)).0
        >>= finish_dao system 0 (link_local_addr 2) 12 a_dao)
receive_dao_lem_example =
    receive_dao_lem system 0 (link_local_addr 2) 12 a_dao target_options (1 ∷ []) old_stack live_dag
      (λ e. absurd (omega arith), omega arith, tt) (unfold contents in (omega arith, tt))
      (unfold encode in omega arith) refl stranger

abbrev prefix_options : List SubOption
prefix_options = opt 8 (64 ∷ 0x40 ∷ replicate 28 1) ∷ []

after_adoption_lem_example :
    after_adoption system
      (link_local_addr 1)
      0
      (encode prefix_options ++ [])
      (pos (length (encode prefix_options)))
      old_stack
      live_dag
    ≡ (do
      d1 ←
          take_prefixes system
            (link_local_addr 1)
            0
            (contents rpl_dio_destprefix prefix_options)
            live_dag
      d2 ← if is_set d1.parent then maybe_schedule_dio system d1 else some d1
      maybe_send_dao system d2)
after_adoption_lem_example =
    after_adoption_lem system (link_local_addr 1) 0 prefix_options [] old_stack live_dag
      (λ e. absurd (omega arith), omega arith, tt) (unfold encode in omega arith)

-- A new DAG that has received a DIO, by which it chooses a parent, and an acknowledgement, by which
-- it commits to it.
abbrev new_dag : DagNetwork
new_dag = init_dag (record blank_dag { active = true }) 7 dodagid

chosen :
    (s : DagNetwork) × (handle system
        (dio 0 (link_local_addr 1) 12 a_dio [] (pos 0) old_stack)
        new_dag
      ≡ some s)
unfolding handle init_dag receive_dio seq_too_old potentially_lower_rank after_adoption pio_loop
    rpl_msg clamp_len destprefix search_subopt scan goes_on maybe_send_dao node_at new_node
    same_node
chosen = (_, refl)

reached : (s : DagNetwork) × (handle system (daoack (link_local_addr 1) 1) chosen.0 ≡ some s)
unfolding maybe_schedule_dio schedule_dio dag_rank_infinite put_node makevalid set_last_seen
    same_iface receive_daoack commit_parent set_alarm normalise add_parent_route_to_default chosen
    node_is_equal
reached = (_, refl)

Reaches-init_dag_example : IsCoherent (choice reached.0) × (reached.0.best_rank ≤ new_dag.best_rank)
Reaches-init_dag_example =
    Reaches-init_dag (record blank_dag { active = true }) reached.0 7 dodagid
      (next system (daoack (link_local_addr 1) 1)
        (next system (dio 0 (link_local_addr 1) 12 a_dio [] (pos 0) old_stack) start chosen.1)
        reached.1)

live_dag-IsFiled : IsFiled live_dag.members
unfolding put_node find_node makevalid could_be_valid new_node
live_dag-IsFiled =
    put_node-IsFiled (no_node stack_node) (link_local_addr 1)
      (makevalid (new_node (stack_node (link_local_addr 1))) (link_local_addr 1) true true)
      (λ key. tt) (inr refl)

update_node-Remembers_example :
    Remembers system 0
      (link_local_addr 2)
      12
      live_dag
      (update_node system 0 (link_local_addr 2) 12 live_dag)
update_node-Remembers_example =
    update_node-Remembers system 0 (link_local_addr 2) 12 live_dag live_dag-IsFiled

finite : dag_rank_infinite live_dag ≡ false
unfolding dag_rank_infinite
finite = refl

schedule_dio_due_example :
    (d' : DagNetwork) × (e : RplEvent) × (schedule_dio system 1500 live_dag ≡ some d')
    × (d'.send_dio_event ≡ some e)
    × (d'.out ≡ live_dag.out ++ (requeue e ∷ []))
    × (e.event_type ≡ send_dio)
    × (micros e.alarm_time ≡ micros (alarm_base system.faked system.clock) + (1500 + 1) * 1000)
schedule_dio_due_example = schedule_dio_due system 1500 live_dag finite (omega arith)
