-- ===== src/Dag/Receive/Messages.antt =====
-- What a DAG does with a DIO and a DAO whose options are a chain, and with those it drops.
use unstrung.Prelude.{
  ℕ, ◌≤◌, ◌≡◌, refl, true, false, List, ◌++◌, Option, some, length, if◌then◌else◌, ap, arith,
}
use unstrung.Prelude.Int.{pos}
use unstrung.Wire.{Addr, rpl_dao_rpltarget, dao_k}
use unstrung.Node.{put_node, makevalid, set_last_seen}
use unstrung.Stats.{ps_packet_received, ps_packet_processed, ps_dao_packet_received}
use unstrung.RplMsg.{bytes_size}
use unstrung.RplMsg.Chain.{SubOption, encode, IsChain, AllLong}
use unstrung.RplMsg.Contents.{contents}
use unstrung.RplMsg.Reads.{rpl_msg-LiesAt}
use unstrung.Dag.{DagNetwork, Env, ◌>>=◌}
use unstrung.Dag.Schedule.{maybe_send_dao}
use unstrung.Dag.Parent.{count}
use unstrung.Dag.Receive.{
  Dao, is_own, seen_node, update_node, receive_dao, send_daoack, target_fuel,
}
use unstrung.Dag.Receive.Targets.{take_targets, target_loop-take_targets}

-- The state of a DAG that has counted a DAO.
abbrev pub dao_counted : DagNetwork → DagNetwork
dao_counted d = count ps_dao_packet_received (count ps_packet_received d)

-- The DAG that has seen a peer.
abbrev pub seen_peer : Addr → ℕ → DagNetwork → DagNetwork
seen_peer from now d = record d {
  members =
      put_node d.members from (set_last_seen (makevalid (seen_node d from) from true true) now);
}

pub update_node_peer :
    (env : Env) (iface : ℕ) (from : Addr) (now : ℕ) (d : DagNetwork)
    → is_own env iface from d ≡ false
    → update_node env iface from now d ≡ (seen_peer from now d, true)
unfolding update_node
update_node_peer env iface from now d own = rw (own, update_node) refl

module _ (env : Env) (iface : ℕ) (from : Addr) (now : ℕ) (dao : Dao) where
  -- What is left to do when the targets are added.
  abbrev pub finish_dao : DagNetwork → Option DagNetwork
  finish_dao d = do
    d1 ← maybe_send_dao env d
    d2 ← if dao_k dao.flags then send_daoack iface from dao.daoseq d1 else some d1
    some (count ps_packet_processed d2)

  -- On a chain of at most 2048 bytes whose targets have two bytes at least, an active DAG that
  -- receives the DAO from a peer counts it, sees the peer, and adds the targets one after the other
  -- up to one that is shorter than its prefix, a prefix of more than 128 bits being a fault; then
  -- it sends a DAO if one is needed and an acknowledgement if the bit K is set, whatever stands
  -- behind the chain.
  pub receive_dao_lem :
      (os : List SubOption) (junk old : List ℕ) (d : DagNetwork)
      → IsChain os
      → AllLong (contents rpl_dao_rpltarget os)
      → length (encode os) ≤ bytes_size
      → d.active ≡ true
      → is_own env iface from d ≡ false
      → receive_dao env iface from now dao (encode os ++ junk) (pos (length (encode os))) old d ≡ (
          take_targets env from iface
            (contents rpl_dao_rpltarget os)
            (update_node env iface from now (dao_counted d)).0
          >>= finish_dao)
  unfolding receive_dao
  receive_dao_lem os junk old d c long size active own =
      let (m, e, reset, at) = rpl_msg-LiesAt os junk old size in
      rw (update_node_peer env iface from now (dao_counted d) own, receive_dao)
        (rw active (
          rw e (
            rw
              (target_loop-take_targets env from iface target_fuel os m 0
                (record (seen_peer from now (dao_counted d)) { active = true })
                (ap (λ o. o rpl_dao_rpltarget) reset) c at long size (omega (arith, size)))
              refl)))
