-- ===== src/Iface/Handshake.antt =====
-- The DAO of a child, the DAO-ACK of its parent, and what the child makes of it.
use native.Mathlib.Decide.{dec_lt}
use unstrung.Prelude.{
  ltb, ℕ, ◌%◌, ◌≤◌, ◌≡◌, refl, true, some, length, drop, if◌then◌else◌, eq_true, eq_false, arith,
}
use unstrung.Wire.{Addr, daoack_d}
use unstrung.Stats.{ps_daoack_wrong_seqno}
use unstrung.Dag.{DagNetwork, Env}
use unstrung.Dag.Parent.{count, from_bestparent, commit_parent, receive_daoack}
use unstrung.Dag.Receive.{Dao, icmp_body_size}
use unstrung.Message.{sent, build_dao, build_daoack}
use unstrung.Message.Daoack.{build_daoack_lem}
use unstrung.Message.Dao.{next_sequence}
use unstrung.Iface.{parse_daoack}

-- For a sender that is the best parent, the acknowledgement with the low byte of the number of the
-- DAO that was built last commits the child to its parent where the 16-bit counter is below 256,
-- and is counted as a wrong number where it is not.
pub receive_daoack-build_dao :
    (env : Env) (from : Addr) (d : DagNetwork)
    → from_bestparent from (build_dao d icmp_body_size).0 ≡ true
    → let child = (build_dao d icmp_body_size).0 in
      receive_daoack env from (next_sequence d % 256) child ≡ (
        if ltb (next_sequence d) 256
        then commit_parent env child
        else some (count ps_daoack_wrong_seqno child))
unfolding receive_daoack
receive_daoack-build_dao env from d b =
    let child = (build_dao d icmp_body_size).0 in
    let kept : child.dao_sequence ≡ next_sequence d = unfold build_dao in refl in
    elim (dec_lt (next_sequence d) 256) [
      | yes small ↦ ground (arith, eq_true (next_sequence d % 256) child.dao_sequence)
      | no wide ↦ ground (arith, eq_false (next_sequence d % 256) child.dao_sequence)
    ]

-- With a DODAGID of 16 bytes and a buffer of 24 bytes at least, the DAO-ACK that a parent builds is
-- read back with the low bytes of the instance and of the number and with the bit D.
pub parse_daoack-build_daoack :
    (d : DagNetwork) (buff_len seq_num : ℕ)
    → length d.dagid ≡ 16
    → 24 ≤ buff_len
    → (ack : Dao) × (parse_daoack (drop 4 (sent (build_daoack d buff_len seq_num))) ≡ some ack)
      × (ack.instanceid ≡ d.instanceid % 256)
      × (daoack_d ack.flags ≡ true)
      × (ack.daoseq ≡ seq_num % 256)
unfolding parse_daoack
parse_daoack-build_daoack d buff_len seq_num id room = (
  record { instanceid = d.instanceid % 256; flags = 0x80; daoseq = seq_num % 256 },
  rw (build_daoack_lem d buff_len seq_num id room) refl,
  refl,
  refl,
  refl,
)
