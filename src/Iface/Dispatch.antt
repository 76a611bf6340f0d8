-- ===== src/Iface/Dispatch.antt =====
-- iface.cpp (receive_packet): a packet by its ICMPv6 type and code.
use unstrung.Prelude.{ℕ, ◌+◌, not, List, Option, some, get_elem?, drop, ◌==◌, if◌then◌else◌}
use unstrung.Prelude.Int.{ℤ, sub_ℕ}
use unstrung.Wire.{nd_rpl_message, nd_rpl_dag_is, nd_rpl_dag_io, nd_rpl_dao, nd_rpl_dao_ack}
use unstrung.Stats.{ps_rpl_unknown_code, ps_dis_packet_ignored}
use unstrung.Dag.{Env, ◌>>=◌}
use unstrung.Iface.{
  Network, Packet, count_global, iface_receive_dio, iface_receive_dao, iface_receive_daoack,
  iface_receive_dis,
}

-- `receive_packet` on the ICMPv6 type and code; `other` stands for the neighbour discovery
-- messages, which are not RPL.
unfoldable pub dispatch :
    Env
    → (Packet → Network → Option Network)
    → ℕ
    → Packet
    → ℕ
    → ℕ
    → List ℕ
    → ℤ
    → Network
    → Option Network
dispatch env other iface p type code dat dat_len n =
    if not (type == nd_rpl_message)
    then other p n
    else if code == nd_rpl_dag_io
    then iface_receive_dio env iface p dat dat_len n
    else if code == nd_rpl_dao
    then iface_receive_dao env iface p dat dat_len n
    else if code == nd_rpl_dao_ack
    then iface_receive_daoack env p dat dat_len n
    else if code == nd_rpl_dag_is
    then iface_receive_dis env p dat dat_len (count_global ps_dis_packet_ignored n)
    else some (count_global ps_rpl_unknown_code n)

unfoldable pub receive_packet :
    Env → (Packet → Network → Option Network) → ℕ → Packet → Network → Option Network
unfolding dispatch
receive_packet env other iface p n = do
  type ← get_elem? p.buffer 0
  code ← get_elem? p.buffer 1
  dispatch env other iface p type code (drop 4 p.buffer) (sub_ℕ p.len 4)
      (record n { recv_cnt = n.recv_cnt + 1 })
