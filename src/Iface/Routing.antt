-- ===== src/Iface/Routing.antt =====
-- A received packet and the DAGs that it does not name.
use mathlib.Core.Path.{subst}
use unstrung.Prelude.{
  ℕ, ◌+◌, ◌≡◌, ◌≢◌, inl, inr, refl, false, List, ◌∷◌, Option, some, get_elem?, drop, ◌==◌, sym, ◌∙◌,
  Bool-cases, Option-cases, arith,
}
use unstrung.Prelude.Int.{ℤ, pos, ltb_ℤ, sub_ℕ}
use unstrung.Wire.{
  daoack_d, nd_rpl_message, nd_rpl_dag_is, nd_rpl_dag_io, nd_rpl_dao, nd_rpl_dao_ack,
}
use unstrung.Dag.{Env}
use unstrung.Stats.{
  ps_dio_packet_ignored, ps_dao_packet_ignored, ps_daoack_packet_ignored,
  ps_daoack_no_dagid_ignored, ps_rpl_unknown_code,
}
use unstrung.Dag.Parent.{receive_daoack}
use unstrung.Dag.Receive.{receive_dio, receive_dao}
use unstrung.Iface.{
  Network, Packet, deliver, count_error, packet_too_short, parse_dio, parse_dao, parse_daoack,
  count_global, unsigned_less, dao_options, dao_options_len, iface_receive_dio, iface_receive_dao,
  iface_receive_daoack,
}
use unstrung.Iface.Dispatch.{dispatch, receive_packet}
use unstrung.Iface.Kept.{
  Kept, KeptIn, Kept-dags, deliver-KeptIn, deliver-watched, parse_dio-head, parse_dao-head,
  parse_daoack-head,
}

iface_receive_dio-KeptIn :
    (env : Env) (iface : ℕ) (p : Packet) (dat : List ℕ) (dat_len : ℤ) (num : ℕ) (n : Network)
    → get_elem? dat 0 ≡ some num
    → KeptIn num n (iface_receive_dio env iface p dat dat_len n)
unfolding iface_receive_dio packet_too_short
iface_receive_dio-KeptIn env iface p dat dat_len num n head =
    elim (Bool-cases (ltb_ℤ dat_len (pos 24))) [
      | inl e ↦ rw e (Kept-dags num n (count_error n) refl)
      | inr e ↦ rw e (elim (Option-cases (parse_dio dat)) [
        | inl none_read ↦ rw none_read tt
        | inr (dio, read) ↦ rw read (
            deliver-watched dat dio.dagid num dio.instanceid
              (receive_dio env iface p.from p.now dio (drop 24 dat) (unsigned_less dat_len 24)
                p.stack)
              ps_dio_packet_ignored n head (parse_dio-head dat dio read))
      ])
    ]

iface_receive_dao-KeptIn :
    (env : Env) (iface : ℕ) (p : Packet) (dat : List ℕ) (dat_len : ℤ) (num : ℕ) (n : Network)
    → get_elem? dat 0 ≡ some num
    → KeptIn num n (iface_receive_dao env iface p dat dat_len n)
unfolding iface_receive_dao packet_too_short
iface_receive_dao-KeptIn env iface p dat dat_len num n head =
    elim (Bool-cases (ltb_ℤ dat_len (pos 4))) [
      | inl e ↦ rw e (Kept-dags num n (count_error n) refl)
      | inr e ↦ rw e (elim (Option-cases (parse_dao dat)) [
        | inl none_read ↦ rw none_read tt
        | inr (dao, read) ↦
            let options = dao_options dao p dat in
            rw read (
              deliver-watched dat options.0 num dao.instanceid
                (receive_dao env iface p.from p.now dao options.1 (dao_options_len dao dat_len)
                  p.stack)
                ps_dao_packet_ignored n head (parse_dao-head dat dao read))
      ])
    ]

iface_receive_daoack-KeptIn :
    (env : Env) (p : Packet) (dat : List ℕ) (dat_len : ℤ) (num : ℕ) (n : Network)
    → get_elem? dat 0 ≡ some num
    → KeptIn num n (iface_receive_daoack env p dat dat_len n)
unfolding iface_receive_daoack packet_too_short
iface_receive_daoack-KeptIn env p dat dat_len num n head =
    elim (Bool-cases (ltb_ℤ dat_len (pos 4))) [
      | inl e ↦ rw e (Kept-dags num n (count_error n) refl)
      | inr e ↦ rw e (elim (Option-cases (parse_daoack dat)) [
        | inl none_read ↦ rw none_read tt
        | inr (ack, read) ↦ rw read (elim (Bool-cases (daoack_d ack.flags)) [
          | inr b ↦ rw b (Kept-dags num n (count_global ps_daoack_no_dagid_ignored n) refl)
          | inl b ↦
              let named = parse_daoack-head dat ack read in
              let same : ack.instanceid ≡ num = cc in
              rw b (
                subst
                  (λ k. KeptIn k n (
                    deliver ack.instanceid (receive_daoack env p.from ack.daoseq)
                      ps_daoack_packet_ignored n))
                  same
                  (deliver-KeptIn ack.instanceid (receive_daoack env p.from ack.daoseq)
                    ps_daoack_packet_ignored n n (Kept-dags ack.instanceid n n refl)))
        ])
      ])
    ]

dispatch-KeptIn :
    (env : Env) (other : Packet → Network → Option Network) (iface : ℕ) (p : Packet) (code : ℕ)
    (dat : List ℕ) (dat_len : ℤ) (num : ℕ) (n : Network)
    → get_elem? dat 0 ≡ some num
    → code ≢ nd_rpl_dag_is
    → KeptIn num n (dispatch env other iface p nd_rpl_message code dat dat_len n)
unfolding dispatch
dispatch-KeptIn env other iface p code dat dat_len num n head ne =
    elim (Bool-cases (code == nd_rpl_dag_io)) [
      | inl e ↦ rw (e, dispatch) (iface_receive_dio-KeptIn env iface p dat dat_len num n head)
      | inr e ↦ elim (Bool-cases (code == nd_rpl_dao)) [
        | inl o ↦
            rw (e, dispatch) (rw o (iface_receive_dao-KeptIn env iface p dat dat_len num n head))
        | inr o ↦ elim (Bool-cases (code == nd_rpl_dao_ack)) [
          | inl a ↦
              rw (e, dispatch)
                (rw o (rw a (iface_receive_daoack-KeptIn env p dat dat_len num n head)))
          | inr a ↦
              let not_dis : (code == nd_rpl_dag_is) ≡ false = ground arith in
              rw (e, dispatch)
                (rw o
                  (rw a (rw not_dis (Kept-dags num n (count_global ps_rpl_unknown_code n) refl))))
        ]
      ]
    ]

-- Where a RPL packet other than a DIS is received without a fault, every DAG whose instance is not
-- the fifth byte of the packet is as it was, at its place or one further on in a list that has one
-- DAG more.
pub receive_packet-Kept :
    (env : Env) (other : Packet → Network → Option Network) (iface : ℕ) (p : Packet)
    (code sum_hi sum_lo num : ℕ) (rest : List ℕ) (n n' : Network)
    → p.buffer ≡ nd_rpl_message ∷ code ∷ sum_hi ∷ sum_lo ∷ num ∷ rest
    → code ≢ nd_rpl_dag_is
    → receive_packet env other iface p n ≡ some n'
    → Kept num n n'
unfolding receive_packet
receive_packet-Kept env other iface p code sum_hi sum_lo num rest n n' buffer ne h =
    let counted = record n { recv_cnt = n.recv_cnt + 1 } in
    subst (KeptIn num n) (sym (rw buffer refl) ∙ h)
      (dispatch-KeptIn env other iface p code (num ∷ rest) (sub_ℕ p.len 4) num counted refl ne)
