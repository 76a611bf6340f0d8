-- ===== src/Message/Daoack.antt =====
-- `build_daoack`: the message that it writes.
use unstrung.Prelude.{ℕ, ◌-◌, ◌%◌, ◌≤◌, ◌≡◌, refl, List, [], ◌∷◌, ◌++◌, length, arith}
use unstrung.Wire.{nd_rpl_dao_ack}
use unstrung.Dag.{DagNetwork}
use unstrung.Message.{built, build_daoack, icmp6_header}
use unstrung.Message.Writing.{zeros, write_at-zeros}

-- The 24 bytes of the message.
abbrev pub ack_bytes : DagNetwork → ℕ → List ℕ
ack_bytes d seq_num =
    icmp6_header nd_rpl_dao_ack ++ ((d.instanceid % 256) ∷ 0x80 ∷ (seq_num % 256) ∷ 0 ∷ d.dagid)

pub build_daoack_lem :
    (d : DagNetwork) (buff_len seq_num : ℕ)
    → length d.dagid ≡ 16
    → 24 ≤ buff_len
    → build_daoack d buff_len seq_num ≡ built (ack_bytes d seq_num ++ zeros (buff_len - 24)) 24
unfolding build_daoack
build_daoack_lem d buff_len seq_num id room =
    let size : length (ack_bytes d seq_num) ≡ 24 = omega (arith, id) in
    rw (write_at-zeros [] (ack_bytes d seq_num) buff_len 0 refl (omega (arith, size)), build_daoack)
      (rw size refl)
