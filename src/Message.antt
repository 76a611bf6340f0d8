-- ===== src/Message.antt =====
-- The messages that a DAG sends: dio.cpp, dao.cpp, daoack.cpp and dis.cpp.
pub mod Writing
pub mod Dio
pub mod Dao
pub mod Daoack
use mathlib.Core.List.{foldl}
use unstrung.Prelude.{
  ℕ, zero, suc, ◌+◌, ◌-◌, ◌*◌, ◌/◌, ◌%◌, ◌^◌, bit_or, Bool, true, false, List, [], ◌∷◌, ◌++◌, map,
  Option, none, some, length, take, drop, replicate, ltb, if◌then◌else◌, min,
}
use unstrung.Wire.{
  Addr, Subnet, high_byte, low_byte, nd_rpl_message, nd_rpl_dag_is, nd_rpl_dag_io, nd_rpl_dao,
  nd_rpl_dao_ack, rpl_dao_rpltarget, rpl_dis_solicitedinfo, rpl_dio_destprefix,
}
use unstrung.Prefix.{PrefixNode, PrefixMap}
use unstrung.Dag.{DagNetwork, ◌>>=◌}

-- A write into a buffer; `none` is a write behind its end.
pub write_at : List ℕ → ℕ → List ℕ → Option (List ℕ)
write_at buff pos xs =
    if ltb (length buff) (pos + length xs)
    then none
    else some (take pos buff ++ (xs ++ drop (pos + length xs) buff))

-- `memset(buff, 0, buff_len)` and the ICMPv6 header, with a checksum of 0.
abbrev pub icmp6_header : ℕ → List ℕ
icmp6_header code = nd_rpl_message ∷ code ∷ 0 ∷ 0 ∷ []

-- `len = (len + 7)&(~0x7)`
abbrev pub round_up_8 : ℕ → ℕ
round_up_8 len = (len + 7) / 8 * 8

-- `append_suboption(buff, buff_len, type)` at `pos`: what follows the type and length bytes of
-- `optbuff`. The answer is the buffer and where the next option goes; a failed append returns -1,
-- which the callers handle.
pub data Append : Type 0 where
  appended : List ℕ → ℕ → Append
  refused fault : Append

pub append_suboption : List ℕ → ℕ → ℕ → ℕ → List ℕ → Append
append_suboption buff pos avail type content =
    if ltb avail (length content + 2)
    then refused
    else elim (write_at buff pos (type ∷ (length content % 256) ∷ content)) [
      | none ↦ fault
      | some buff' ↦ appended buff' (pos + (length content + 2))
    ]

-- `htonl`
abbrev pub be32 : ℕ → List ℕ
be32 x = (x / 2 ^ 24 % 256) ∷ (x / 2 ^ 16 % 256) ∷ (x / 2 ^ 8 % 256) ∷ (x % 256) ∷ []

-- `build_prefix_dioopt`: bytes 2 to 31 of `optbuff`. The loop copies at most 129 bytes out of an
-- address of 16.
pub build_prefix_dioopt : ℕ → Subnet → Option (List ℕ)
build_prefix_dioopt lifetime sub =
    let n = min ((sub.maskbits + 7) / 8) 129 in
    if ltb (length sub.addr) n
    then none
    else some (
        (sub.maskbits % 256)
        ∷ 0x40
        ∷ (be32 lifetime
            ++ (be32 lifetime ++ (0 ∷ 0 ∷ 0 ∷ 0 ∷ (take n sub.addr ++ replicate (16 - n) 0)))))

-- A message that is ready: the buffer and the length to send. `refused` is a return of -1.
pub data Built : Type 0 where
  built : List ℕ → ℕ → Built
  refused fault : Built

-- The bytes that a sender hands to the socket.
abbrev pub sent : Built → List ℕ
sent (built buff len) = take len buff
sent Built.refused = []
sent Built.fault = []

abbrev finish : Append → Built
finish (appended buff pos) = built buff (round_up_8 pos)
finish Append.refused = Built.refused
finish Append.fault = Built.fault

-- The bytes of `struct nd_rpl_dio`.
unfoldable pub dio_header : DagNetwork → List ℕ
dio_header d =
    (d.instanceid % 256)
    ∷ (d.version % 256)
    ∷ high_byte d.my_rank
    ∷ low_byte d.my_rank
    ∷ (bit_or (if d.grounded then 0x80 else 0) (d.mode * 8) % 256)
    ∷ (d.dtsn % 256)
    ∷ 0
    ∷ 0
    ∷ d.dagid

-- `build_dio`, and the state with `mDTSN++`. The check of `append_suboption` is given the length
-- of the option itself, not the room in the buffer.
pub build_dio : DagNetwork → ℕ → Subnet → DagNetwork × Built
unfolding dio_header
build_dio d buff_len sub =
    let buff = replicate buff_len 0 in
    (
      record d { dtsn = (d.dtsn + 1) % 2 ^ 16 },
      elim (write_at buff 0 (icmp6_header nd_rpl_dag_io ++ dio_header d)) [
        | none ↦ Built.fault
        | some buff' ↦ elim (build_prefix_dioopt d.dio_lifetime sub) [
          | none ↦ Built.fault
          | some content ↦
              finish (append_suboption buff' 28 (length content + 2) rpl_dio_destprefix content)
        ]
      ],
    )

-- `build_target_opt` sends the whole address, whatever the length of the prefix.
unfoldable pub build_target_opt : Subnet → List ℕ
build_target_opt sub = 0 ∷ 128 ∷ take 16 sub.addr

-- One round of the loops of `build_dao`: `nextopt += nextoptlen`, where a refusal is -1.
pub dao_target : ℕ → Option (List ℕ × ℕ) → Subnet × PrefixNode → Option (List ℕ × ℕ)
dao_target buff_len none entry = none
dao_target buff_len (some (buff, pos)) (key, p) =
    elim (append_suboption buff pos (buff_len - pos) rpl_dao_rpltarget
      (build_target_opt p.prefix)) [
        | appended buff' pos' ↦ some (buff', pos')
        | Append.refused ↦ some (buff, pos - 1)
        | Append.fault ↦ none
      ]

unfoldable pub dao_header : DagNetwork → ℕ → List ℕ
dao_header d seq = (d.instanceid % 256) ∷ 0xc0 ∷ 0 ∷ (seq % 256) ∷ d.dagid

-- `build_dao`, and the state with `++mDAOSequence`.
unfoldable pub build_dao : DagNetwork → ℕ → DagNetwork × Built
unfolding dao_header dao_target
build_dao d buff_len =
    let seq = (d.dao_sequence + 1) % 2 ^ 16 in
    let start = write_at (replicate buff_len 0) 0 (icmp6_header nd_rpl_dao ++ dao_header d seq) in
    (
      record d { dao_sequence = seq },
      elim (foldl (dao_target buff_len) (start >>= λ buff. some (buff, 24))
          (d.children ++ d.announced)) [
            | none ↦ Built.fault
            | some (buff, pos) ↦ built buff (round_up_8 pos)
          ],
    )

-- `build_daoack(buff, buff_len, seq_num)`
pub build_daoack : DagNetwork → ℕ → ℕ → Built
build_daoack d buff_len seq_num =
    elim (write_at (replicate buff_len 0) 0 (
      icmp6_header nd_rpl_dao_ack
      ++ ((d.instanceid % 256) ∷ 0x80 ∷ (seq_num % 256) ∷ 0 ∷ d.dagid))) [
        | none ↦ Built.fault
        | some buff ↦ built buff (round_up_8 24)
      ]

-- `build_info_disopt`: only the bit I is set, and the DODAGID and version are 0.
pub build_info_disopt : DagNetwork → List ℕ
build_info_disopt d = (d.instanceid % 256) ∷ 0x40 ∷ replicate 17 0

pub build_dis : DagNetwork → ℕ → Built
unfolding build_info_disopt
build_dis d buff_len =
    elim (write_at (replicate buff_len 0) 0 (icmp6_header nd_rpl_dag_is ++ (0 ∷ 0 ∷ []))) [
      | none ↦ Built.fault
      | some buff ↦ finish (append_suboption buff 6 21 rpl_dis_solicitedinfo (build_info_disopt d))
    ]
