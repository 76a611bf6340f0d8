-- ===== src/Iface.antt =====
-- iface.cpp and the receiving halves of dio.cpp, dao.cpp, daoack.cpp and dis.cpp: a packet is
-- taken apart and handed to the DAG that it names.
pub mod Solicited
pub mod Rounds
pub mod Exchange
pub mod Announced
pub mod Handshake
pub mod Isolation
pub mod Overrun
pub mod Dispatch
pub mod Kept
pub mod Routing
use unstrung.Prelude.{
  ℕ, zero, suc, ◌+◌, ◌-◌, ◌/◌, ◌%◌, ◌^◌, Bool, true, false, not, List, [], ◌∷◌, Option, none, some,
  get_elem?, length, take, drop, ltb, ◌==◌, if◌then◌else◌,
}
use unstrung.Prelude.Int.{ℤ, pos, negsuc, sub_ℕ, ltb_ℤ, signed32}
use unstrung.Wire.{
  Addr, ntohs, dao_d, daoack_d, nd_rpl_message, nd_rpl_dag_is, nd_rpl_dag_io, nd_rpl_dao,
  nd_rpl_dao_ack,
}
use unstrung.RplMsg.{RplMsg, Next, rpl_msg, rplsolicitedinfo}
use unstrung.Stats.{
  Stats, bump, ps_dao_packet_ignored, ps_dio_packet_ignored, ps_dag_created_for_watching,
  ps_daoack_packet_ignored, ps_daoack_no_dagid_ignored, ps_rpl_unknown_code, ps_dis_packet_ignored,
}
use unstrung.Dag.{DagNetwork, Env, init_dag, ◌>>=◌}
use unstrung.Dag.Parent.{Dio, receive_daoack}
use unstrung.Dag.Receive.{Dao, receive_dis, receive_dio, receive_dao}

-- All DAGs, the newest first, with the counters of the process and those of the interface that
-- receives; `raw` is the memory that a new `dag_network` is given.
pub record Network : Type 0 where
  pub dags : List DagNetwork
  pub global_stats : Stats
  pub watching : Bool
  pub recv_cnt : ℕ
  pub error_cnt : ℕ
  pub raw : DagNetwork

-- A packet: the source, the time, the memory of the receive buffer, the received length, and what
-- stood on the stack where a `rpl_msg` puts its copy.
pub record Packet : Type 0 where
  pub from : Addr
  pub now : ℕ
  pub buffer : List ℕ
  pub len : ℕ
  pub stack : List ℕ

abbrev pub count_global : ℕ → Network → Network
count_global k n = record n { global_stats = bump k n.global_stats }

-- Both `find_by_instanceid`: the DODAGID that one of them is given is not looked at.
unfoldable pub find_by_instanceid : ℕ → List DagNetwork → Option DagNetwork
find_by_instanceid num [] = none
find_by_instanceid num (d ∷ ds) = if d.instanceid == num then some d else find_by_instanceid num ds

-- The list after an operation on the DAG that `find_by_instanceid` finds.
unfoldable pub on_dag :
    ℕ → (DagNetwork → Option DagNetwork) → List DagNetwork → Option (List DagNetwork)
on_dag num f [] = some []
on_dag num f (d ∷ ds) = elim (d.instanceid == num) [
  | true ↦ elim (f d) [ none ↦ none | some d' ↦ some (d' ∷ ds) ]
  | false ↦ elim (on_dag num f ds) [ none ↦ none | some ds' ↦ some (d ∷ ds') ]
]

-- `find_or_make_by_instanceid(num, dagid, debug, watching)`, for the list that it leaves.
unfoldable pub find_or_make_by_instanceid : ℕ → List ℕ → Bool → Network → Network
find_or_make_by_instanceid num dagid watching n = elim (find_by_instanceid num n.dags) [
  | some d ↦ n
  | none ↦
      let made = record (init_dag n.raw num dagid) { active = false } in
      let grown = record n { dags = made ∷ n.dags } in
      if watching then count_global ps_dag_created_for_watching grown else grown
]

-- Hand a message to the DAG of an instance, or count it as ignored.
unfoldable pub deliver : ℕ → (DagNetwork → Option DagNetwork) → ℕ → Network → Option Network
deliver num f ignored n = elim (find_by_instanceid num n.dags) [
  | none ↦ some (count_global ignored n)
  | some d ↦ elim (on_dag num f n.dags) [ none ↦ none | some ds ↦ some (record n { dags = ds }) ]
]

-- `packet_too_short(thing, avail_len, needed_len)`
unfoldable pub packet_too_short : ℤ → ℕ → Bool
packet_too_short avail needed = ltb_ℤ avail (pos needed)

abbrev pub count_error : Network → Network
count_error n = record n { error_cnt = n.error_cnt + 1 }

-- The watching receivers make a DAG that they do not find.
abbrev pub watched : ℕ → List ℕ → Network → Network
watched num dagid n = if n.watching then find_or_make_by_instanceid num dagid n.watching n else n

-- The fields of `struct nd_rpl_dio`, read at a place in the buffer.
pub parse_dio : List ℕ → Option Dio
parse_dio (i ∷ v ∷ rank_hi ∷ rank_lo ∷ g ∷ t ∷ fl ∷ r ∷ rest) =
    if ltb (length rest) 16
    then none
    else some (record {
      instanceid = i;
      version = v;
      dagrank = ntohs rank_hi rank_lo;
      mopprf = g;
      dtsn = t;
      dagid = take 16 rest;
    })
parse_dio _ = none

-- A length less `k` in 32-bit arithmetic, read as an `int`. (`dio_len-sizeof(*dio)` is a `size_t`
-- that is cut to an `int`, and `dat_len` is an `unsigned int` that is passed as one.)
unfoldable pub unsigned_less : ℤ → ℕ → ℤ
unsigned_less (pos n) k = signed32 ((n + 2 ^ 32 - k) % 2 ^ 32)
unsigned_less (negsuc n) k = signed32 ((2 ^ 33 - n - 1 - k) % 2 ^ 32)

-- `network_interface::receive_dio`; `dat` and `dat_len` are the message behind the ICMPv6 header.
pub iface_receive_dio : Env → ℕ → Packet → List ℕ → ℤ → Network → Option Network
unfolding packet_too_short parse_dio deliver unsigned_less
iface_receive_dio env iface p dat dat_len n =
    if packet_too_short dat_len 24 then some (count_error n) else (do
      dio ← parse_dio dat
      deliver dio.instanceid
          (receive_dio env iface p.from p.now dio (drop 24 dat) (unsigned_less dat_len 24) p.stack)
          ps_dio_packet_ignored (watched dio.instanceid dio.dagid n))

-- `struct nd_rpl_dao` and `struct nd_rpl_daoack`, whose second byte holds the flags.
unfoldable pub parse_dao : List ℕ → Option Dao
parse_dao (i ∷ fl ∷ r ∷ seq ∷ rest) = some (record { instanceid = i; flags = fl; daoseq = seq })
parse_dao _ = none

pub parse_daoack : List ℕ → Option Dao
parse_daoack (i ∷ fl ∷ seq ∷ status ∷ rest) =
    some (record { instanceid = i; flags = fl; daoseq = seq })
parse_daoack _ = none

-- The DODAGID and what follows the fixed part: 16 more bytes where the bit D is set.
unfoldable pub dao_options : Dao → Packet → List ℕ → List ℕ × List ℕ
dao_options dao p dat =
    if dao_d dao.flags
    then (take 16 (drop 4 dat), drop 20 dat)
    else (0 ∷ take 15 p.stack, drop 4 dat)

unfoldable pub dao_options_len : Dao → ℤ → ℤ
unfolding unsigned_less
dao_options_len dao dat_len = unsigned_less dat_len (if dao_d dao.flags then 20 else 4)

unfoldable pub iface_receive_dao : Env → ℕ → Packet → List ℕ → ℤ → Network → Option Network
unfolding packet_too_short parse_dao deliver dao_options dao_options_len
iface_receive_dao env iface p dat dat_len n =
    if packet_too_short dat_len 4 then some (count_error n) else (do
      dao ← parse_dao dat
      let options = dao_options dao p dat
      deliver dao.instanceid
          (receive_dao env iface p.from p.now dao options.1 (dao_options_len dao dat_len) p.stack)
          ps_dao_packet_ignored (watched dao.instanceid options.0 n))

pub iface_receive_daoack : Env → Packet → List ℕ → ℤ → Network → Option Network
unfolding packet_too_short parse_daoack deliver
iface_receive_daoack env p dat dat_len n =
    if packet_too_short dat_len 4 then some (count_error n) else (do
      daoack ← parse_daoack dat
      if daoack_d daoack.flags
          then deliver daoack.instanceid (receive_daoack env p.from daoack.daoseq)
              ps_daoack_packet_ignored n
          else some (count_global ps_daoack_no_dagid_ignored n))

-- `rpl_dis_flags & RPL_DIS_SI_I`; with the bit D the DODAGID is given too, and not looked at.
abbrev names_instance : ℕ → Bool
names_instance flags = flags / 64 % 2 == 1

-- One solicitation of a DIS, for the instance at its third byte and the flags at its fourth.
pub solicit : Env → ℕ → ℕ → Network → Option Network
unfolding deliver
solicit env num flags n =
    if names_instance flags
    then deliver num (receive_dis env) ps_dis_packet_ignored n
    else some (count_global ps_dis_packet_ignored n)

pub solicit_loop : Env → ℕ → RplMsg → Network → Option Network
solicit_loop env zero m n = none
solicit_loop env (suc fuel) m n = elim (rplsolicitedinfo m) [
  | Next.null m' ↦ some n
  | Next.underrun m' ↦ some n
  | Next.option offset m' ↦ elim (get_elem? m'.bytes (offset + 2)) [
    | none ↦ none
    | some num ↦ elim (get_elem? m'.bytes (offset + 3)) [
      | none ↦ none
      | some flags ↦ elim (solicit env num flags n) [
        | none ↦ none
        | some n' ↦ solicit_loop env fuel m' n'
      ]
    ]
  ]
  | Next.fault ↦ none
  | Next.stuck ↦ none
]

abbrev pub solicit_fuel : ℕ
solicit_fuel = 2049

pub iface_receive_dis : Env → Packet → List ℕ → ℤ → Network → Option Network
unfolding packet_too_short unsigned_less
iface_receive_dis env p dat dat_len n =
    if packet_too_short dat_len 2 then some (count_error n) else (do
      m ← rpl_msg (drop 2 dat) (unsigned_less dat_len 2) p.stack
      solicit_loop env solicit_fuel m n)
