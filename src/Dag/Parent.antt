-- ===== src/Dag/Parent.antt =====
-- dag.cpp: the choice of a parent, and the commitment to it when its DAO-ACK arrives.
pub mod Prefixes
pub mod Rounds
use unstrung.Prelude.{
  ℕ, zero, suc, ◌+◌, Bool, false, not, ◌&&◌, ◌||◌, List, [], ◌∷◌, Option, none, some, get_elem?,
  ltb, leb, ◌==◌, if◌then◌else◌,
}
use unstrung.Prelude.Int.{ℤ}
use unstrung.Wire.{Addr, dio_grounded, dio_mop}
use unstrung.Node.{node_at, node_is_equal}
use unstrung.Prefix.{PrefixMap}
use unstrung.RplMsg.{RplMsg, Next, rpl_msg, destprefix, copy_prefix}
use unstrung.Stats.{
  bump, ps_lower_rank_considered, ps_lower_rank_rejected, ps_same_parent_ignored,
  ps_same_sequence_ignored, ps_suboption_underrun, ps_daoack_wrong_parent, ps_daoack_wrong_seqno,
}
use unstrung.Dag.{DagNetwork, Env, invalid_sequence, ◌>>=◌}
use unstrung.Dag.Schedule.{same_node, same_iface, is_set, maybe_schedule_dio, maybe_send_dao}
use unstrung.Dag.Install.{add_prefix, add_parent_route_to_prefix, add_parent_route_to_default}

-- `struct nd_rpl_dio`, with the rank in the order of the host.
pub record Dio : Type 0 where
  pub instanceid : ℕ
  pub version : ℕ
  pub dagrank : ℕ
  pub mopprf : ℕ
  pub dtsn : ℕ
  pub dagid : List ℕ

abbrev pub count : ℕ → DagNetwork → DagNetwork
count k d = record d { stats = bump k d.stats }

-- The loop over the prefix options of a DIO, with fuel; `memcpy` into `v6bytes[16]` may fault.
unfoldable pub pio_loop : Env → Addr → ℕ → ℕ → RplMsg → DagNetwork → Option DagNetwork
pio_loop env peer iface zero m d = none
pio_loop env peer iface (suc fuel) m d = elim (destprefix m) [
  | Next.null m' ↦ some d
  | Next.underrun m' ↦ some (count ps_suboption_underrun d)
  | Next.option offset m' ↦ elim (get_elem? m'.bytes (offset + 2)) [
    | none ↦ none
    | some prefixlen ↦ elim (copy_prefix m'.bytes (offset + 16) prefixlen) [
      | none ↦ none
      | some sub ↦ elim (add_prefix env peer iface sub d) [
        | none ↦ none
        | some d' ↦ pio_loop env peer iface fuel m' d'
      ]
    ]
  ]
  | Next.fault ↦ none
  | Next.stuck ↦ none
]

abbrev pub pio_fuel : ℕ
pio_fuel = 2049

-- The reasons for which `potentially_lower_rank` returns early, in the order of its tests.
unfoldable pub rejection : Addr → Dio → DagNetwork → Option ℕ
rejection peer dio d =
    if ltb d.best_rank dio.dagrank
    then some ps_lower_rank_rejected
    else if same_node d.bestparent (some peer) || same_node d.parent (some peer)
    then some ps_same_parent_ignored
    else if not (d.dtsn == invalid_sequence) && leb dio.dtsn d.dtsn
    then some ps_same_sequence_ignored
    else none

-- What is taken over from the DIO of a new best parent.
unfoldable pub adopt : Addr → ℕ → Dio → DagNetwork → DagNetwork
adopt peer iface dio d = record d {
  dtsn = dio.dtsn;
  best_rank = dio.dagrank;
  my_rank = dio.dagrank + 1;
  grounded = dio_grounded dio.mopprf;
  instanceid = dio.instanceid;
  version = dio.version;
  mode = dio_mop dio.mopprf;
  dagid = dio.dagid;
  bestparentif = some iface;
  bestparent = some peer;
}

-- What follows the choice: `memory` holds the suboptions and what stands behind them, `old` the
-- former content of the stack where `mBytes` lies.
unfoldable pub after_adoption :
    Env → Addr → ℕ → List ℕ → ℤ → List ℕ → DagNetwork → Option DagNetwork
after_adoption env peer iface memory len old d = do
  m ← rpl_msg memory len old
  d1 ← pio_loop env peer iface pio_fuel m d
  d2 ← if is_set d1.parent then maybe_schedule_dio env d1 else some d1
  maybe_send_dao env d2

unfoldable pub potentially_lower_rank :
    Env → Addr → ℕ → Dio → List ℕ → ℤ → List ℕ → DagNetwork → Option DagNetwork
unfolding rejection adopt
potentially_lower_rank env peer iface dio memory len old d =
    let considered = count ps_lower_rank_considered d in
    elim (rejection peer dio considered) [
      | some why ↦ some (count why considered)
      | none ↦ after_adoption env peer iface memory len old (adopt peer iface dio considered)
    ]

-- The source address of the routes: the first announced prefix.
pub route_source : PrefixMap → Option Addr
route_source [] = none
route_source ((k, p) ∷ m) = some p.prefix.addr

-- The routes to a parent: to the prefix of the DAG, and by default where the DAG is grounded.
unfoldable pub route_to_parent : Addr → ℕ → DagNetwork → DagNetwork
unfolding route_source
route_to_parent parent iface d =
    let src = route_source d.announced in
    let nexthop = (node_at d.members parent).addr in
    let d' = add_parent_route_to_prefix d.prefix src nexthop iface d in
    if d.grounded then add_parent_route_to_default src nexthop iface d' else d'

-- `commit_parent`; a NULL parent or interface is a fault.
unfoldable pub commit_parent : Env → DagNetwork → Option DagNetwork
unfolding route_to_parent
commit_parent env d =
    if same_iface d.bestparentif d.parentif && same_node d.bestparent d.parent then some d else (do
      parent ← d.bestparent
      iface ← d.bestparentif
      maybe_schedule_dio env (
          route_to_parent parent iface
            (record d { lastparent = d.parent; parentif = d.bestparentif; parent = d.bestparent })))

-- `!(dag_bestparent==NULL || !dag_bestparent->is_equal(from))`
unfoldable pub from_bestparent : Addr → DagNetwork → Bool
from_bestparent from d = elim d.bestparent [
  | none ↦ false
  | some parent ↦ node_is_equal (node_at d.members parent) from
]

-- `receive_daoack` with the sequence number of the message.
unfoldable pub receive_daoack : Env → Addr → ℕ → DagNetwork → Option DagNetwork
unfolding from_bestparent
receive_daoack env from daoseq d =
    if not (from_bestparent from d)
    then some (count ps_daoack_wrong_parent d)
    else if not (daoseq == d.dao_sequence)
    then some (count ps_daoack_wrong_seqno d)
    else commit_parent env d
