-- ===== src/Dag.antt =====
-- dag.h: the state of one DAG, and what its operations ask of the rest of the system.
-- A pointer to a node or to a prefix is the key of the map that holds it, a pointer to an
-- interface is the interface's index.
pub mod Schedule
pub mod Install
pub mod Parent
pub mod Receive
pub mod Choice
pub mod Choosing
pub mod Received
pub mod Reachable
use unstrung.Prelude.{ℕ, ◌-◌, ◌^◌, Bool, true, false, List, [], ◌∷◌, ◌++◌, Option, none, some}
use unstrung.Wire.{Addr, Subnet}
use unstrung.Node.{no_node, memory_of, NodeMap}
use unstrung.Prefix.{PrefixMap}
use unstrung.Stats.{Stats}
use unstrung.Timer.{Timeval}

-- `RANK_INFINITE`, `INVALID_SEQUENCE` and `UINT_MAX`.
abbrev pub rank_infinite : ℕ
rank_infinite = 65537

abbrev pub invalid_sequence : ℕ
invalid_sequence = 257

abbrev pub uint_max : ℕ
uint_max = 2 ^ 32 - 1

abbrev pub rpl_dio_storing_no_multicast : ℕ
rpl_dio_storing_no_multicast = 2

abbrev pub rpl_dio_storing_multicast : ℕ
rpl_dio_storing_multicast = 3

-- `rpl_event::event_types`
pub data EventType : Type 0 where
  send_dio send_dao : EventType

pub record RplEvent : Type 0 where
  pub event_type : EventType
  pub alarm_time : Timeval
  pub repeat_sec : ℕ
  pub repeat_msec : ℕ

-- What `nisystem` is given: the `ip` commands of netlink.cpp.
pub data Command : Type 0 where
  addr_del addr_add : Subnet → Command
  route_del : Subnet → Command
  route_add_via : Subnet → Addr → ℕ → Option Addr → Command
  route_add_unreachable : Subnet → Command
  route_show : Command

pub data Effect : Type 0 where
  command : Command → Effect
  requeue : RplEvent → Effect
  send_icmp : ℕ → Option Addr → List ℕ → Effect

-- `prefix_node *dag_me` points into one of two maps.
pub data PrefixRef : Type 0 where
  in_announced in_prefixes : Subnet → PrefixRef

pub record DagNetwork : Type 0 where
  pub dagid : List ℕ
  pub active : Bool
  pub ignore_pio : Bool
  pub prefix_set : Bool
  pub last_seq : ℕ
  pub my_rank : ℕ
  pub best_rank : ℕ
  pub prefix : Subnet
  pub iid : Option Addr
  pub device_identity : Option Addr
  pub children : PrefixMap
  pub prefixes : PrefixMap
  pub announced : PrefixMap
  pub dao_needed : Bool
  pub me : Option PrefixRef
  pub members : NodeMap
  pub parent : Option Addr
  pub parentif : Option ℕ
  pub lastparent : Option Addr
  pub bestparent : Option Addr
  pub bestparentif : Option ℕ
  pub mode : ℕ
  pub dtsn : ℕ
  pub dao_sequence : ℕ
  pub instanceid : ℕ
  pub version : ℕ
  pub dio_lifetime : ℕ
  pub grounded : Bool
  pub interval_msec : ℕ
  pub send_dio_event : Option RplEvent
  pub send_dao_event : Option RplEvent
  pub stats : Stats
  -- What the operations have asked of the system so far, oldest first.
  pub out : List Effect

-- What the operations read of the system: `gettimeofday`, the faked time, `terminating_soon`,
-- the `if_addr` and `link_local()` of an interface, `isvalidsubnet`, and the loopback interface.
pub record Env : Type 0 where
  pub clock : Timeval
  pub faked : Option Timeval
  pub terminating_soon : Bool
  pub if_addr : ℕ → Addr
  pub link_local : ℕ → Addr
  pub valid_subnet : Subnet → Bool
  pub has_loopback : Bool

-- `none` is a fault: an access through NULL or outside an array.
infixl 5 ◌>>=◌
abbrev pub ◌>>=◌ {ℓ κ} : {A : Type ℓ} {B : Type κ} → Option A → (A → Option B) → Option B
none >>= f = none
some a >>= f = f a

abbrev pub emit : Effect → DagNetwork → DagNetwork
emit e d = record d { out = d.out ++ (e ∷ []) }

-- `init_dag` with what the constructors set; what they leave unset is the argument `raw`.
unfoldable pub init_dag : DagNetwork → ℕ → List ℕ → DagNetwork
init_dag raw num n_dagid = record raw {
  instanceid = num;
  dagid = n_dagid;
  last_seq = 0;
  my_rank = uint_max;
  best_rank = uint_max;
  version = 1;
  ignore_pio = false;
  send_dio_event = none;
  send_dao_event = none;
  device_identity = none;
  stats = λ k. 0;
  mode = rpl_dio_storing_multicast;
  dao_sequence = 1;
  dtsn = invalid_sequence;
  me = none;
  prefix_set = false;
  parent = none;
  parentif = none;
  lastparent = none;
  bestparent = none;
  bestparentif = none;
  children = [];
  prefixes = [];
  announced = [];
  members = no_node (memory_of raw.members);
}

-- The setters that a configuration or a DIO uses.
pub set_active : DagNetwork → DagNetwork
set_active d = record d { active = true }

pub set_dagrank : DagNetwork → ℕ → DagNetwork
set_dagrank d rank = record d { my_rank = rank; best_rank = rank }

pub set_dag_prefix : DagNetwork → Subnet → DagNetwork
set_dag_prefix d sub = record d { prefix = sub; prefix_set = true }

pub set_explicit_iid : DagNetwork → Addr → DagNetwork
set_explicit_iid d addr = record d { iid = some addr }
