-- ===== src/Tests.antt =====
-- Concrete data for the examples: addresses, DAGs, messages and a system that answers.
pub mod Wires
pub mod Dags
pub mod Packets
pub mod Times
pub mod Links
pub mod Networks
pub mod Heaps
pub mod Neighbours
pub mod Interfaces
pub mod Devices
use unstrung.Prelude.{ℕ, Bool, true, false, List, [], ◌∷◌, ◌++◌, Option, none, some, replicate}
use unstrung.Wire.{Addr, Subnet}
use unstrung.Node.{RplNode, no_node, has_node, new_node, makevalid}
use unstrung.Prefix.{PrefixNode}
use unstrung.Timer.{Timeval}
use unstrung.RplMsg.{RplMsg, reset_options}
use unstrung.RplMsg.Chain.{SubOption, pad, opt}
use unstrung.Dag.{DagNetwork, Env, RplEvent, init_dag, in_announced}
use unstrung.Dag.Parent.{Dio}
use unstrung.Dag.Receive.{Dao}
use unstrung.Iface.{Network, Packet}

-- fe80::n
abbrev pub link_local_addr : ℕ → Addr
link_local_addr n = 0xfe ∷ 0x80 ∷ (replicate 13 0 ++ (n ∷ []))

abbrev pub ula : ℕ → Subnet
ula maskbits = record { addr = 0xfd ∷ (replicate 14 1 ++ (7 ∷ [])); maskbits = maskbits }

abbrev pub dodagid : List ℕ
dodagid = replicate 16 0x61

-- The memory of a new node.
abbrev pub stack_node : Addr → RplNode
stack_node key = record {
  addr = replicate 16 0x55;
  is_inet6 = false;
  has_dag = true;
  has_debug = false;
  valid = true;
  self = true;
  ifindex = 77;
  lastseen = 78;
  already_declined = true;
  already_accepted = true;
  join_query_started = true;
  query_id = 79;
}

abbrev pub blank_dag : DagNetwork
blank_dag = record {
  dagid = [];
  active = false;
  ignore_pio = false;
  prefix_set = false;
  last_seq = 0;
  my_rank = 0;
  best_rank = 0;
  prefix = record { addr = []; maskbits = 0 };
  iid = none;
  device_identity = none;
  children = [];
  prefixes = [];
  announced = [];
  dao_needed = false;
  me = none;
  members = no_node stack_node;
  parent = none;
  parentif = none;
  lastparent = none;
  bestparent = none;
  bestparentif = none;
  mode = 0;
  dtsn = 0;
  dao_sequence = 0;
  instanceid = 0;
  version = 0;
  dio_lifetime = 0;
  grounded = false;
  interval_msec = 0;
  send_dio_event = none;
  send_dao_event = none;
  stats = λ k. 0;
  out = [];
}

abbrev pub entry : PrefixNode
entry = record { prefix = ula 128; valid = true; installed = true; announced_from = none }

-- A DAG of the instance 7 with an address of its own and a best parent.
abbrev pub live_dag : DagNetwork
live_dag = record blank_dag {
  dagid = dodagid;
  active = true;
  my_rank = 3;
  best_rank = 2;
  announced = (ula 128, entry) ∷ [];
  me = some (in_announced (ula 128));
  members =
      has_node (link_local_addr 1)
        (makevalid (new_node (stack_node (link_local_addr 1))) (link_local_addr 1) true true)
        (no_node stack_node);
  bestparent = some (link_local_addr 1);
  bestparentif = some 0;
  mode = 3;
  dtsn = 257;
  dao_sequence = 4;
  instanceid = 7;
  version = 1;
}

abbrev pub system : Env
system = record {
  clock = record { sec = 1000; usec = 999000 };
  faked = none;
  terminating_soon = false;
  if_addr = λ i. link_local_addr 9;
  link_local = λ i. link_local_addr 9;
  valid_subnet = λ s. true;
  has_loopback = true;
}

-- The options of a DAO: padding and one target of 128 bits.
abbrev pub target_options : List SubOption
target_options = pad ∷ opt 5 (0 ∷ 128 ∷ replicate 16 1) ∷ []

abbrev pub old_stack : List ℕ
old_stack = replicate 2048 0

abbrev pub a_dao : Dao
a_dao = record { instanceid = 7; flags = 0xc0; daoseq = 5 }

abbrev pub a_dio : Dio
a_dio = record {
  instanceid = 7;
  version = 1;
  dagrank = 1;
  mopprf = 0x98;
  dtsn = 3;
  dagid = dodagid;
}

abbrev pub a_network : Network
a_network = record {
  dags = live_dag ∷ record live_dag { instanceid = 8 } ∷ [];
  global_stats = λ k. 0;
  watching = false;
  recv_cnt = 0;
  error_cnt = 0;
  raw = blank_dag;
}

abbrev pub a_packet : Packet
a_packet = record {
  from = link_local_addr 2;
  now = 12;
  buffer = 155 ∷ 2 ∷ 0 ∷ 0 ∷ 7 ∷ 0xc0 ∷ 0 ∷ 5 ∷ [];
  len = 8;
  stack = old_stack;
}
