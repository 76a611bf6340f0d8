-- ===== src/Node.antt =====
-- node.h and node.cpp: a member of a DAG or a neighbour. Names are text for the log and left out;
-- the pointers `mDN` and `debug` are kept as whether they are set.
pub mod Joining
use unstrung.Prelude.{
  ℕ, Bool, true, false, not, ◌&&◌, List, [], ◌∷◌, Option, none, some, if◌then◌else◌,
}
use unstrung.Wire.{Addr, bytes_eq}

pub record RplNode : Type 0 where
  pub addr : Addr
  pub is_inet6 : Bool
  pub has_dag : Bool
  pub has_debug : Bool
  pub valid : Bool
  pub self : Bool
  pub ifindex : ℕ
  pub lastseen : ℕ
  pub already_declined : Bool
  pub already_accepted : Bool
  pub join_query_started : Bool
  pub query_id : ℕ

-- `zero_node`
unfoldable pub zero_node : RplNode → RplNode
zero_node n = record n {
  valid = false;
  self = false;
  already_declined = false;
  already_accepted = false;
  join_query_started = false;
}

-- The default constructor calls `zero_node` and leaves the other fields as the memory has them.
unfoldable pub new_node : RplNode → RplNode
unfolding zero_node
new_node memory = zero_node memory

unfoldable pub could_be_valid : RplNode → RplNode
could_be_valid n =
    if n.valid
    then n
    else if n.has_dag && (n.has_debug && n.is_inet6)
    then record n { valid = true }
    else n

-- `makevalid(v6, dn, deb)`, told whether `dn` and `deb` are set.
unfoldable pub makevalid : RplNode → Addr → Bool → Bool → RplNode
unfolding could_be_valid
makevalid n v6 dn deb =
    if n.valid
    then n
    else could_be_valid (record n { addr = v6; is_inet6 = true; has_dag = dn; has_debug = deb })

unfoldable pub markself : RplNode → ℕ → RplNode
markself n index = record n { self = true; ifindex = index }

unfoldable pub markvalid : RplNode → ℕ → Addr → Bool → RplNode
unfolding zero_node
markvalid n index v6 deb = record (zero_node n) {
  addr = v6;
  is_inet6 = true;
  ifindex = index;
  valid = true;
  has_debug = deb;
}

unfoldable pub set_last_seen : RplNode → ℕ → RplNode
set_last_seen n clock = record n { lastseen = clock }

-- `is_equal`
unfoldable pub node_is_equal : RplNode → Addr → Bool
node_is_equal n v6 = if n.valid then bytes_eq n.addr v6 else false

unfoldable pub set_accepted : RplNode → Bool → RplNode
set_accepted n accepted =
    if accepted
    then record n { already_declined = false; already_accepted = true; join_query_started = false }
    else record n { already_declined = true; already_accepted = false; join_query_started = false }

unfoldable pub join_declined : RplNode → Bool
join_declined n = not n.join_query_started && n.already_declined

unfoldable pub join_query_in_progress : RplNode → Bool
join_query_in_progress n = n.join_query_started

unfoldable pub join_accepted : RplNode → Bool
join_accepted n = not n.join_query_started && n.already_accepted

-- `node_map`: addresses and their nodes, and the memory in which the map makes the node of an address
-- that is missing. `rpl_less` is the order of `memcmp`, under which two keys are one when their bytes
-- are equal.
pub data NodeMap : Type 0 where
  no_node : (Addr → RplNode) → NodeMap
  has_node : Addr → RplNode → NodeMap → NodeMap

unfoldable pub find_node : NodeMap → Addr → Option RplNode
find_node (no_node memory) key = none
find_node (has_node k n m) key = if bytes_eq k key then some n else find_node m key

unfoldable pub put_node : NodeMap → Addr → RplNode → NodeMap
put_node (no_node memory) key n = has_node key n (no_node memory)
put_node (has_node k old m) key n =
    if bytes_eq k key then has_node k n m else has_node k old (put_node m key n)

abbrev pub memory_of : NodeMap → Addr → RplNode
memory_of (no_node memory) = memory
memory_of (has_node k n m) = memory_of m

-- `map[key]`, which makes a node that is missing.
unfoldable pub node_at : NodeMap → Addr → RplNode
unfolding find_node
node_at m key = elim (find_node m key) [ none ↦ new_node (memory_of m key) | some n ↦ n ]
