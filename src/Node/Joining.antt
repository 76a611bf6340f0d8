-- ===== src/Node/Joining.antt =====
-- The join state of a node, when a node answers to an address, and the laws of the node map.
use unstrung.Prelude.{
  ℕ, ◌≡◌, ◌↔◌, ◌⊎◌, inl, inr, refl, Bool, true, false, not, ◌&&◌, some, if◌then◌else◌, Bool-cases,
  arith,
}
use unstrung.Wire.{Addr, bytes_eq, bytes_eq_iff}
use unstrung.Node.{
  RplNode, NodeMap, no_node, has_node, find_node, put_node, zero_node, could_be_valid, makevalid,
  markvalid, markself, set_last_seen, node_is_equal, set_accepted, join_accepted, join_declined,
}

pub find_node-put_node :
    (m : NodeMap) (key j : Addr) (n : RplNode)
    → find_node (put_node m key n) j ≡ (if bytes_eq key j then some n else find_node m j)
unfolding find_node put_node
find_node-put_node (no_node memory) key j n = refl
find_node-put_node (has_node k old m) key j n =
    ground (
      arith,
      bytes_eq_iff k key,
      bytes_eq_iff k j,
      bytes_eq_iff key j,
      find_node-put_node m key j n,
    )

-- A node is never both: accepted and declined.
abbrev pub IsExclusive : RplNode → Type 0
IsExclusive n = (n.already_accepted && n.already_declined) ≡ false

-- The answer to a join query makes a node accepted or declined as it says, and never both, whatever
-- the node was before.
pub set_accepted_decides :
    (n : RplNode) (accepted : Bool)
    → (join_accepted (set_accepted n accepted) ≡ accepted)
      × (join_declined (set_accepted n accepted) ≡ not accepted)
      × IsExclusive (set_accepted n accepted)
unfolding join_accepted join_declined set_accepted
set_accepted_decides n true = (refl, refl, refl)
set_accepted_decides n false = (refl, refl, refl)

pub IsExclusive-kept :
    (n : RplNode) (v6 : Addr) (dn deb : Bool) (index clock : ℕ)
    → IsExclusive n
    → IsExclusive (zero_node n)
      × IsExclusive (makevalid n v6 dn deb)
      × IsExclusive (markvalid n index v6 deb)
      × IsExclusive (markself n index)
      × IsExclusive (set_last_seen n clock)
unfolding zero_node makevalid markvalid markself set_last_seen could_be_valid
IsExclusive-kept n v6 dn deb index clock e = (refl, ground arith, refl, e, e)

-- After `makevalid` with a DAG and a log a node answers to the address exactly where it was not
-- valid before or had the address already.
pub node_is_equal-makevalid :
    (n : RplNode) (v6 : Addr)
    → (node_is_equal (makevalid n v6 true true) v6 ≡ true) ↔ ((n.valid ≡ false) ⊎ (n.addr ≡ v6))
unfolding node_is_equal makevalid could_be_valid
node_is_equal-makevalid n v6 = elim (Bool-cases n.valid) [
  | inl e ↦ ground (arith, bytes_eq_iff n.addr v6)
  | inr e ↦ ground (arith, bytes_eq_iff v6 v6)
]
