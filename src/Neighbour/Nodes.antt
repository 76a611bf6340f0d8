-- ===== src/Neighbour/Nodes.antt =====
-- The neighbour that stands under a key.
use unstrung.Prelude.{◌≡◌, refl, inl, inr, false, Bool-cases, Option-cases, ap}
use unstrung.Wire.{Addr, bytes_eq, bytes_eq_refl}
use unstrung.Node.{
  RplNode, NodeMap, no_node, has_node, memory_of, new_node, find_node, node_at, put_node,
}
use unstrung.Node.Joining.{find_node-put_node}

pub node_at-put_node : (m : NodeMap) (key : Addr) (x : RplNode) → node_at (put_node m key x) key ≡ x
unfolding node_at
node_at-put_node m key x =
    rw (find_node-put_node m key key x, node_at) (rw (bytes_eq_refl key) refl)

-- A node that is put in leaves the memory for the others as it is.
memory_of-put_node :
    (m : NodeMap) (key : Addr) (x : RplNode) → memory_of (put_node m key x) ≡ memory_of m
unfolding put_node
memory_of-put_node (no_node memory) key x = refl
memory_of-put_node (has_node k old m) key x = elim (Bool-cases (bytes_eq k key)) [
  | inl e ↦ rw e refl
  | inr e ↦ rw e (memory_of-put_node m key x)
]

pub node_at-put_ne :
    (m : NodeMap) (key j : Addr) (x : RplNode)
    → bytes_eq key j ≡ false
    → node_at (put_node m key x) j ≡ node_at m j
unfolding node_at
node_at-put_ne m key j x e =
    rw (find_node-put_node m key j x, node_at)
      (rw e (elim (Option-cases (find_node m j)) [
        | inl none_here ↦
            rw (none_here, node_at)
              (ap (λ memory. new_node (memory j)) (memory_of-put_node m key x))
        | inr (n, here) ↦ rw (here, node_at) refl
      ]))
