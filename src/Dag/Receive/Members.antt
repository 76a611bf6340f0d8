-- ===== src/Dag/Receive/Members.antt =====
-- The members of a DAG as messages arrive.
use mathlib.Core.Path.{subst}
use unstrung.Prelude.{
  ℕ, ◌≡◌, ◌≢◌, ◌⊎◌, ◌||◌, refl, Bool, true, false, Option, none, some, Bool-cases, Option-cases,
  inl, inr, sym, arith,
}
use unstrung.Wire.{Addr, bytes_eq, bytes_eq_iff}
use unstrung.Node.{
  RplNode, NodeMap, new_node, could_be_valid, node_at, find_node, put_node, makevalid, markself,
  set_last_seen,
}
use unstrung.Node.Joining.{find_node-put_node}
use unstrung.Dag.{DagNetwork, Env}
use unstrung.Dag.Receive.{is_own, seen_node, update_node}

-- A node that is valid has the address that it is filed under.
abbrev pub HasKey : Addr → Option RplNode → Type 0
HasKey key none = Unit {0}
HasKey key (some n) = (n.valid ≡ false) ⊎ (n.addr ≡ key)

abbrev pub IsFiled : NodeMap → Type 0
IsFiled m = (key : Addr) → HasKey key (find_node m key)

pub put_node-IsFiled :
    (m : NodeMap) (key : Addr) (n : RplNode)
    → IsFiled m
    → HasKey key (some n)
    → IsFiled (put_node m key n)
put_node-IsFiled m key n filed has j = elim (Bool-cases (bytes_eq key j)) [
  | inl e ↦
      rw (find_node-put_node m key j n)
        (rw e (subst (λ k. HasKey k (some n)) ((bytes_eq_iff key j).0 e) has))
  | inr e ↦ rw (find_node-put_node m key j n) (rw e (filed j))
]

-- A peer as its message leaves it: valid, at its address, seen at that time, not the node itself.
pub record IsSeen (from : Addr) (now : ℕ) (n : RplNode) : Type 0 where
  pub is_valid : n.valid ≡ true
  pub at_address : n.addr ≡ from
  pub just_now : n.lastseen ≡ now
  pub other : n.self ≡ false

-- The node itself as its own message leaves it: marked, with the interface, and else as before.
pub record IsMarked (iface : ℕ) (before n : RplNode) : Type 0 where
  pub marked : n.self ≡ true
  pub at_iface : n.ifindex ≡ iface
  pub same_valid : n.valid ≡ before.valid
  pub same_addr : n.addr ≡ before.addr
  pub same_time : n.lastseen ≡ before.lastseen

-- What a message leaves of a DAG, and whether its sender is answered as a peer.
abbrev pub Remembers : Env → ℕ → Addr → ℕ → DagNetwork → DagNetwork × Bool → Type 0
Remembers env iface from now d (d', is_peer) =
    IsFiled d'.members
    × ((is_peer ≡ true)
          × ((node_at d.members from).self ≡ false)
          × (from ≢ env.if_addr iface)
          × ((n : RplNode) × (find_node d'.members from ≡ some n) × IsSeen from now n)
        ⊎ (is_peer ≡ false)
          × (((node_at d.members from).self ≡ true) ⊎ (from ≡ env.if_addr iface))
          × ((n : RplNode) × (find_node d'.members from ≡ some n)
              × IsMarked iface (node_at d.members from) n))
    × ((j : Addr) → (j ≡ from) ⊎ (find_node d'.members j ≡ find_node d.members j))

node_at-HasKey : (m : NodeMap) (key : Addr) → IsFiled m → HasKey key (some (node_at m key))
unfolding node_at new_node
node_at-HasKey m key filed = elim (Option-cases (find_node m key)) [
  | inl e ↦ rw (e, node_at) (inl refl)
  | inr (n, e) ↦ rw (e, node_at) (subst (HasKey key) e (filed key))
]

makevalid-IsSeen :
    (n : RplNode) (from : Addr) (now : ℕ)
    → HasKey from (some n)
    → n.self ≡ false
    → IsSeen from now (set_last_seen (makevalid n from true true) now)
unfolding makevalid could_be_valid set_last_seen
makevalid-IsSeen n from now has other = record {
  is_valid = ground arith;
  at_address = ground arith;
  just_now = refl;
  other = ground arith;
}

module _ (m : NodeMap) (key : Addr) (n : RplNode) where
  find_node-put_node_here : find_node (put_node m key n) key ≡ some n
  find_node-put_node_here =
      rw (find_node-put_node m key key n) (rw ((bytes_eq_iff key key).1 refl) refl)

  find_node-put_node_other :
      (j : Addr) → (j ≡ key) ⊎ (find_node (put_node m key n) j ≡ find_node m j)
  find_node-put_node_other j = elim (Bool-cases (bytes_eq key j)) [
    | inl e ↦ inl (sym ((bytes_eq_iff key j).0 e))
    | inr e ↦ inr (rw (find_node-put_node m key j n) (rw e refl))
  ]

own_cases :
    (self : Bool) (from own : Addr)
    → (self || bytes_eq from own) ≡ true
    → (self ≡ true) ⊎ (from ≡ own)
own_cases true from own e = inl refl
own_cases false from own e = inr ((bytes_eq_iff from own).0 e)

peer_facts :
    (self : Bool) (from own : Addr)
    → (self || bytes_eq from own) ≡ false
    → (self ≡ false) × (from ≢ own)
peer_facts true from own e = cc
peer_facts false from own e = (refl, λ x. ground (arith, (bytes_eq_iff from own).1 x))

-- Where every valid member has the address that it is filed under, a message keeps that so. Its
-- sender is answered as a peer and is then a valid member at its address, seen at the time of the
-- message and not marked; or it was marked as the node itself or has the address of the interface,
-- is answered as no peer, and is then marked, with the interface, its validity, address and time as
-- before. Every other member stays as it is.
pub update_node-Remembers :
    (env : Env) (iface : ℕ) (from : Addr) (now : ℕ) (d : DagNetwork)
    → IsFiled d.members
    → Remembers env iface from now d (update_node env iface from now d)
unfolding update_node is_own markself
update_node-Remembers env iface from now d filed =
    let before = node_at d.members from in
    let has = node_at-HasKey d.members from filed in
    let other = find_node-put_node_other d.members from in
    let here = find_node-put_node_here d.members from in
    elim (Bool-cases (before.self || bytes_eq from (env.if_addr iface))) [
      | inl e ↦
          let marked = markself (seen_node d from) iface in
          rw (e, update_node)
            (
              put_node-IsFiled d.members from marked filed has,
              inr (
                refl,
                own_cases before.self from (env.if_addr iface) e,
                (
                  marked,
                  here marked,
                  record {
                    marked = refl;
                    at_iface = refl;
                    same_valid = refl;
                    same_addr = refl;
                    same_time = refl;
                  },
                ),
              ),
              other marked,
            )
      | inr e ↦
          let seen = set_last_seen (makevalid (seen_node d from) from true true) now in
          let facts = peer_facts before.self from (env.if_addr iface) e in
          let is_seen = makevalid-IsSeen (seen_node d from) from now has facts.0 in
          rw (e, update_node)
            (
              put_node-IsFiled d.members from seen filed (inr is_seen.at_address),
              inl (refl, facts.0, facts.1, (seen, here seen, is_seen)),
              other seen,
            )
    ]
