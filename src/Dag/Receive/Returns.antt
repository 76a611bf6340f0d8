-- ===== src/Dag/Receive/Returns.antt =====
-- A DAO without oversized prefixes is handled to its end.
use unstrung.Prelude.{
  ℕ, ◌+◌, ◌/◌, ◌≤◌, ◌≡◌, refl, true, false, ◌&&◌, List, [], ◌∷◌, ◌++◌, Option, some, length,
  get_elem?, drop, ltb, ap, ◌∙◌, inl, inr, Bool-cases, Option-cases, arith,
}
use unstrung.Prelude.Int.{pos}
use unstrung.Wire.{Addr, Subnet, dao_k, rpl_dao_rpltarget}
use unstrung.Prefix.{prefix_at}
use unstrung.RplMsg.{bytes_size}
use unstrung.RplMsg.Chain.{SubOption, encode, IsChain, AllLong}
use unstrung.RplMsg.Contents.{contents}
use unstrung.RplMsg.Reads.{padded_prefix}
use unstrung.Dag.{DagNetwork, Env, in_announced, in_prefixes, ◌>>=◌}
use unstrung.Dag.Schedule.{schedule_dao, maybe_send_dao, root_node, is_set}
use unstrung.Dag.Schedule.Alarms.{schedule_dao_due}
use unstrung.Dag.Install.{add_childnode, add_route_via_node, me_prefix}
use unstrung.Message.Daoack.{build_daoack_lem}
use unstrung.Dag.Receive.{Dao, is_own, receive_dao, send_daoack, send_built, icmp_body_size}
use unstrung.Dag.Receive.Targets.{take_targets}
use unstrung.Dag.Receive.Messages.{
  dao_counted, seen_peer, finish_dao, receive_dao_lem, update_node_peer,
}

-- Each content tells a prefix of 128 bits at most.
abbrev pub AllSound : List (List ℕ) → Type 0
AllSound [] = Unit {0}
AllSound (content ∷ rest) =
    ((prefixlen : ℕ) × (get_elem? content 1 ≡ some prefixlen) × (prefixlen ≤ 128)) × AllSound rest

-- What a call must leave for the calls that follow it.
abbrev IsReady : DagNetwork → Type 0
IsReady d = (is_set d.me ≡ true) × (length d.dagid ≡ 16)

abbrev Returns : Option DagNetwork → Type 0
Returns o = (d : DagNetwork) × (o ≡ some d) × IsReady d

Returns-some : (d : DagNetwork) → IsReady d → Returns (some d)
Returns-some d r = (d, refl, r)

Returns->>= :
    (o : Option DagNetwork) (f : DagNetwork → Option DagNetwork)
    → Returns o
    → ((d : DagNetwork) → IsReady d → Returns (f d))
    → Returns (o >>= f)
Returns->>= o f (d, e, r) k = rw e (k d r)

schedule_dao-IsReady :
    (env : Env) (d d' : DagNetwork) → schedule_dao env d ≡ some d' → IsReady d → IsReady d'
unfolding schedule_dao
schedule_dao-IsReady env d d' h r = ground arith

me_prefix-some : (d : DagNetwork) → is_set d.me ≡ true → (sub : Subnet) × (me_prefix d ≡ some sub)
unfolding me_prefix
me_prefix-some d h = elim (Option-cases d.me) [
  | inl n ↦ ground arith
  | inr (in_announced k, e) ↦ ((prefix_at d.announced k).prefix, ground arith)
  | inr (in_prefixes k, e) ↦ ((prefix_at d.prefixes k).prefix, ground arith)
]

add_childnode-Returns :
    (env : Env) (peer : Addr) (iface : ℕ) (sub : Subnet) (d : DagNetwork)
    → IsReady d
    → Returns (add_childnode env peer iface sub d)
unfolding add_childnode add_route_via_node
add_childnode-Returns env peer iface sub d r =
    elim (Bool-cases (prefix_at d.children sub).installed) [
      | inl e ↦ rw (e, add_childnode) (Returns-some _ r)
      | inr e ↦
          let (src, m) = me_prefix-some (record d { dao_needed = true }) r.0 in
          rw (e, add_childnode) (rw m (Returns-some _ r))
    ]

take_targets-Returns :
    (env : Env) (peer : Addr) (iface : ℕ) (contents : List (List ℕ)) (d : DagNetwork)
    → AllSound contents
    → IsReady d
    → Returns (take_targets env peer iface contents d)
unfolding take_targets
take_targets-Returns env peer iface [] d a r = Returns-some d r
take_targets-Returns env peer iface (content ∷ rest) d ((prefixlen, p, small), a) r =
    let fits : ltb 16 ((prefixlen + 7) / 8) ≡ false = ground arith in
    let sub = padded_prefix (drop 2 content) prefixlen in
    let (d', e, r') = add_childnode-Returns env peer iface sub d r in
    elim (Bool-cases (ltb (length content) ((prefixlen + 7) / 8 + 2))) [
      | inl short ↦ rw (p, take_targets) (rw short (Returns-some d r))
      | inr long ↦
          rw (p, take_targets)
            (rw long (rw fits (rw e (take_targets-Returns env peer iface rest d' a r'))))
    ]

schedule_dao-Returns : (env : Env) (d : DagNetwork) → IsReady d → Returns (schedule_dao env d)
schedule_dao-Returns env d r =
    let (d', e, due) = schedule_dao_due env d in (d', e, schedule_dao-IsReady env d d' e r)

maybe_send_dao-Returns : (env : Env) (d : DagNetwork) → IsReady d → Returns (maybe_send_dao env d)
unfolding maybe_send_dao
maybe_send_dao-Returns env d r = elim (Bool-cases (d.dao_needed && is_set d.bestparent)) [
  | inr e ↦ rw (e, maybe_send_dao) (Returns-some d r)
  | inl e ↦ elim (Bool-cases (root_node d)) [
    | inl root ↦ rw (e, maybe_send_dao) (rw root (Returns-some _ r))
    | inr other ↦
        let (d', s, r') = schedule_dao-Returns env d r in
        rw (e, maybe_send_dao) (rw other (rw s (Returns-some _ r')))
  ]
]

send_daoack-Returns :
    (iface : ℕ) (child : Addr) (seq_num : ℕ) (d : DagNetwork)
    → IsReady d
    → Returns (send_daoack iface child seq_num d)
unfolding send_daoack send_built
send_daoack-Returns iface child seq_num d r =
    rw (build_daoack_lem d icmp_body_size seq_num r.1 (omega arith), send_daoack) (Returns-some _ r)

finish_dao-Returns :
    (env : Env) (iface : ℕ) (from : Addr) (now : ℕ) (dao : Dao) (d : DagNetwork)
    → IsReady d
    → Returns (finish_dao env iface from now dao d)
finish_dao-Returns env iface from now dao d r =
    Returns->>= (maybe_send_dao env d) _ (maybe_send_dao-Returns env d r) (λ d1 r1.
      elim (Bool-cases (dao_k dao.flags)) [
        | inl k ↦ rw k (
            Returns->>= (send_daoack iface from dao.daoseq d1) _
              (send_daoack-Returns iface from dao.daoseq d1 r1) (λ d2 r2. Returns-some _ r2))
        | inr k ↦ rw k (Returns-some _ r1)
      ])

-- A DAO from a peer to an active DAG that has an address of its own and a DODAGID of 16 bytes,
-- whose options are a chain of at most 2048 bytes with prefixes of at most 128 bits, is handled to
-- its end: no step faults.
pub receive_dao_returns :
    (env : Env) (iface : ℕ) (from : Addr) (now : ℕ) (dao : Dao) (os : List SubOption)
    (junk old : List ℕ) (d : DagNetwork)
    → IsChain os
    → AllLong (contents rpl_dao_rpltarget os)
    → AllSound (contents rpl_dao_rpltarget os)
    → length (encode os) ≤ bytes_size
    → d.active ≡ true
    → is_own env iface from d ≡ false
    → is_set d.me ≡ true
    → length d.dagid ≡ 16
    → (d' : DagNetwork) × (receive_dao env iface from now dao
          (encode os ++ junk)
          (pos (length (encode os)))
          old
          d
        ≡ some d')
receive_dao_returns env iface from now dao os junk old d c long sound size active own me id =
    let seen = seen_peer from now (dao_counted d) in
    let (d', e, r) =
      Returns->>= (take_targets env from iface (contents rpl_dao_rpltarget os) seen)
        (finish_dao env iface from now dao)
        (take_targets-Returns env from iface (contents rpl_dao_rpltarget os) seen sound (me, id))
        (finish_dao-Returns env iface from now dao) in
    (
      d',
      receive_dao_lem env iface from now dao os junk old d c long size active own
          ∙ ap
              (λ u.
                take_targets env from iface (contents rpl_dao_rpltarget os) u.0
                >>= finish_dao env iface from now dao)
              (update_node_peer env iface from now (dao_counted d) (unfold is_own in own))
          ∙ e,
    )
