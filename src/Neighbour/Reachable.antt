-- ===== src/Neighbour/Reachable.antt =====
-- The states of the neighbours that solicitations and answers of the registrar lead to.
use mathlib.Core.Path.{subst}
use unstrung.Prelude.{
  ℕ, ◌≡◌, inl, inr, refl, Bool, true, false, List, none, some, length, take, drop, replicate, ltb,
  if◌then◌else◌, Bool-cases, Option-cases, ap, sym, ◌∙◌, arith,
}
use unstrung.Wire.{Addr, bytes_eq, bytes_eq_iff}
use unstrung.Node.{
  RplNode, node_at, put_node, markvalid, zero_node, set_last_seen, set_accepted, join_declined,
  join_query_in_progress, join_accepted,
}
use unstrung.Stats.{
  ps_neighbour_solicit, ps_neighbour_unicast_reachability, ps_neighbour_unicast_target_ns,
  ps_neighbour_mcast_solicit, ps_neighbour_joinassistant_solicit,
  ps_neighbour_join_query_inprogress,
}
use unstrung.Grasp.{start_query_for_aro}
use unstrung.Neighbour.{
  Neighbours, World, Outcome, done, Scan, seen, count, on_node, find_neighbour,
  confirm_reachability, reply_mcast_neighbour_advert, reply_mcast_neighbour_join, answer_join,
  solicit_target, join_options, receive_neighbour_solicit, is_multicast, all_hosts_addr,
  process_grasp_reply, reply_neighbour_advert, find_by_session,
}
use unstrung.Neighbour.Nodes.{node_at-put_node, node_at-put_ne}

-- What leads from one state to another.
pub data Heard : Neighbours → Neighbours → Type 0 where
  here : (n : Neighbours) → Heard n n
  solicited :
      {n m m' : Neighbours} (fuel : ℕ) (w : World) (from ip6_to : Addr) (dat : List ℕ) (nd_len : ℕ)
      → Heard n m
      → receive_neighbour_solicit fuel w from ip6_to dat nd_len m ≡ done m'
      → Heard n m'
  answered :
      {n m m' : Neighbours} (gsi : ℕ) (success : Bool)
      → Heard n m
      → process_grasp_reply gsi success m ≡ m'
      → Heard n m'

-- No node waits for an answer.
abbrev pub IsQuiet : Neighbours → Type 0
IsQuiet n = (key : Addr) → (node_at n.nodes key).join_query_started ≡ false

abbrev pub in_progress : Neighbours → ℕ
in_progress n = n.global_stats ps_neighbour_join_query_inprogress

abbrev Keeps : Neighbours → Neighbours → Type 0
Keeps n n' = IsQuiet n → IsQuiet n' × (in_progress n' ≡ in_progress n)

Keeps-same : (n n' : Neighbours) → n'.nodes ≡ n.nodes → in_progress n' ≡ in_progress n → Keeps n n'
Keeps-same n n' nodes counter quiet =
    (λ key. ap (λ m. (node_at m key).join_query_started) nodes ∙ quiet key, counter)

Keeps-trans : (n m o : Neighbours) → Keeps n m → Keeps m o → Keeps n o
Keeps-trans n m o f g quiet =
    let (quiet', counter) = f quiet in
    let (quiet'', counter') = g quiet' in (quiet'', counter' ∙ counter)

Keeps-on_node :
    (key : Addr) (f : RplNode → RplNode) (n : Neighbours)
    → ((x : RplNode) → x.join_query_started ≡ false → (f x).join_query_started ≡ false)
    → Keeps n (on_node key f n)
Keeps-on_node key f n kept quiet = (at, refl)
  where
    at :
        (j : Addr)
        → (node_at (put_node n.nodes key (f (node_at n.nodes key))) j).join_query_started ≡ false
    at j = elim (Bool-cases (bytes_eq key j)) [
      | inr e ↦
          ap (λ (x : RplNode). x.join_query_started)
            (node_at-put_ne n.nodes key j (f (node_at n.nodes key)) e)
          ∙ quiet j
      | inl e ↦
          ap (λ k. (node_at (put_node n.nodes key (f (node_at n.nodes key))) k).join_query_started)
            (sym ((bytes_eq_iff key j).0 e))
          ∙ ap (λ (x : RplNode). x.join_query_started)
              (node_at-put_node n.nodes key (f (node_at n.nodes key)))
          ∙ kept (node_at n.nodes key) (quiet key)
    ]

markvalid_quiet :
    (x : RplNode) (index : ℕ) (key : Addr) → (markvalid x index key true).join_query_started ≡ false
unfolding markvalid zero_node
markvalid_quiet x index key = refl

if_quiet :
    (b : Bool) (x y : RplNode)
    → x.join_query_started ≡ false
    → y.join_query_started ≡ false
    → (if b then x else y).join_query_started ≡ false
if_quiet true x y p q = p
if_quiet false x y p q = q

Keeps-find_neighbour : (key : Addr) (n : Neighbours) → Keeps n (find_neighbour key n)
unfolding find_neighbour
Keeps-find_neighbour key n =
    Keeps-on_node key (λ x. if x.valid then x else markvalid x n.if_index key true) n
      (λ x q.
        if_quiet x.valid x (markvalid x n.if_index key true) q (markvalid_quiet x n.if_index key))

Keeps-confirm : (w : World) (from : Addr) (n : Neighbours) → Keeps n (confirm_reachability w from n)
unfolding confirm_reachability set_last_seen
Keeps-confirm w from n = elim (Bool-cases (bytes_eq (replicate 16 0) from)) [
  | inl e ↦ rw (e, confirm_reachability) (λ quiet. (quiet, refl))
  | inr e ↦
      rw (e, confirm_reachability)
        (Keeps-on_node from (λ x. set_last_seen (markvalid x n.if_index from true) w.clock) n
          (λ x q. markvalid_quiet x n.if_index from))
]

Keeps-reply :
    (key : Addr) (success : ℕ) (n m : Neighbours)
    → Keeps n m
    → Keeps n (reply_neighbour_advert key success m)
unfolding reply_neighbour_advert
Keeps-reply key success n m kept = kept

Keeps-mcast_advert :
    (w : World) (key from : Addr) (n : Neighbours)
    → Keeps n (reply_mcast_neighbour_advert w key from n)
unfolding reply_mcast_neighbour_advert set_last_seen
Keeps-mcast_advert w key from n = Keeps-on_node key (λ x. set_last_seen x w.clock) n (λ x q. q)

not_waiting : (x : RplNode) → x.join_query_started ≡ false → join_query_in_progress x ≡ false
unfolding join_query_in_progress
not_waiting x q = q

-- Where no node waits, the branch for a waiting one is not taken.
Keeps-answer_join :
    (w : World) (key : Addr) (eui64 : List ℕ) (n : Neighbours) → Keeps n (answer_join w key eui64 n)
unfolding answer_join
Keeps-answer_join w key eui64 n quiet =
    let this = node_at n.nodes key in
    elim (Bool-cases (join_declined this)) [
      | inl d ↦ rw (d, answer_join) (quiet, refl)
      | inr d ↦
          rw (d, answer_join)
            (rw (not_waiting this (quiet key)) (elim (Bool-cases (join_accepted this)) [
              | inl a ↦ rw a (quiet, refl)
              | inr a ↦ rw a (elim (Option-cases n.join_query_client) [
                | inl c ↦ rw c (quiet, refl)
                | inr (client, c) ↦ rw c (
                    Keeps-on_node key
                      (λ x. record x { query_id = (start_query_for_aro w.wrote eui64 client).1 }) n
                      (λ x q. q) quiet)
              ])
            ]))
    ]

abbrev KeepsIn : Neighbours → Outcome → Type 0
KeepsIn n (done n') = Keeps n n'
KeepsIn n Outcome.fault = Unit {0}
KeepsIn n Outcome.stuck = Unit {0}

Keeps-join :
    (fuel : ℕ) (w : World) (key : Addr) (dat : List ℕ) (nd_len : ℕ) (n m : Neighbours)
    → Keeps n m
    → KeepsIn n (reply_mcast_neighbour_join fuel w key dat nd_len m)
unfolding reply_mcast_neighbour_join
Keeps-join fuel w key dat nd_len n m kept = cases (join_options fuel dat nd_len 24 none) refl
  where
    cases :
        (s : Scan)
        → s ≡ join_options fuel dat nd_len 24 none
        → KeepsIn n (reply_mcast_neighbour_join fuel w key dat nd_len m)
    cases (seen (none)) e = rw (← e, reply_mcast_neighbour_join) kept
    cases (seen (some eui64)) e =
        rw (← e, reply_mcast_neighbour_join)
          (Keeps-trans n m (answer_join w key eui64 m) kept (Keeps-answer_join w key eui64 m))
    cases Scan.fault e = rw (← e, reply_mcast_neighbour_join) tt
    cases Scan.stuck e = rw (← e, reply_mcast_neighbour_join) tt

Keeps-solicit_target :
    (fuel : ℕ) (w : World) (from ip6_to key : Addr) (dat : List ℕ) (nd_len : ℕ) (n : Neighbours)
    → KeepsIn n (solicit_target fuel w from ip6_to key dat nd_len n)
unfolding solicit_target
Keeps-solicit_target fuel w from ip6_to key dat nd_len n =
    let found = find_neighbour key n in
    let first = Keeps-find_neighbour key n in
    let marked = on_node key (λ x. markvalid x found.if_index key true) found in
    let second = Keeps-trans n found marked first (
      Keeps-on_node key (λ x. markvalid x found.if_index key true) found
        (λ x q. markvalid_quiet x found.if_index key)) in
    elim (Bool-cases (bytes_eq ip6_to n.link_addr)) [
      | inl u ↦
          rw (u, solicit_target)
            (elim (Bool-cases (bytes_eq key n.link_addr)) [
              | inl t ↦
                  let m =
                    count ps_neighbour_unicast_reachability
                      (count ps_neighbour_unicast_target_ns found) in
                  rw t
                    (Keeps-trans n m (confirm_reachability w from m) first (Keeps-confirm w from m))
              | inr t ↦
                  let m = count ps_neighbour_unicast_reachability found in
                  rw t
                    (Keeps-trans n m (confirm_reachability w from m) first (Keeps-confirm w from m))
            ])
      | inr u ↦
          rw (u, solicit_target)
            (elim (Bool-cases (is_multicast ip6_to)) [
              | inl m ↦ rw m (elim (Bool-cases (bytes_eq ip6_to all_hosts_addr)) [
                | inl a ↦ rw a (
                    Keeps-join fuel w key dat nd_len n
                      (count ps_neighbour_joinassistant_solicit marked) second)
                | inr a ↦
                    let m = count ps_neighbour_mcast_solicit marked in
                    rw a (
                      Keeps-trans n m (reply_mcast_neighbour_advert w key from m) second
                        (Keeps-mcast_advert w key from m))
              ])
              | inr m ↦ rw m first
            ])
    ]

Keeps-receive :
    (fuel : ℕ) (w : World) (from ip6_to : Addr) (dat : List ℕ) (nd_len : ℕ) (n : Neighbours)
    → KeepsIn n (receive_neighbour_solicit fuel w from ip6_to dat nd_len n)
unfolding receive_neighbour_solicit
Keeps-receive fuel w from ip6_to dat nd_len n = elim (Bool-cases (ltb nd_len 24)) [
  | inl e ↦ rw (e, receive_neighbour_solicit) (λ quiet. (quiet, refl))
  | inr e ↦
      rw (e, receive_neighbour_solicit)
        (elim (Bool-cases (ltb (length dat) 24)) [
          | inl f ↦ rw f tt
          | inr f ↦ rw f (
              Keeps-solicit_target fuel w from ip6_to (take 16 (drop 8 dat)) dat nd_len
                (count ps_neighbour_solicit n))
        ])
]

set_accepted_quiet :
    (x : RplNode) (success : Bool) → (set_accepted x success).join_query_started ≡ false
unfolding set_accepted
set_accepted_quiet x success = ground arith

Keeps-answered :
    (gsi : ℕ) (success : Bool) (n : Neighbours) → Keeps n (process_grasp_reply gsi success n)
unfolding process_grasp_reply
Keeps-answered gsi success n = elim (Option-cases (find_by_session n.nodes gsi)) [
  | inl e ↦ rw (e, process_grasp_reply) (λ quiet. (quiet, refl))
  | inr (key, e) ↦
      rw (e, process_grasp_reply)
        (Keeps-on_node key (λ x. set_accepted x success) n (λ x q. set_accepted_quiet x success))
]

-- From neighbours of which none waits for an answer, any solicitations that are done and any
-- answers of the registrar, in any order, lead to neighbours of which none waits, and never count a
-- query as in progress.
pub Heard-IsQuiet :
    {n n' : Neighbours} → Heard n n' → IsQuiet n → IsQuiet n' × (in_progress n' ≡ in_progress n)
Heard-IsQuiet (here n) quiet = (quiet, refl)
Heard-IsQuiet {n} (solicited {m} {m'} fuel w from ip6_to dat nd_len heard e) quiet =
    Keeps-trans n m m' (Heard-IsQuiet heard)
      (subst (KeepsIn m) e (Keeps-receive fuel w from ip6_to dat nd_len m)) quiet
Heard-IsQuiet {n} (answered {m} {m'} gsi success heard e) quiet =
    Keeps-trans n m m' (Heard-IsQuiet heard) (subst (Keeps m) e (Keeps-answered gsi success m))
      quiet
