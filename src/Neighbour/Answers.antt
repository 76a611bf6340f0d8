-- ===== src/Neighbour/Answers.antt =====
-- The answer of the registrar to a query, and what the node is told.
use unstrung.Prelude.{
  ℕ, ◌≡◌, ◌<◌, ◌%◌, inl, inr, refl, Bool, true, false, not, List, [], ◌∷◌, ◌++◌, none, some, length,
  length-append, length-drop, drop, ◌==◌, if◌then◌else◌, Bool-cases, Option-cases, ap, ◌∙◌, arith,
}
use unstrung.Wire.{Addr, bytes_eq, bytes_eq_iff, bytes_eq_refl}
use unstrung.Node.{
  RplNode, NodeMap, no_node, has_node, node_at, put_node, set_accepted, markvalid, join_accepted,
  join_declined,
}
use unstrung.Node.Joining.{set_accepted_decides}
use unstrung.Grasp.{GraspClient, start_query_for_aro}
use unstrung.Neighbour.{
  Neighbours, World, Sent, on_node, find_neighbour, find_by_session, process_grasp_reply,
  reply_neighbour_advert,
}
use unstrung.Neighbour.Nodes.{node_at-put_node, node_at-put_ne}
use unstrung.Neighbour.Joining.{take_whole, pad_none}
use unstrung.Neighbour.Solicits.{target_marked}
use unstrung.Neighbour.Asking.{queried}

-- A second node under a key replaces the first.
put_node-put_node :
    (m : NodeMap) (key : Addr) (x y : RplNode)
    → put_node (put_node m key x) key y ≡ put_node m key y
unfolding put_node
put_node-put_node (no_node memory) key x y = rw (bytes_eq_refl key) refl
put_node-put_node (has_node k old m) key x y = elim (Bool-cases (bytes_eq k key)) [
  | inl e ↦ rw (e, put_node) (rw e refl)
  | inr e ↦ rw (e, put_node) (rw e (ap (λ ns. has_node k old ns) (put_node-put_node m key x y)))
]

free_cons :
    (k : Addr) (old : RplNode) (m : NodeMap) (gsi : ℕ)
    → find_by_session (has_node k old m) gsi ≡ none
    → ((old.query_id == gsi) ≡ false) × (find_by_session m gsi ≡ none)
unfolding find_by_session
free_cons k old m gsi free = ground arith

-- A session that no node has is found at the node that is given it.
find_by_session-put_node :
    (m : NodeMap) (key : Addr) (x : RplNode) (gsi : ℕ)
    → find_by_session m gsi ≡ none
    → x.query_id ≡ gsi
    → find_by_session (put_node m key x) gsi ≡ some key
unfolding find_by_session put_node
find_by_session-put_node (no_node memory) key x gsi free here = ground (arith, here)
find_by_session-put_node (has_node k old m) key x gsi free here =
    let (other, none_left) = free_cons k old m gsi free in
    let mine : (x.query_id == gsi) ≡ true = ground arith in
    elim (Bool-cases (bytes_eq k key)) [
      | inl e ↦
          rw (e, put_node)
            (rw (none_left, find_by_session) (rw mine (ap some ((bytes_eq_iff k key).0 e))))
      | inr e ↦
          rw (e, put_node)
            (rw (find_by_session-put_node m key x gsi none_left here, find_by_session)
              (rw other refl))
    ]

-- The advertisement that a node is told by: its own address, and an ARO with the status.
abbrev pub verdict : Addr → ℕ → Sent
verdict nodeip status = record {
  dest = nodeip;
  message =
      136
      ∷ 0
      ∷ 0
      ∷ 0
      ∷ 0x60
      ∷ 0
      ∷ 0
      ∷ 0
      ∷ (nodeip ++ (33 ∷ 16 ∷ status ∷ 0 ∷ 0 ∷ 0 ∷ 0 ∷ 0 ∷ drop 8 nodeip));
}

reply_neighbour_advert-verdict :
    (key : Addr) (status : ℕ) (n : Neighbours)
    → length (node_at n.nodes key).addr ≡ 16
    → status < 256
    → (reply_neighbour_advert key status n).sent
      ≡ n.sent ++ (verdict (node_at n.nodes key).addr status ∷ [])
unfolding reply_neighbour_advert
reply_neighbour_advert-verdict key status n long small =
    let ip = (node_at n.nodes key).addr in
    let half : length (drop 8 ip) ≡ 8 = omega (arith, long, length-drop 8 ip) in
    let byte : status % 256 ≡ status = omega (arith, small) in
    rw (take_whole ip 16 long) (
      rw (take_whole (drop 8 ip) 8 half) (
        rw byte (
          rw
            (pad_none (verdict ip status).message (
              omega (
                arith,
                long,
                half,
                length-append ip (33 ∷ 16 ∷ status ∷ 0 ∷ 0 ∷ 0 ∷ 0 ∷ 0 ∷ drop 8 ip),
              )))
            refl)))

set_accepted-addr : (x : RplNode) (success : Bool) → (set_accepted x success).addr ≡ x.addr
unfolding set_accepted
set_accepted-addr x success = ground arith

-- An answer for a session that a node of 16 bytes has settles that node, tells it, and leaves the
-- others as they are.
pub process_grasp_reply_lem :
    (gsi : ℕ) (success : Bool) (n : Neighbours) (key : Addr)
    → find_by_session n.nodes gsi ≡ some key
    → length (node_at n.nodes key).addr ≡ 16
    → let n' = process_grasp_reply gsi success n in
      (join_accepted (node_at n'.nodes key) ≡ success)
      × (join_declined (node_at n'.nodes key) ≡ not success)
      × (n'.sent ≡ n.sent ++ (verdict (node_at n.nodes key).addr (if success then 0 else 253) ∷ []))
      × ((j : Addr) → bytes_eq key j ≡ false → node_at n'.nodes j ≡ node_at n.nodes j)
unfolding process_grasp_reply
process_grasp_reply_lem gsi success n key found long =
    let rn = node_at n.nodes key in
    let told = on_node key (λ x. set_accepted x success) n in
    let at : node_at told.nodes key ≡ set_accepted rn success =
      node_at-put_node n.nodes key (set_accepted rn success) in
    let same : (node_at told.nodes key).addr ≡ rn.addr =
      ap (λ (x : RplNode). x.addr) at ∙ set_accepted-addr rn success in
    let (yes_or_no, no_or_yes, exclusive) = set_accepted_decides rn success in
    rw (found, process_grasp_reply)
      (
        ap join_accepted at ∙ yes_or_no,
        ap join_declined at ∙ no_or_yes,
        reply_neighbour_advert-verdict key (if success then 0 else 253) told (ap length same ∙ long)
              (ground arith)
            ∙ ap (λ ip. n.sent ++ (verdict ip (if success then 0 else 253) ∷ [])) same,
        λ j other. node_at-put_ne n.nodes key j (set_accepted rn success) other,
      )

-- The node map after a query, as one node put under the target.
pub queried-nodes :
    (w : World) (link eui64 : List ℕ) (n : Neighbours) (client : GraspClient)
    → (x : RplNode) × ((queried w link eui64 client (target_marked link n)).nodes
        ≡ put_node n.nodes link x)
      × (x.query_id ≡ (start_query_for_aro w.wrote eui64 client).1)
      × (x.addr ≡ link)
unfolding find_neighbour markvalid
queried-nodes w link eui64 n client =
    let found = find_neighbour link n in
    let before = node_at n.nodes link in
    let kept = if before.valid then before else markvalid before n.if_index link true in
    let marked = markvalid (node_at found.nodes link) n.if_index link true in
    let x = record (node_at (put_node found.nodes link marked) link) {
      query_id = (start_query_for_aro w.wrote eui64 client).1;
    } in
    (
      x,
      put_node-put_node found.nodes link marked x ∙ put_node-put_node n.nodes link kept x,
      refl,
      ap (λ (y : RplNode). y.addr) (node_at-put_node found.nodes link marked),
    )

-- The answer to a query, in any state whose nodes are those after it.
pub process_grasp_reply-put_node :
    (m : Neighbours) (before : NodeMap) (link : Addr) (x : RplNode) (gsi : ℕ) (success : Bool)
    → m.nodes ≡ put_node before link x
    → x.query_id ≡ gsi
    → x.addr ≡ link
    → length link ≡ 16
    → find_by_session before gsi ≡ none
    → let told = process_grasp_reply gsi success m in
      (join_accepted (node_at told.nodes link) ≡ success)
      × (join_declined (node_at told.nodes link) ≡ not success)
      × (told.sent ≡ m.sent ++ (verdict link (if success then 0 else 253) ∷ []))
process_grasp_reply-put_node m before link x gsi success nodes id addr long free =
    let at : (node_at m.nodes link).addr ≡ link =
      ap (λ ns. (node_at ns link).addr) nodes
      ∙ ap (λ (y : RplNode). y.addr) (node_at-put_node before link x)
      ∙ addr in
    let found : find_by_session m.nodes gsi ≡ some link =
      ap (λ ns. find_by_session ns gsi) nodes
      ∙ find_by_session-put_node before link x gsi free id in
    let (accepted, declined, sent, others) =
      process_grasp_reply_lem gsi success m link found (ap length at ∙ long) in
    (
      accepted,
      declined,
      sent ∙ ap (λ ip. m.sent ++ (verdict ip (if success then 0 else 253) ∷ [])) at,
    )

pub process_grasp_reply-client :
    (gsi : ℕ) (success : Bool) (n : Neighbours)
    → (process_grasp_reply gsi success n).join_query_client ≡ n.join_query_client
unfolding process_grasp_reply
process_grasp_reply-client gsi success n = elim (Option-cases (find_by_session n.nodes gsi)) [
  | inl e ↦ rw (e, process_grasp_reply) refl
  | inr (key, e) ↦ rw (e, process_grasp_reply) refl
]
