-- ===== src/Iface/Exchange.antt =====
-- A DAO from `build_dao` to the parent that receives it.
use mathlib.Core.Path.{subst}
use mathlib.Core.List.{append-nil}
use unstrung.Prelude.{
  ℕ, zero, suc, ◌+◌, ◌-◌, ◌*◌, ◌%◌, ◌≤◌, ◌≡◌, refl, true, false, List, [], ◌∷◌, ◌++◌, map, Option,
  none, some, length, length-take, take, drop, replicate, ap, ◌∙◌, sym, inl, inr, Option-cases,
  arith,
}
use unstrung.Prelude.Int.{pos}
use unstrung.Wire.{Addr, Subnet, rpl_dao_rpltarget, drop-append_length}
use unstrung.Prefix.{PrefixMap}
use unstrung.RplMsg.Chain.{pad, encode, IsChain, AllLong}
use unstrung.RplMsg.Contents.{contents}
use unstrung.RplMsg.Reads.{padded_prefix}
use unstrung.Dag.{DagNetwork, Env, ◌>>=◌}
use unstrung.Dag.Install.{add_childnode}
use unstrung.Iface.{parse_dao}
use unstrung.Message.{sent, dao_header, build_dao, build_target_opt}
use unstrung.Message.Dao.{
  AllAddr, target_option, dao_entries, dao_chain, next_sequence, dao_fixed, build_dao_lem, dao_sent,
  length-dao_fixed, length-dao_chain,
}
use unstrung.Dag.Receive.{icmp_body_size, Dao, is_own, receive_dao}
use unstrung.Dag.Receive.Targets.{take_targets}
use unstrung.Dag.Receive.Messages.{
  seen_peer, update_node_peer, dao_counted, finish_dao, receive_dao_lem,
}

-- The route to one address.
abbrev pub host_prefix : Subnet → Subnet
host_prefix sub = record { addr = sub.addr; maskbits = 128 }

-- The parent adds a child for each entry, in order.
pub add_children : Env → Addr → ℕ → PrefixMap → DagNetwork → Option DagNetwork
add_children env peer iface [] s = some s
add_children env peer iface ((key, p) ∷ entries) s =
    elim (add_childnode env peer iface (host_prefix p.prefix) s) [
      | none ↦ none
      | some s' ↦ add_children env peer iface entries s'
    ]

target_contents : PrefixMap → List (List ℕ)
target_contents [] = []
target_contents ((key, p) ∷ entries) = build_target_opt p.prefix ∷ target_contents entries

take_all {ℓ} : {A : Type ℓ} (xs : List A) (n : ℕ) → length xs ≤ n → take n xs ≡ xs
take_all [] zero h = refl
take_all [] (suc n) h = refl
take_all (x ∷ xs) zero h = absurd (omega arith)
take_all (x ∷ xs) (suc n) h = ap (λ t. x ∷ t) (take_all xs n (omega (arith, h)))

padded_host :
    (sub : Subnet) → length sub.addr ≡ 16 → padded_prefix (take 16 sub.addr) 128 ≡ host_prefix sub
unfolding padded_prefix
padded_host sub h =
    let all = take_all sub.addr 16 (omega arith) in
    λ i. record { addr = (append-nil _ ∙ ap (take 16) all ∙ all) i; maskbits = 128 }

contents_padding : (n : ℕ) → contents rpl_dao_rpltarget (replicate n pad) ≡ []
unfolding contents
contents_padding zero = refl
contents_padding (suc n) = contents_padding n

contents-dao_targets :
    (entries : PrefixMap) (n : ℕ)
    → contents rpl_dao_rpltarget (map target_option entries ++ replicate n pad)
      ≡ target_contents entries
unfolding contents target_option target_contents
contents-dao_targets [] n = contents_padding n
contents-dao_targets ((key, p) ∷ entries) n =
    ap (λ t. build_target_opt p.prefix ∷ t) (contents-dao_targets entries n)

IsChain-padding : (n : ℕ) → IsChain (replicate n pad)
IsChain-padding zero = tt
IsChain-padding (suc n) = IsChain-padding n

IsChain-dao_targets :
    (entries : PrefixMap) (n : ℕ) → IsChain (map target_option entries ++ replicate n pad)
unfolding target_option build_target_opt
IsChain-dao_targets [] n = IsChain-padding n
IsChain-dao_targets ((key, p) ∷ entries) n =
    (λ e. absurd (omega arith), omega arith, IsChain-dao_targets entries n)

AllLong-target_contents : (entries : PrefixMap) → AllLong (target_contents entries)
unfolding target_contents build_target_opt
AllLong-target_contents [] = tt
AllLong-target_contents ((key, p) ∷ entries) = (omega arith, AllLong-target_contents entries)

module _ (env : Env) (peer : Addr) (iface : ℕ) where
  take_targets-target_contents :
      (entries : PrefixMap) (s : DagNetwork)
      → AllAddr entries
      → take_targets env peer iface (target_contents entries) s
        ≡ add_children env peer iface entries s
  unfolding take_targets target_contents add_children build_target_opt
  take_targets-target_contents [] s a = refl
  take_targets-target_contents ((key, p) ∷ entries) s a =
      elim (Option-cases (add_childnode env peer iface (host_prefix p.prefix) s)) [
        | inl e ↦ ground (arith, padded_host p.prefix, length-take 16 p.prefix.addr)
        | inr (s', e) ↦ ground (
          arith,
          padded_host p.prefix,
          length-take 16 p.prefix.addr,
          take_targets-target_contents entries s',
        )
      ]

-- The number that the receiver reads, and the flags K and D.
abbrev pub dao_read : DagNetwork → Dao
dao_read d = record {
  instanceid = d.instanceid % 256;
  flags = 0xc0;
  daoseq = next_sequence d % 256;
}

drop-dao_fixed :
    (d : DagNetwork) (ys : List ℕ) → length d.dagid ≡ 16 → drop 24 (dao_fixed d ++ ys) ≡ ys
drop-dao_fixed d ys id =
    ap (λ n. drop n (dao_fixed d ++ ys)) (sym (length-dao_fixed d id))
    ∙ drop-append_length (dao_fixed d) ys

sent-build_dao :
    (d : DagNetwork)
    → length d.dagid ≡ 16
    → AllAddr (dao_entries d)
    → 24 + 20 * length (dao_entries d) ≤ icmp_body_size
    → sent (build_dao d icmp_body_size).1 ≡ dao_fixed d ++ encode (dao_chain d)
sent-build_dao d id a room =
    ap (λ r. sent r.1) (build_dao_lem d icmp_body_size id a room)
    ∙ dao_sent d (icmp_body_size - 24 - 20 * length (dao_entries d)) id a (omega arith)

contents-dao_chain :
    (d : DagNetwork) → contents rpl_dao_rpltarget (dao_chain d) ≡ target_contents (dao_entries d)
unfolding dao_chain
contents-dao_chain d = contents-dao_targets (dao_entries d) _

IsChain-dao_chain : (d : DagNetwork) → IsChain (dao_chain d)
unfolding dao_chain
IsChain-dao_chain d = IsChain-dao_targets (dao_entries d) _

-- For a child whose DODAGID and addresses have 16 bytes and whose entries fit the buffer of 2048
-- bytes, a parent that receives what `build_dao` made reads the instance, the flags and the low
-- byte of the sequence number that the child keeps, and, where it is active and the sender is a
-- peer, adds exactly the child's entries as host routes, in order, and then goes on as after any
-- DAO.
pub receive_dao-build_dao :
    (env : Env) (iface : ℕ) (from : Addr) (now : ℕ) (d s : DagNetwork) (old : List ℕ)
    → length d.dagid ≡ 16
    → AllAddr (dao_entries d)
    → 24 + 20 * length (dao_entries d) ≤ icmp_body_size
    → s.active ≡ true
    → is_own env iface from s ≡ false
    → let message = sent (build_dao d icmp_body_size).1 in
      (parse_dao (drop 4 message) ≡ some (dao_read d))
      × ((build_dao d icmp_body_size).0.dao_sequence ≡ next_sequence d)
      × (receive_dao env iface from now
            (dao_read d)
            (drop 24 message)
            (pos (length (drop 24 message)))
            old
            s
          ≡ (add_children env from iface (dao_entries d) (seen_peer from now (dao_counted s))
              >>= finish_dao env iface from now (dao_read d)))
receive_dao-build_dao env iface from now d s old id a room active own =
    let chain = dao_chain d in
    let entries = dao_entries d in
    let long = subst AllLong (sym (contents-dao_chain d)) (AllLong-target_contents entries) in
    rw (sent-build_dao d id a room, drop-dao_fixed d (encode chain) id)
      (
        unfold dao_header parse_dao in refl,
        unfold build_dao in refl,
        ap (λ t. receive_dao env iface from now (dao_read d) t (pos (length (encode chain))) old s)
              (sym (append-nil (encode chain)))
            ∙ receive_dao_lem env iface from now (dao_read d) chain [] old s (IsChain-dao_chain d)
                long (omega (arith, length-dao_chain d a)) active own
            ∙ ap (λ o. o >>= finish_dao env iface from now (dao_read d))
                (ap (λ u. take_targets env from iface (contents rpl_dao_rpltarget chain) u.0)
                    (update_node_peer env iface from now (dao_counted s) (unfold is_own in own))
                  ∙ ap (λ c. take_targets env from iface c (seen_peer from now (dao_counted s)))
                      (contents-dao_chain d)
                  ∙ take_targets-target_contents env from iface entries
                      (seen_peer from now (dao_counted s)) a),
      )
