-- ===== src/Dag/Received.antt =====
-- What a DAO and a DAO-ACK do to the choice of a parent.
use native.Mathlib.Decide.{ℕ_discrete}
use unstrung.Prelude.{
  eq_true, eq_false, ℕ, zero, suc, ◌+◌, ◌≡◌, ◌⊎◌, inl, inr, refl, true, ◌&&◌, List, Option, none,
  some, get_elem?, if◌then◌else◌, Bool-cases, Option-cases, arith,
}
use unstrung.Prelude.Int.{ℤ}
use unstrung.Wire.{Addr, dao_k}
use unstrung.RplMsg.{RplMsg, rpl_msg, rpltarget, copy_prefix}
use unstrung.RplMsg.Steps.{Next-cases}
use unstrung.Dag.{DagNetwork, Env, ◌>>=◌}
use unstrung.Dag.Schedule.{maybe_send_dao, same_node, same_iface}
use unstrung.Dag.Install.{add_childnode, add_parent_route_to_prefix, add_parent_route_to_default}
use unstrung.Dag.Parent.{route_to_parent, commit_parent, from_bestparent, receive_daoack}
use unstrung.Dag.Receive.{
  Dao, update_node, receive_dao, target_loop, target_fuel, send_daoack, send_built,
}
use unstrung.Dag.Choice.{
  Choice, choice, Keeps, Keeps->>=, Keeps-trans, maybe_schedule_dio-Keeps, maybe_send_dao-Keeps,
  add_childnode-Keeps,
}
use unstrung.Dag.Receive.Messages.{dao_counted, finish_dao}
use unstrung.Dag.Choosing.{update_node-choice}

target_loop-Keeps :
    (env : Env) (peer : Addr) (iface fuel : ℕ) (m : RplMsg) (d : DagNetwork)
    → Keeps d (target_loop env peer iface fuel m d)
unfolding target_loop
target_loop-Keeps env peer iface zero m d = tt
target_loop-Keeps env peer iface (suc fuel) m d = elim (Next-cases (rpltarget m)) [
  | inl (offset, m', r) ↦ elim (Option-cases (get_elem? m'.bytes (offset + 3))) [
    | inl n ↦ ground arith
    | inr (prefixlen, q) ↦ elim (Option-cases (copy_prefix m'.bytes (offset + 4) prefixlen)) [
      | inl n ↦ ground arith
      | inr (sub, c) ↦ elim (Option-cases (add_childnode env peer iface sub d)) [
        | inl n ↦ ground arith
        | inr (d', a) ↦ ground (
          arith,
          add_childnode-Keeps env peer iface sub d,
          Keeps-trans d d' (target_loop env peer iface fuel m' d'),
          target_loop-Keeps env peer iface fuel m' d',
        )
      ]
    ]
  ]
  | inr (inl (m', r)) ↦ ground arith
  | inr (inr (inl (m', r))) ↦ ground arith
  | inr (inr (inr (inl r))) ↦ ground arith
  | inr (inr (inr (inr r))) ↦ ground arith
]

send_daoack-Keeps :
    (iface : ℕ) (child : Addr) (seq_num : ℕ) (d : DagNetwork)
    → Keeps d (send_daoack iface child seq_num d)
unfolding send_daoack send_built
send_daoack-Keeps iface child seq_num d = ground arith

acknowledged :
    (iface : ℕ) (from : Addr) (dao : Dao) (d : DagNetwork)
    → Keeps d (if dao_k dao.flags then send_daoack iface from dao.daoseq d else some d)
acknowledged iface from dao d = elim (Bool-cases (dao_k dao.flags)) [
  | inl e ↦ rw e (send_daoack-Keeps iface from dao.daoseq d)
  | inr e ↦ rw e refl
]

-- The targets, the DAO that follows and the acknowledgement.
dao_rest :
    (env : Env) (iface : ℕ) (from : Addr) (dao : Dao) (m : RplMsg) (d : DagNetwork)
    → Keeps d (target_loop env from iface target_fuel m d >>= finish_dao env iface from 0 dao)
dao_rest env iface from dao m d =
    Keeps->>= d (target_loop env from iface target_fuel m d) (finish_dao env iface from 0 dao)
      (target_loop-Keeps env from iface target_fuel m d)
      (λ d1.
        Keeps->>= d1 (maybe_send_dao env d1) _ (maybe_send_dao-Keeps env d1)
          (λ d2. Keeps->>= d2 _ _ (acknowledged iface from dao d2) (λ d3. refl)))

-- A DAO that is handled leaves the parents and the ranks of the DAG as they are.
pub receive_dao-Keeps :
    (env : Env) (iface : ℕ) (from : Addr) (now : ℕ) (dao : Dao) (memory : List ℕ) (len : ℤ)
    (old : List ℕ) (d : DagNetwork)
    → Keeps d (receive_dao env iface from now dao memory len old d)
unfolding receive_dao
receive_dao-Keeps env iface from now dao memory len old d =
    let seen : DagNetwork = (update_node env iface from now (dao_counted d)).0 in
    let same : choice seen ≡ choice d = update_node-choice env iface from now (dao_counted d) in
    elim (Bool-cases (update_node env iface from now (dao_counted d)).1) [
      | inr self ↦ rw (self, receive_dao) same
      | inl peer ↦ elim (Bool-cases seen.active) [
        | inr e ↦ rw (peer, receive_dao) (rw e same)
        | inl e ↦ elim (Option-cases (rpl_msg memory len old)) [
          | inl n ↦ rw (peer, receive_dao) (rw e (rw n tt))
          | inr (m, r) ↦
              rw (peer, receive_dao)
                (rw e (rw r (Keeps-trans d seen _ same (dao_rest env iface from dao m seen))))
        ]
      ]
    ]

-- The choice after the commitment to the best parent.
abbrev pub committed : DagNetwork → Choice
committed d = record (choice d) { parent = d.bestparent; parentif = d.bestparentif }

abbrev pub Commits : Addr → ℕ → DagNetwork → Option DagNetwork → Type 0
Commits from daoseq d none = Unit {0}
Commits from daoseq d (some d') =
    (choice d' ≡ choice d)
    ⊎ ((from_bestparent from d ≡ true) × (daoseq ≡ d.dao_sequence) × (choice d' ≡ committed d))

route_to_parent-choice :
    (parent : Addr) (iface : ℕ) (d : DagNetwork)
    → choice (route_to_parent parent iface d) ≡ choice d
unfolding route_to_parent add_parent_route_to_default add_parent_route_to_prefix
route_to_parent-choice parent iface d = ground arith

-- A step that reads an option first.
Keeps-read {ℓ} :
    {A : Type ℓ} (s : DagNetwork) (o : Option A) (f : A → Option DagNetwork)
    → ((a : A) → Keeps s (f a))
    → Keeps s (o >>= f)
Keeps-read s none f k = tt
Keeps-read s (some a) f k = k a

-- The state in which `commit_parent` installs its routes.
abbrev committing : DagNetwork → DagNetwork
committing d = record d { lastparent = d.parent; parentif = d.bestparentif; parent = d.bestparent }

Keeps-Commits :
    (from : Addr) (daoseq : ℕ) (d : DagNetwork) (o : Option DagNetwork)
    → from_bestparent from d ≡ true
    → daoseq ≡ d.dao_sequence
    → Keeps (committing d) o
    → Commits from daoseq d o
Keeps-Commits from daoseq d none b q k = tt
Keeps-Commits from daoseq d (some d') b q k = inr (b, q, k)

commit_parent-Commits :
    (env : Env) (from : Addr) (daoseq : ℕ) (d : DagNetwork)
    → from_bestparent from d ≡ true
    → daoseq ≡ d.dao_sequence
    → Commits from daoseq d (commit_parent env d)
unfolding commit_parent
commit_parent-Commits env from daoseq d b q =
    elim (Bool-cases (same_iface d.bestparentif d.parentif && same_node d.bestparent d.parent)) [
      | inl e ↦ rw (e, commit_parent) (inl refl)
      | inr e ↦
          rw (e, commit_parent)
            (Keeps-Commits from daoseq d _ b q (
              Keeps-read (committing d) d.bestparent _ (λ parent.
                Keeps-read (committing d) d.bestparentif _ (λ iface.
                  Keeps-trans (committing d) (route_to_parent parent iface (committing d)) _
                    (route_to_parent-choice parent iface (committing d))
                    (maybe_schedule_dio-Keeps env _)))))
    ]

-- A DAO-ACK that is handled leaves the parents and the ranks as they are, or it comes from the best
-- parent with the number of the last DAO, and then the best parent and its interface become the
-- parent and its interface.
pub receive_daoack-Commits :
    (env : Env) (from : Addr) (daoseq : ℕ) (d : DagNetwork)
    → Commits from daoseq d (receive_daoack env from daoseq d)
unfolding receive_daoack
receive_daoack-Commits env from daoseq d = elim (Bool-cases (from_bestparent from d)) [
  | inr e ↦ rw (e, receive_daoack) (inl refl)
  | inl e ↦ elim (ℕ_discrete daoseq d.dao_sequence) [
    | no other ↦ rw (e, receive_daoack) (rw (eq_false daoseq d.dao_sequence other) (inl refl))
    | yes same ↦
        rw (e, receive_daoack)
          (rw (eq_true daoseq d.dao_sequence same) (commit_parent-Commits env from daoseq d e same))
  ]
]
