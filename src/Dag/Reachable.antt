-- ===== src/Dag/Reachable.antt =====
-- The messages of a DAG as a state machine: a DIO may choose a better parent, a DAO-ACK may commit
-- to it, and nothing else changes the choice.
use mathlib.Core.Path.{subst}
use unstrung.Prelude.{
  ℕ, ◌+◌, ◌≤◌, ◌≡◌, ◌⊎◌, inl, inr, refl, true, false, List, Option, none, some, sym, arith,
}
use unstrung.Prelude.Int.{ℤ}
use unstrung.Wire.{Addr}
use unstrung.Stats.{ps_dis_packet_received, ps_packet_received}
use unstrung.Dag.{DagNetwork, Env, init_dag}
use unstrung.Dag.Schedule.{is_set}
use unstrung.Dag.Parent.{Dio, count, receive_daoack}
use unstrung.Dag.Receive.{Dao, receive_dis, receive_dio, receive_dao}
use unstrung.Dag.Choice.{Choice, choice, Keeps, schedule_dio-Keeps}
use unstrung.Dag.Choosing.{adopted, Chooses, receive_dio-Chooses}
use unstrung.Dag.Received.{committed, Commits, receive_dao-Keeps, receive_daoack-Commits}

-- A message for a DAG.
pub data Received : Type 0 where
  dis : Received
  dio : ℕ → Addr → ℕ → Dio → List ℕ → ℤ → List ℕ → Received
  dao : ℕ → Addr → ℕ → Dao → List ℕ → ℤ → List ℕ → Received
  daoack : Addr → ℕ → Received

unfoldable pub handle : Env → Received → DagNetwork → Option DagNetwork
handle env dis d = receive_dis env d
handle env (dio iface from now m memory len old) d =
    receive_dio env iface from now m memory len old d
handle env (dao iface from now m memory len old) d =
    receive_dao env iface from now m memory len old d
handle env (daoack from daoseq) d = receive_daoack env from daoseq d

-- The DAGs that messages lead to, in any environments and any order.
pub data Reaches : DagNetwork → DagNetwork → Type 0 where
  start : {d : DagNetwork} → Reaches d d
  next :
      {d s s' : DagNetwork} (env : Env) (message : Received)
      → Reaches d s
      → handle env message s ≡ some s'
      → Reaches d s'

-- What holds between messages: a parent has an interface, a committed parent comes with a best
-- parent, and a DAG with a best parent lies one rank below it.
pub record IsCoherent (c : Choice) : Type 0 where
  pub parent_has_iface : is_set c.parent ≡ is_set c.parentif
  pub best_has_iface : is_set c.bestparent ≡ is_set c.bestparentif
  pub best_first : (is_set c.parent ≡ false) ⊎ (is_set c.bestparent ≡ true)
  pub one_below : (is_set c.bestparent ≡ false) ⊎ (c.my_rank ≡ c.best_rank + 1)

init_dag-IsCoherent :
    (raw : DagNetwork) (num : ℕ) (dagid : List ℕ) → IsCoherent (choice (init_dag raw num dagid))
unfolding init_dag
init_dag-IsCoherent raw num dagid = record {
  parent_has_iface = refl;
  best_has_iface = refl;
  best_first = inl refl;
  one_below = inl refl;
}

-- The invariant, and a rank that is not above the former one.
abbrev Improves : Choice → Choice → Type 0
Improves c c' = IsCoherent c' × (c'.best_rank ≤ c.best_rank)

Improves-same : (c c' : Choice) → IsCoherent c → c' ≡ c → Improves c c'
Improves-same c c' i e = subst (Improves c) (sym e) (i, omega arith)

adopted-IsCoherent :
    (peer : Addr) (iface : ℕ) (m : Dio) (d : DagNetwork)
    → IsCoherent (choice d)
    → IsCoherent (adopted peer iface m d)
adopted-IsCoherent peer iface m d i = record {
  parent_has_iface = i.parent_has_iface;
  best_has_iface = refl;
  best_first = inr refl;
  one_below = inr refl;
}

set_or_not : (o : Option Addr) → (is_set o ≡ false) ⊎ (is_set o ≡ true)
set_or_not none = inl refl
set_or_not (some a) = inr refl

committed-IsCoherent : (d : DagNetwork) → IsCoherent (choice d) → IsCoherent (committed d)
committed-IsCoherent d i = record {
  parent_has_iface = i.best_has_iface;
  best_has_iface = i.best_has_iface;
  best_first = set_or_not d.bestparent;
  one_below = i.one_below;
}

Keeps-some :
    (d d' : DagNetwork) (o : Option DagNetwork) → o ≡ some d' → Keeps d o → choice d' ≡ choice d
Keeps-some d d' o e k = subst (Keeps d) e k

receive_dis-Keeps : (env : Env) (d : DagNetwork) → Keeps d (receive_dis env d)
unfolding receive_dis
receive_dis-Keeps env d =
    schedule_dio-Keeps env 1 (count ps_dis_packet_received (count ps_packet_received d))

handle-Improves :
    (env : Env) (message : Received) (d d' : DagNetwork)
    → IsCoherent (choice d)
    → handle env message d ≡ some d'
    → Improves (choice d) (choice d')
unfolding handle
handle-Improves env dis d d' i h =
    Improves-same (choice d) (choice d') i
      (Keeps-some d d' (receive_dis env d) h (receive_dis-Keeps env d))
handle-Improves env (dao iface from now m memory len old) d d' i h =
    Improves-same (choice d) (choice d') i
      (Keeps-some d d' _ h (receive_dao-Keeps env iface from now m memory len old d))
handle-Improves env (dio iface from now m memory len old) d d' i h =
    elim (subst (Chooses from iface m d) h
      (receive_dio-Chooses env iface from now m memory len old d)) [
        | inl same ↦ Improves-same (choice d) (choice d') i same
        | inr (rank, best, own, e) ↦
            subst (Improves (choice d)) (sym e) (adopted-IsCoherent from iface m d i, rank)
      ]
handle-Improves env (daoack from daoseq) d d' i h =
    elim (subst (Commits from daoseq d) h (receive_daoack-Commits env from daoseq d)) [
      | inl same ↦ Improves-same (choice d) (choice d') i same
      | inr (best, seq, e) ↦
          subst (Improves (choice d)) (sym e) (committed-IsCoherent d i, omega arith)
    ]

Reaches-Improves :
    (d s : DagNetwork) → IsCoherent (choice d) → Reaches d s → Improves (choice d) (choice s)
Reaches-Improves d s i start = (i, omega arith)
Reaches-Improves d s i (next {s = r} env message before h) =
    let (j, rank) = Reaches-Improves d r i before in
    let (k, rank') = handle-Improves env message r s j h in (k, omega (arith, rank, rank'))

-- Whatever messages a new DAG receives, in any order and environment, a parent has an interface, a
-- best parent has one, a committed parent comes with a best parent, a DAG with a best parent has
-- the rank below it, and the best rank has not grown.
pub Reaches-init_dag :
    (raw s : DagNetwork) (num : ℕ) (dagid : List ℕ)
    → Reaches (init_dag raw num dagid) s
    → IsCoherent (choice s) × (s.best_rank ≤ (init_dag raw num dagid).best_rank)
Reaches-init_dag raw s num dagid r =
    Reaches-Improves (init_dag raw num dagid) s (init_dag-IsCoherent raw num dagid) r

-- Of two states of a DAG of which messages lead from one to the other, the later one has no higher
-- best rank.
pub Reaches-best_rank :
    (raw s s' : DagNetwork) (num : ℕ) (dagid : List ℕ)
    → Reaches (init_dag raw num dagid) s
    → Reaches s s'
    → s'.best_rank ≤ s.best_rank
Reaches-best_rank raw s s' num dagid r r' =
    (Reaches-Improves s s' (Reaches-init_dag raw s num dagid r).0 r').1
