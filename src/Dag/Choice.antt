-- ===== src/Dag/Choice.antt =====
-- The parents and the ranks of a DAG: which operations change them, and how.
use unstrung.Prelude.{
  ℕ, zero, suc, ◌+◌, ◌≡◌, inl, inr, refl, ◌&&◌, List, Option, none, some, get_elem?, if◌then◌else◌,
  ◌∙◌, Bool-cases, Option-cases, arith,
}
use unstrung.Prelude.Int.{ℤ}
use unstrung.Wire.{Addr, Subnet}
use unstrung.RplMsg.{RplMsg, rpl_msg, destprefix, copy_prefix}
use unstrung.RplMsg.Steps.{Next-cases}
use unstrung.Prefix.{PrefixNode, prefix_at}
use unstrung.Dag.{set_dag_prefix, ◌>>=◌, DagNetwork, Env}
use unstrung.Dag.Schedule.{
  schedule_dio, maybe_schedule_dio, schedule_dao, maybe_send_dao, same_node, dag_rank_infinite,
  root_node, is_set,
}
use unstrung.Dag.Install.{
  configureip, add_route_via_node, add_childnode, cfg_new_node, note_prefix, own_prefix, add_prefix,
}
use unstrung.Dag.Parent.{pio_loop, pio_fuel, after_adoption}

-- What a DAG has chosen.
pub record Choice : Type 0 where
  pub parent : Option Addr
  pub parentif : Option ℕ
  pub bestparent : Option Addr
  pub bestparentif : Option ℕ
  pub best_rank : ℕ
  pub my_rank : ℕ

abbrev pub choice : DagNetwork → Choice
choice d = record {
  parent = d.parent;
  parentif = d.parentif;
  bestparent = d.bestparent;
  bestparentif = d.bestparentif;
  best_rank = d.best_rank;
  my_rank = d.my_rank;
}

-- An operation that may fault leaves the choice alone.
abbrev pub Keeps : DagNetwork → Option DagNetwork → Type 0
Keeps d none = Unit {0}
Keeps d (some d') = choice d' ≡ choice d

pub schedule_dio-Keeps : (env : Env) (msec : ℕ) (d : DagNetwork) → Keeps d (schedule_dio env msec d)
unfolding schedule_dio
schedule_dio-Keeps env msec d = elim (Bool-cases (dag_rank_infinite d)) [
  | inl e ↦ ground arith
  | inr e ↦ ground arith
]

pub Keeps-trans :
    (d d' : DagNetwork) (o : Option DagNetwork) → choice d' ≡ choice d → Keeps d' o → Keeps d o
Keeps-trans d d' none e k = tt
Keeps-trans d d' (some d'') e k = k ∙ e

-- `Keeps` along a chain of steps.
pub Keeps->>= :
    (d : DagNetwork) (o : Option DagNetwork) (f : DagNetwork → Option DagNetwork)
    → Keeps d o
    → ((d' : DagNetwork) → Keeps d' (f d'))
    → Keeps d (o >>= f)
Keeps->>= d none f k g = tt
Keeps->>= d (some d') f k g = Keeps-trans d d' (f d') k (g d')

pub maybe_schedule_dio-Keeps : (env : Env) (d : DagNetwork) → Keeps d (maybe_schedule_dio env d)
unfolding maybe_schedule_dio
maybe_schedule_dio-Keeps env d = elim (Bool-cases (same_node d.lastparent d.parent)) [
  | inl e ↦ ground arith
  | inr e ↦ elim (Option-cases (schedule_dio env 1 d)) [
    | inl n ↦ ground arith
    | inr (d', s) ↦ ground (arith, schedule_dio-Keeps env 1 d)
  ]
]

schedule_dao-Keeps : (env : Env) (d : DagNetwork) → Keeps d (schedule_dao env d)
unfolding schedule_dao
schedule_dao-Keeps env d = ground arith

pub maybe_send_dao-Keeps : (env : Env) (d : DagNetwork) → Keeps d (maybe_send_dao env d)
unfolding maybe_send_dao
maybe_send_dao-Keeps env d = elim (Bool-cases (d.dao_needed && is_set d.bestparent)) [
  | inr e ↦ ground arith
  | inl e ↦ elim (Bool-cases (root_node d)) [
    | inl r ↦ ground arith
    | inr r ↦ elim (Option-cases (schedule_dao env d)) [
      | inl n ↦ ground arith
      | inr (d', s) ↦ ground (arith, schedule_dao-Keeps env d)
    ]
  ]
]

configureip-choice :
    (env : Env) (iface : ℕ) (p : PrefixNode) (d : DagNetwork)
    → choice (configureip env iface p d).1 ≡ choice d
unfolding configureip
configureip-choice env iface p d = ground arith

cfg_new_node-choice :
    (env : Env) (key : Subnet) (iface : Option ℕ) (sub : Subnet) (d : DagNetwork)
    → choice (cfg_new_node env key iface sub d) ≡ choice d
unfolding cfg_new_node
cfg_new_node-choice env key none sub d = ground arith
cfg_new_node-choice env key (some iface) sub d = ground (arith, configureip-choice env iface)

own_prefix-choice :
    (env : Env) (peer : Addr) (iface : ℕ) (sub : Subnet) (d : DagNetwork)
    → choice (own_prefix env peer iface sub d) ≡ choice d
unfolding own_prefix
own_prefix-choice env peer iface sub d =
    ground (arith, cfg_new_node-choice env sub (some iface) sub)

note_prefix-Keeps :
    (env : Env) (peer : Addr) (sub : Subnet) (d : DagNetwork) → Keeps d (note_prefix env peer sub d)
unfolding note_prefix set_dag_prefix
note_prefix-Keeps env peer sub d = elim (Bool-cases (prefix_at d.prefixes sub).installed) [
  | inl e ↦ ground arith
  | inr e ↦ rw (e, note_prefix) (maybe_schedule_dio-Keeps env _)
]

add_prefix-Keeps :
    (env : Env) (peer : Addr) (iface : ℕ) (sub : Subnet) (d : DagNetwork)
    → Keeps d (add_prefix env peer iface sub d)
unfolding add_prefix
add_prefix-Keeps env peer iface sub d =
    Keeps->>= d (note_prefix env peer sub d) (λ d'. some (own_prefix env peer iface sub d'))
      (note_prefix-Keeps env peer sub d) (λ d'. own_prefix-choice env peer iface sub d')

add_route_via_node-choice :
    (iface : ℕ) (peer : Addr) (p q : PrefixNode) (d d' : DagNetwork)
    → add_route_via_node iface peer p d ≡ some (q, d')
    → choice d' ≡ choice d
unfolding add_route_via_node
add_route_via_node-choice iface peer p q d d' h = ground arith

pub add_childnode-Keeps :
    (env : Env) (peer : Addr) (iface : ℕ) (sub : Subnet) (d : DagNetwork)
    → Keeps d (add_childnode env peer iface sub d)
unfolding add_childnode add_route_via_node
add_childnode-Keeps env peer iface sub d = ground arith

pio_loop-Keeps :
    (env : Env) (peer : Addr) (iface fuel : ℕ) (m : RplMsg) (d : DagNetwork)
    → Keeps d (pio_loop env peer iface fuel m d)
unfolding pio_loop
pio_loop-Keeps env peer iface zero m d = tt
pio_loop-Keeps env peer iface (suc fuel) m d = elim (Next-cases (destprefix m)) [
  | inl (offset, m', r) ↦ elim (Option-cases (get_elem? m'.bytes (offset + 2))) [
    | inl n ↦ ground arith
    | inr (prefixlen, q) ↦ elim (Option-cases (copy_prefix m'.bytes (offset + 16) prefixlen)) [
      | inl n ↦ ground arith
      | inr (sub, c) ↦ elim (Option-cases (add_prefix env peer iface sub d)) [
        | inl n ↦ ground arith
        | inr (d', a) ↦ ground (
          arith,
          add_prefix-Keeps env peer iface sub d,
          Keeps-trans d d' (pio_loop env peer iface fuel m' d'),
          pio_loop-Keeps env peer iface fuel m' d',
        )
      ]
    ]
  ]
  | inr (inl (m', r)) ↦ ground arith
  | inr (inr (inl (m', r))) ↦ ground arith
  | inr (inr (inr (inl r))) ↦ ground arith
  | inr (inr (inr (inr r))) ↦ ground arith
]

scheduled :
    (env : Env) (d : DagNetwork)
    → Keeps d (if is_set d.parent then maybe_schedule_dio env d else some d)
scheduled env d = elim (Bool-cases (is_set d.parent)) [
  | inl e ↦ rw e (maybe_schedule_dio-Keeps env d)
  | inr e ↦ rw e refl
]

pub after_adoption-Keeps :
    (env : Env) (peer : Addr) (iface : ℕ) (memory : List ℕ) (len : ℤ) (old : List ℕ)
    (d : DagNetwork)
    → Keeps d (after_adoption env peer iface memory len old d)
unfolding after_adoption
after_adoption-Keeps env peer iface memory len old d =
    elim (Option-cases (rpl_msg memory len old)) [
      | inl n ↦ ground arith
      | inr (m, e) ↦
          rw (e, after_adoption)
            (Keeps->>= d (pio_loop env peer iface pio_fuel m d) _
              (pio_loop-Keeps env peer iface pio_fuel m d)
              (λ d1.
                Keeps->>= d1 _ (maybe_send_dao env) (scheduled env d1) (maybe_send_dao-Keeps env)))
    ]
