-- ===== src/Dag/Choosing.antt =====
-- What a DIO does to the choice of a parent.
use mathlib.Core.Path.{subst}
use unstrung.Sequence.{seq_update}
use unstrung.Prelude.{
  ℕ, ◌+◌, ◌≤◌, ◌≡◌, ◌⊎◌, inl, inr, refl, true, false, List, Option, none, some, ap, ◌∙◌, Bool-cases,
  Option-cases, arith,
}
use unstrung.Prelude.Int.{ℤ}
use unstrung.Wire.{Addr}
use unstrung.Stats.{ps_dio_packet_received, ps_packet_received, ps_lower_rank_considered}
use unstrung.Dag.{DagNetwork, Env, ◌>>=◌}
use unstrung.Dag.Schedule.{same_node}
use unstrung.Dag.Parent.{Dio, count, rejection, adopt, potentially_lower_rank}
use unstrung.Dag.Receive.{update_node, dio_is_old, process_dio, receive_dio}
use unstrung.Dag.Choice.{Choice, choice, Keeps, after_adoption-Keeps}

-- The choice after a DIO was taken.
abbrev adopt_choice : Addr → ℕ → Dio → Choice → Choice
adopt_choice peer iface dio c = record c {
  bestparent = some peer;
  bestparentif = some iface;
  best_rank = dio.dagrank;
  my_rank = dio.dagrank + 1;
}

abbrev pub adopted : Addr → ℕ → Dio → DagNetwork → Choice
adopted peer iface dio d = adopt_choice peer iface dio (choice d)

-- The two ways in which a DIO leaves the choice of an active or passive DAG.
abbrev pub Chooses : Addr → ℕ → Dio → DagNetwork → Option DagNetwork → Type 0
Chooses peer iface dio d none = Unit {0}
Chooses peer iface dio d (some d') =
    (choice d' ≡ choice d)
    ⊎ ((dio.dagrank ≤ d.best_rank)
        × (same_node d.bestparent (some peer) ≡ false)
        × (same_node d.parent (some peer) ≡ false)
        × (choice d' ≡ adopted peer iface dio d))

rejection-none :
    (peer : Addr) (dio : Dio) (d : DagNetwork)
    → rejection peer dio d ≡ none
    → (dio.dagrank ≤ d.best_rank)
      × (same_node d.bestparent (some peer) ≡ false)
      × (same_node d.parent (some peer) ≡ false)
unfolding rejection
rejection-none peer dio d e = ground arith

Keeps-Chooses :
    (peer : Addr) (iface : ℕ) (dio : Dio) (d s : DagNetwork) (o : Option DagNetwork)
    → rejection peer dio d ≡ none
    → choice s ≡ adopted peer iface dio d
    → Keeps s o
    → Chooses peer iface dio d o
Keeps-Chooses peer iface dio d s none e a k = tt
Keeps-Chooses peer iface dio d s (some d') e a k =
    let (rank, best, own) = rejection-none peer dio d e in inr (rank, best, own, k ∙ a)

pub potentially_lower_rank-Chooses :
    (env : Env) (peer : Addr) (iface : ℕ) (dio : Dio) (memory : List ℕ) (len : ℤ) (old : List ℕ)
    (d : DagNetwork)
    → Chooses peer iface dio d (potentially_lower_rank env peer iface dio memory len old d)
unfolding potentially_lower_rank
potentially_lower_rank-Chooses env peer iface dio memory len old d =
    let considered = count ps_lower_rank_considered d in
    elim (Option-cases (rejection peer dio considered)) [
      | inr (why, e) ↦ rw (e, potentially_lower_rank) (inl refl)
      | inl e ↦
          rw (e, potentially_lower_rank)
            (Keeps-Chooses peer iface dio considered (adopt peer iface dio considered) _ e
              (unfold adopt in refl)
              (after_adoption-Keeps env peer iface memory len old
                (adopt peer iface dio considered)))
    ]

Chooses-counted :
    (peer : Addr) (iface k : ℕ) (dio : Dio) (d : DagNetwork) (o : Option DagNetwork)
    → Chooses peer iface dio d o
    → Chooses peer iface dio d (o >>= λ d'. some (count k d'))
Chooses-counted peer iface k dio d none c = tt
Chooses-counted peer iface k dio d (some d') c = c

process_dio-Chooses :
    (env : Env) (iface : ℕ) (peer : Addr) (dio : Dio) (memory : List ℕ) (len : ℤ) (old : List ℕ)
    (d : DagNetwork)
    → Chooses peer iface dio d (process_dio env iface peer dio memory len old d)
unfolding process_dio
process_dio-Chooses env iface peer dio memory len old d = elim (Bool-cases d.active) [
  | inr e ↦ rw (e, process_dio) (inl refl)
  | inl e ↦
      rw (e, process_dio)
        (Chooses-counted peer iface _ dio (record d { active = true }) _
          (potentially_lower_rank-Chooses env peer iface dio memory len old
            (record d { active = true })))
]

pub update_node-choice :
    (env : Env) (iface : ℕ) (from : Addr) (now : ℕ) (d : DagNetwork)
    → choice (update_node env iface from now d).0 ≡ choice d
unfolding update_node
update_node-choice env iface from now d = ground arith

Chooses-from :
    (peer : Addr) (iface : ℕ) (dio : Dio) (d s : DagNetwork) (o : Option DagNetwork)
    → choice s ≡ choice d
    → Chooses peer iface dio s o
    → Chooses peer iface dio d o
Chooses-from peer iface dio d s none e c = tt
Chooses-from peer iface dio d s (some d') e (inl same) = inl (same ∙ e)
Chooses-from peer iface dio d s (some d') e (inr (rank, best, own, a)) = inr (
  subst (λ c. dio.dagrank ≤ c.best_rank) e rank,
  subst (λ c. same_node c.bestparent (some peer) ≡ false) e best,
  subst (λ c. same_node c.parent (some peer) ≡ false) e own,
  a ∙ ap (adopt_choice peer iface dio) e,
)

-- A DIO that is handled leaves the parents and the ranks as they are, or its rank is not above the
-- best one and its sender neither the best parent nor the parent, and then the sender is the best
-- parent on the interface, the best rank is the rank of the DIO and the own rank one more, while
-- the parent stays.
pub receive_dio-Chooses :
    (env : Env) (iface : ℕ) (from : Addr) (now : ℕ) (dio : Dio) (memory : List ℕ) (len : ℤ)
    (old : List ℕ) (d : DagNetwork)
    → Chooses from iface dio d (receive_dio env iface from now dio memory len old d)
unfolding receive_dio
receive_dio-Chooses env iface from now dio memory len old d =
    let counted : DagNetwork = count ps_dio_packet_received (count ps_packet_received d) in
    elim (Bool-cases (dio_is_old dio counted)) [
      | inl e ↦ rw (e, receive_dio) (inl refl)
      | inr e ↦
          let seen : DagNetwork = (update_node env iface from now counted).0 in
          let same : choice seen ≡ choice d = update_node-choice env iface from now counted in
          elim (Bool-cases (update_node env iface from now counted).1) [
            | inr self ↦ rw (e, receive_dio) (rw self (inl same))
            | inl peer ↦
                rw (e, receive_dio)
                  (rw peer (
                    Chooses-from from iface dio d seen _ same (
                      process_dio-Chooses env iface from dio memory len old
                        (record seen { last_seq = seq_update seen.last_seq dio.dtsn }))))
          ]
    ]
