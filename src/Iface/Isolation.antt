-- ===== src/Iface/Isolation.antt =====
-- The list of DAGs around an operation on one of them.
use mathlib.Core.Path.{subst}
use unstrung.Prelude.{
  ==_iff, ℕ, zero, suc, ◌≡◌, ◌≢◌, ◌⊎◌, inl, inr, refl, Bool, false, List, [], ◌∷◌, Option, none,
  some, get_elem?, length, ◌==◌, ap, sym, ◌∙◌, Bool-cases, Option-cases, arith,
}
use unstrung.Dag.{DagNetwork, init_dag}
use unstrung.Iface.{Network, on_dag, deliver, find_by_instanceid, find_or_make_by_instanceid}

-- A list that has the DAGs of other instances at their places, unchanged.
abbrev pub Others : ℕ → List DagNetwork → List DagNetwork → Type 0
Others num ds ds' =
    (length ds' ≡ length ds)
    × ((i : ℕ) (d : DagNetwork)
        → get_elem? ds i ≡ some d
        → d.instanceid ≢ num
        → get_elem? ds' i ≡ some d)

abbrev instance_of : Option DagNetwork → ℕ → ℕ
instance_of none num = num
instance_of (some d) num = d.instanceid

Others-head :
    (num : ℕ) (d e : DagNetwork) (ds : List DagNetwork)
    → d.instanceid ≡ num
    → Others num (d ∷ ds) (e ∷ ds)
Others-head num d e ds same = (refl, at)
  where
    at :
        (i : ℕ) (x : DagNetwork)
        → get_elem? (d ∷ ds) i ≡ some x
        → x.instanceid ≢ num
        → get_elem? (e ∷ ds) i ≡ some x
    at zero x h ne = absurd (ne (ap (λ o. instance_of o num) (sym h) ∙ same))
    at (suc i) x h ne = h

Others-tail :
    (num : ℕ) (d : DagNetwork) (ds ds' : List DagNetwork)
    → Others num ds ds'
    → Others num (d ∷ ds) (d ∷ ds')
Others-tail num d ds ds' (len, others) = (ap suc len, at)
  where
    at :
        (i : ℕ) (x : DagNetwork)
        → get_elem? (d ∷ ds) i ≡ some x
        → x.instanceid ≢ num
        → get_elem? (d ∷ ds') i ≡ some x
    at zero x h ne = h
    at (suc i) x h ne = others i x h ne

abbrev OthersOf : ℕ → List DagNetwork → Option (List DagNetwork) → Type 0
OthersOf num ds none = Unit {0}
OthersOf num ds (some ds') = Others num ds ds'

on_dag-Others :
    (num : ℕ) (f : DagNetwork → Option DagNetwork) (ds : List DagNetwork)
    → OthersOf num ds (on_dag num f ds)
unfolding on_dag
on_dag-Others num f [] = (refl, λ i d h ne. h)
on_dag-Others num f (d ∷ ds) = elim (Bool-cases (d.instanceid == num)) [
  | inl e ↦ elim (Option-cases (f d)) [
    | inl n ↦ rw (e, on_dag) (rw n tt)
    | inr (d', h) ↦ rw (e, on_dag) (rw h (Others-head num d d' ds ((==_iff d.instanceid num).0 e)))
  ]
  | inr e ↦ elim (Option-cases (on_dag num f ds)) [
    | inl n ↦ rw (e, on_dag) (rw n tt)
    | inr (ds', h) ↦
        rw (e, on_dag)
          (rw h (Others-tail num d ds ds' (subst (OthersOf num ds) h (on_dag-Others num f ds))))
  ]
]

abbrev pub OthersIn : ℕ → Network → Option Network → Type 0
OthersIn num n none = Unit {0}
OthersIn num n (some n') = Others num n.dags n'.dags

pub deliver-OthersIn :
    (num : ℕ) (f : DagNetwork → Option DagNetwork) (ignored : ℕ) (n : Network)
    → OthersIn num n (deliver num f ignored n)
unfolding deliver
deliver-OthersIn num f ignored n = elim (Option-cases (find_by_instanceid num n.dags)) [
  | inl e ↦ rw (e, deliver) (refl, λ i d h ne. h)
  | inr (d, e) ↦ elim (Option-cases (on_dag num f n.dags)) [
    | inl none_left ↦ rw (e, deliver) (rw none_left tt)
    | inr (ds, h) ↦
        rw (e, deliver) (rw h (subst (OthersOf num n.dags) h (on_dag-Others num f n.dags)))
  ]
]

find_by_instanceid_sound :
    (num : ℕ) (ds : List DagNetwork) (d : DagNetwork)
    → find_by_instanceid num ds ≡ some d
    → d.instanceid ≡ num
unfolding find_by_instanceid
find_by_instanceid_sound num [] d h = cc
find_by_instanceid_sound num (x ∷ ds) d h = elim (Bool-cases (x.instanceid == num)) [
  | inl e ↦ ap (λ o. instance_of o num) (sym (rw e at h)) ∙ (==_iff x.instanceid num).0 e
  | inr e ↦ find_by_instanceid_sound num ds d (rw e at h)
]

find_made :
    (num : ℕ) (d : DagNetwork) (ds : List DagNetwork)
    → d.instanceid ≡ num
    → find_by_instanceid num (d ∷ ds) ≡ some d
unfolding find_by_instanceid
find_made num d ds e = ground arith

-- After `find_or_make_by_instanceid` a DAG of the instance is found, and the list is as it was or
-- has one DAG more, inactive, before the others.
pub find_or_make_finds :
    (num : ℕ) (dagid : List ℕ) (watching : Bool) (n : Network)
    → let n' = find_or_make_by_instanceid num dagid watching n in
      ((d : DagNetwork) × (find_by_instanceid num n'.dags ≡ some d) × (d.instanceid ≡ num))
      × ((n'.dags ≡ n.dags) ⊎ ((d : DagNetwork) × (n'.dags ≡ d ∷ n.dags) × (d.active ≡ false)))
unfolding find_or_make_by_instanceid
find_or_make_finds num dagid watching n = elim (Option-cases (find_by_instanceid num n.dags)) [
  | inr (d, e) ↦
      rw (e, find_or_make_by_instanceid) ((d, e, find_by_instanceid_sound num n.dags d e), inl refl)
  | inl e ↦
      let made = record (init_dag n.raw num dagid) { active = false } in
      let first = find_made num made n.dags (unfold init_dag in refl) in
      rw (e, find_or_make_by_instanceid)
        (elim (Bool-cases watching) [
          | inl w ↦ rw w ((made, first, unfold init_dag in refl), inr (made, refl, refl))
          | inr w ↦ rw w ((made, first, unfold init_dag in refl), inr (made, refl, refl))
        ])
]
