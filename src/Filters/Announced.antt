-- ===== src/Filters/Announced.antt =====
-- The address of a new interface in the DAGs that take it up.
use unstrung.Prelude.{
  ℕ, ◌≡◌, refl, inl, inr, Bool, true, false, ◌&&◌, List, [], ◌∷◌, Option, none, some, if◌then◌else◌,
  Bool-cases, ap, ◌∙◌, arith,
}
use unstrung.Wire.{Addr, Subnet}
use unstrung.Prefix.{set_prefix, prefix_at, put_prefix}
use unstrung.Dag.{DagNetwork, Env}
use unstrung.Dag.Install.{add_address}
use unstrung.Dag.Install.Once.{prefix_at-put_prefix}
use unstrung.Dag.Schedule.{maybe_send_dao, schedule_dao, root_node, is_set}
use unstrung.Dag.Schedule.Alarms.{schedule_dao_due}
use unstrung.Filters.{
  Filters, matches_if_wildcard, matches_if_prefix, announce_address, notify_new_interface,
}
use unstrung.Filters.Wildcards.{Holds, any_match, matches_if_wildcard-any_match}

schedule_dao-announced :
    (env : Env) (d d' : DagNetwork) → schedule_dao env d ≡ some d' → d'.announced ≡ d.announced
unfolding schedule_dao
schedule_dao-announced env d d' e = ground arith

maybe_send_dao-announced :
    (env : Env) (d : DagNetwork)
    → (d' : DagNetwork) × (maybe_send_dao env d ≡ some d') × (d'.announced ≡ d.announced)
unfolding maybe_send_dao
maybe_send_dao-announced env d = elim (Bool-cases (d.dao_needed && is_set d.bestparent)) [
  | inr e ↦ (d, rw (e, maybe_send_dao) refl, refl)
  | inl e ↦ elim (Bool-cases (root_node d)) [
    | inl root ↦ (record d { dao_needed = false }, rw (e, maybe_send_dao) (rw root refl), refl)
    | inr other ↦
        let (d', s, due) = schedule_dao_due env d in
        (
          record d' { dao_needed = false },
          rw (e, maybe_send_dao) (rw other (rw s refl)),
          schedule_dao-announced env d d' s,
        )
  ]
]

abbrev pub host : Addr → Subnet
host addr = record { addr = addr; maskbits = 128 }

-- The entry of the node has the address of the interface and is not installed.
abbrev pub HasAddress : Addr → Addr → DagNetwork → Type 0
HasAddress node_addr if_addr d =
    let entry = prefix_at d.announced (host node_addr) in
    (entry.prefix ≡ host if_addr) × (entry.valid ≡ true) × (entry.installed ≡ false)

announce_address-HasAddress :
    (env : Env) (node_addr if_addr : Addr) (d : DagNetwork)
    → (d' : DagNetwork) × (announce_address env node_addr if_addr d ≡ some d')
      × HasAddress node_addr if_addr d'
unfolding announce_address set_prefix
announce_address-HasAddress env node_addr if_addr d =
    let key = host node_addr in
    let added = add_address key d in
    let entry = set_prefix (prefix_at added.announced key) (host if_addr) in
    let before : DagNetwork = record added {
      announced = put_prefix added.announced key entry;
      dao_needed = true;
    } in
    let (d', ends, same) = maybe_send_dao-announced env before in
    let found : prefix_at d'.announced key ≡ entry =
      ap (λ m. prefix_at m key) same ∙ prefix_at-put_prefix added.announced key entry in
    (d', ends, (ap (λ p. p.prefix) found, ap (λ p. p.valid) found, ap (λ p. p.installed) found))

module _ (fnmatch : List ℕ → List ℕ → Bool) (addrinsubnet : Addr → Subnet → Bool) (env : Env)
    (ifname : List ℕ) (node_addr if_addr : Addr) where
  abbrev is_true : Option Bool → Bool
  is_true none = false
  is_true (some b) = b

  -- Whether the filters of a DAG let the interface and its address in.
  abbrev pub takes_up : Filters → Bool
  takes_up f =
      is_true (matches_if_wildcard fnmatch ifname f) && matches_if_prefix addrinsubnet if_addr f

  abbrev pub any_takes_up : List (DagNetwork × Filters) → Bool
  any_takes_up [] = false
  any_takes_up ((d, f) ∷ next) = if takes_up f then true else any_takes_up next

  abbrev pub AllHold : List (DagNetwork × Filters) → Type 0
  AllHold [] = Unit {0}
  AllHold ((d, f) ∷ next) = ((ws : List (List ℕ)) × Holds ws f) × AllHold next

  -- Each DAG that takes up the address has it, and each other is as it was.
  abbrev pub IsAnnounced : List (DagNetwork × Filters) → List (DagNetwork × Filters) → Type 0
  IsAnnounced [] [] = Unit {0}
  IsAnnounced [] (e ∷ rest) = ⊥
  IsAnnounced (e ∷ next) [] = ⊥
  IsAnnounced ((d, f) ∷ next) ((d', f') ∷ rest) =
      (f' ≡ f)
      × (takes_up f ≡ true → HasAddress node_addr if_addr d')
      × (takes_up f ≡ false → d' ≡ d)
      × IsAnnounced next rest

  -- Over DAGs whose patterns were stored without a write behind the rows, the announcement of a new
  -- interface ends, says whether the filters of any DAG let the interface and its address in, gives
  -- each DAG of which they do an entry for the node with the address of the interface that is valid
  -- and not installed, and leaves every other DAG as it was.
  pub notify_new_interface-IsAnnounced :
      (dags : List (DagNetwork × Filters))
      → AllHold dags
      → (after : List (DagNetwork × Filters)) × (notify_new_interface fnmatch addrinsubnet env
            ifname node_addr if_addr dags
          ≡ some (any_takes_up dags, after))
        × IsAnnounced dags after
  unfolding notify_new_interface
  notify_new_interface-IsAnnounced [] all = ([], refl, tt)
  notify_new_interface-IsAnnounced ((d, f) ∷ next) ((ws, holds), all) =
      let (rest, ends, announced) = notify_new_interface-IsAnnounced next all in
      let named = matches_if_wildcard-any_match fnmatch ifname ws f holds in
      elim (Bool-cases (any_match fnmatch ifname ws && matches_if_prefix addrinsubnet if_addr f)) [
        | inl e ↦
            let (d', told, has) = announce_address-HasAddress env node_addr if_addr d in
            let up : takes_up f ≡ true = rw named e in
            (
              (d', f) ∷ rest,
              rw (named, notify_new_interface) (rw e (rw told (rw ends refl))),
              (refl, λ h. has, λ h. absurd (ground (arith, up, h)), announced),
            )
        | inr e ↦
            let up : takes_up f ≡ false = rw named e in
            (
              (d, f) ∷ rest,
              rw (named, notify_new_interface) (rw e (rw ends refl)),
              (refl, λ h. absurd (ground (arith, up, h)), λ h. refl, announced),
            )
      ]
