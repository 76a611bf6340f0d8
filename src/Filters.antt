-- ===== src/Filters.antt =====
-- dag.cpp: the patterns for names of interfaces and the subnets by which a DAG takes up addresses.
-- `fnmatch` and `addrinsubnet` are functions that are given. `mIfFilter_max`, which no constructor
-- sets, is taken not to be negative.
pub mod Memory
pub mod Rows
pub mod Wildcards
pub mod Announced
use unstrung.Prelude.{
  ℕ, zero, suc, ◌+◌, ◌*◌, Bool, true, false, ◌&&◌, List, [], ◌∷◌, ◌++◌, Option, none, some, length,
  take, drop, min, ltb, leb, ◌==◌, if◌then◌else◌,
}
use unstrung.Wire.{Addr, Subnet}
use unstrung.Prefix.{set_prefix, prefix_at, put_prefix}
use unstrung.Dag.{DagNetwork, Env}
use unstrung.Dag.Install.{add_address}
use unstrung.Dag.Schedule.{maybe_send_dao}

abbrev pub dag_ifwildcard_max : ℕ
dag_ifwildcard_max = 8

abbrev pub dag_ifwildcard_len : ℕ
dag_ifwildcard_len = 32

-- `mIfWildcard` is the memory of its eight rows.
pub record Filters : Type 0 where
  pub if_wildcard : List ℕ
  pub if_wildcard_max : ℕ
  pub if_filter : ℕ → Subnet
  pub if_filter_max : ℕ

-- A write into memory that has the room for it.
pub write_bytes : List ℕ → ℕ → List ℕ → List ℕ
write_bytes mem zero bytes = bytes ++ drop (length bytes) mem
write_bytes [] (suc offset) bytes = []
write_bytes (x ∷ mem) (suc offset) bytes = x ∷ write_bytes mem offset bytes

-- `none` is a write behind the rows.
pub set_interface_wildcard : List ℕ → Filters → Option Filters
unfolding write_bytes
set_interface_wildcard wild f =
    let len = if ltb 31 (length wild + 1) then dag_ifwildcard_len else length wild + 1 in
    let row = dag_ifwildcard_len * f.if_wildcard_max in
    if ltb f.if_wildcard_max dag_ifwildcard_max
    then (if leb (length f.if_wildcard) (row + len)
        then none
        else some (record f {
          if_wildcard =
              write_bytes (write_bytes f.if_wildcard row (take len (wild ++ (0 ∷ [])))) (row + len)
                (0 ∷ []);
          if_wildcard_max = suc f.if_wildcard_max;
        }))
    else some f

pub set_interface_filter : Subnet → Filters → Filters
set_interface_filter i6 f =
    if ltb f.if_filter_max dag_ifwildcard_max
    then record f {
      if_filter = λ i. if i == f.if_filter_max then i6 else f.if_filter i;
      if_filter_max = suc f.if_filter_max;
    }
    else f

-- The text that starts a memory; `none` where it has no NUL.
unfoldable pub c_string : List ℕ → Option (List ℕ)
c_string [] = none
c_string (c ∷ mem) = elim (c == 0) [
  | true ↦ some []
  | false ↦ elim (c_string mem) [ none ↦ none | some text ↦ some (c ∷ text) ]
]

-- The loop of `matchesIfWildcard` from `i`, for the rounds that are left.
pub match_wildcards : (List ℕ → List ℕ → Bool) → List ℕ → List ℕ → ℕ → ℕ → Option Bool
unfolding c_string
match_wildcards fnmatch ifname mem zero i = some false
match_wildcards fnmatch ifname mem (suc rounds) i =
    elim (c_string (drop (dag_ifwildcard_len * i) mem)) [
      | none ↦ none
      | some wild ↦ elim (fnmatch wild ifname) [
        | true ↦ some true
        | false ↦ match_wildcards fnmatch ifname mem rounds (suc i)
      ]
    ]

pub matches_if_wildcard : (List ℕ → List ℕ → Bool) → List ℕ → Filters → Option Bool
unfolding match_wildcards
matches_if_wildcard fnmatch ifname f =
    match_wildcards fnmatch ifname f.if_wildcard (min f.if_wildcard_max dag_ifwildcard_max) 0

pub match_filters : (Addr → Subnet → Bool) → Addr → (ℕ → Subnet) → ℕ → ℕ → Bool
match_filters addrinsubnet v6 if_filter zero i = false
match_filters addrinsubnet v6 if_filter (suc rounds) i =
    let rest = match_filters addrinsubnet v6 if_filter rounds (suc i) in
    if addrinsubnet v6 (if_filter i) then true else rest

pub matches_if_prefix : (Addr → Subnet → Bool) → Addr → Filters → Bool
unfolding match_filters
matches_if_prefix addrinsubnet v6 f =
    match_filters addrinsubnet v6 f.if_filter (min f.if_filter_max dag_ifwildcard_max) 0

-- `notify_new_interface` for one DAG of the list whose filters both match: the address of the node
-- becomes an entry with the address of the interface.
pub announce_address : Env → Addr → Addr → DagNetwork → Option DagNetwork
unfolding add_address set_prefix maybe_send_dao
announce_address env node_addr if_addr d =
    let key : Subnet = record { addr = node_addr; maskbits = 128 } in
    let added = add_address key d in
    let entry =
      set_prefix (prefix_at added.announced key) (record { addr = if_addr; maskbits = 128 }) in
    maybe_send_dao env
      (record added { announced = put_prefix added.announced key entry; dao_needed = true })

-- The loop over all DAGs, each with its filters; whether one took up the address.
unfoldable pub notify_new_interface :
    (List ℕ → List ℕ → Bool)
    → (Addr → Subnet → Bool)
    → Env
    → List ℕ
    → Addr
    → Addr
    → List (DagNetwork × Filters)
    → Option (Bool × List (DagNetwork × Filters))
unfolding matches_if_wildcard matches_if_prefix announce_address
notify_new_interface fnmatch addrinsubnet env ifname node_addr if_addr [] = some (false, [])
notify_new_interface fnmatch addrinsubnet env ifname node_addr if_addr ((d, f) ∷ next) =
    elim (matches_if_wildcard fnmatch ifname f) [
      | none ↦ none
      | some named ↦ elim (named && matches_if_prefix addrinsubnet if_addr f) [
        | false ↦
            elim (notify_new_interface fnmatch addrinsubnet env ifname node_addr if_addr next) [
              | none ↦ none
              | some (announced, rest) ↦ some (announced, (d, f) ∷ rest)
            ]
        | true ↦ elim (announce_address env node_addr if_addr d) [
          | none ↦ none
          | some d' ↦
              elim (notify_new_interface fnmatch addrinsubnet env ifname node_addr if_addr next) [
                | none ↦ none
                | some (announced, rest) ↦ some (true, (d', f) ∷ rest)
              ]
        ]
      ]
    ]
