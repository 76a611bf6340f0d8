-- ===== src/Interfaces.antt =====
-- iface.cpp: the list of all interfaces. A pointer to an interface is a number, the list goes from
-- `all_if` along `next`.
pub mod Listed
pub mod Marks
use unstrung.Prelude.{
  ℕ, suc, ◌+◌, ◌*◌, Bool, true, false, not, ◌&&◌, ◌||◌, List, [], ◌∷◌, Option, none, some, ltb, leb,
  ◌==◌, if◌then◌else◌,
}
use unstrung.Prelude.Int.{ℤ, pos, negsuc}

pub record Interface : Type 0 where
  pub if_index : ℕ
  pub if_name : List ℕ
  pub alive : Bool
  pub disabled : Bool
  pub loopback : Bool
  pub mark : Bool

abbrev pub is_active : Interface → Bool
is_active x = x.alive && not x.disabled

pub record IfList : Type 0 where
  pub all_if : List ℕ
  pub on_list : ℕ → Bool
  pub interface : ℕ → Interface

abbrev pub set_on_list : ℕ → Bool → (ℕ → Bool) → ℕ → Bool
set_on_list this b on_list p = if p == this then b else on_list p

unfoldable pub add_to_list : ℕ → IfList → IfList
add_to_list this s =
    if s.on_list this
    then s
    else record s { all_if = this ∷ s.all_if; on_list = set_on_list this true s.on_list }

-- The walk to `this` and its removal; `none` is a read through NULL at the end of the list.
unfoldable pub unlink : ℕ → List ℕ → Option (List ℕ)
unlink this [] = none
unlink this (x ∷ next) =
    if x == this then some next else elim (unlink this next) [ none ↦ none | some l ↦ some (x ∷ l) ]

unfoldable pub remove_from_list : ℕ → IfList → Option IfList
unfolding unlink
remove_from_list this s = if not (s.on_list this) then some s else elim (unlink this s.all_if) [
  | none ↦ none
  | some l ↦ some (record s { all_if = l; on_list = set_on_list this false s.on_list })
]

unfoldable pub find_by_ifindex : ℕ → (ℕ → Interface) → List ℕ → Option ℕ
find_by_ifindex index interface [] = none
find_by_ifindex index interface (ni ∷ next) =
    if (interface ni).if_index == index then some ni else find_by_ifindex index interface next

-- `strcasecmp(a, b) == 0`, in the C locale.
abbrev pub lower : ℕ → ℕ
lower c = if leb 65 c && leb c 90 then c + 32 else c

abbrev pub same_name : List ℕ → List ℕ → Bool
same_name [] [] = true
same_name [] (y ∷ ys) = false
same_name (x ∷ xs) [] = false
same_name (x ∷ xs) (y ∷ ys) = lower x == lower y && same_name xs ys

pub find_by_name : List ℕ → (ℕ → Interface) → List ℕ → Option ℕ
find_by_name name interface [] = none
find_by_name name interface (ni ∷ next) =
    if same_name name (interface ni).if_name then some ni else find_by_name name interface next

-- `foreach_if` with a function that changes a state, along what is left of the list.
abbrev pub is_zero : ℤ → Bool
is_zero (pos n) = n == 0
is_zero (negsuc n) = false

pub foreach_if {ℓ} : {S : Type ℓ} → (ℕ → S → S × ℤ) → List ℕ → ℤ → S → S × ℤ
foreach_if func [] ret s = (s, ret)
foreach_if func (ni ∷ next) ret s =
    let r = func ni s in let rest = foreach_if func next r.1 r.0 in if is_zero r.1 then r else rest

abbrev pub set_interface : ℕ → Interface → (ℕ → Interface) → ℕ → Interface
set_interface ni x interface p = if p == ni then x else interface p

pub remove_mark : ℕ → (ℕ → Interface) → (ℕ → Interface) × ℤ
remove_mark ni interface =
    (set_interface ni (record (interface ni) { mark = false }) interface, pos 1)

pub remove_marks : IfList → IfList
unfolding remove_mark
remove_marks s = record s { interface = (foreach_if remove_mark s.all_if (negsuc 0) s.interface).0 }

pub if_count : List ℕ → ℕ
if_count [] = 0
if_count (iface ∷ next) = if_count next + 1

-- `send_dio_all`: the interfaces on which a DIO is sent, in their order.
pub send_dio_all : (ℕ → Interface) → List ℕ → List ℕ
send_dio_all interface [] = []
send_dio_all interface (iface ∷ next) =
    let rest = send_dio_all interface next in
    if is_active (interface iface) && not (interface iface).loopback then iface ∷ rest else rest

-- `setup`: whether the group is asked for and whether it is joined are arguments, for each interface.
pub setup : (ℕ → Bool) → (ℕ → Bool) → ℕ → IfList → IfList
unfolding add_to_list
setup asked joined this s =
    if (s.interface this).alive
    then s
    else add_to_list this (record s {
      interface =
          set_interface this (record (s.interface this) { alive = not (asked this) || joined this })
            s.interface;
    })

-- The loops of `setup_all_if` and of `look_for_new_interfaces`; the second one announces all DAGs on
-- the interfaces that it answers.
pub setup_all_if : (ℕ → Bool) → (ℕ → Bool) → List ℕ → IfList → IfList
unfolding setup
setup_all_if asked joined [] s = s
setup_all_if asked joined (ni ∷ next) s = setup_all_if asked joined next (
    if not (s.interface ni).loopback && not (s.interface ni).disabled
    then setup asked joined ni s
    else s)

pub look_for_new_interfaces : (ℕ → Bool) → (ℕ → Bool) → List ℕ → IfList → IfList × List ℕ
unfolding setup
look_for_new_interfaces asked joined [] s = (s, [])
look_for_new_interfaces asked joined (ni ∷ next) s =
    let x = s.interface ni in
    let fresh = not (is_active x) && (not x.loopback && not x.disabled) in
    let r =
      look_for_new_interfaces asked joined next (if fresh then setup asked joined ni s else s) in
    (r.0, if fresh then ni ∷ r.1 else r.1)
