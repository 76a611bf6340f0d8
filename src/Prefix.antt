-- ===== src/Prefix.antt =====
-- prefix.h: the entries of the three prefix maps of a DAG.
pub mod Order
use unstrung.Prelude.{
  ℕ, Bool, true, false, ◌&&◌, not, List, [], ◌∷◌, Option, none, some, ◌==◌, ltb, if◌then◌else◌,
}
use unstrung.Wire.{Addr, Subnet, bytes_eq}

pub record PrefixNode : Type 0 where
  pub prefix : Subnet
  pub valid : Bool
  pub installed : Bool
  pub announced_from : Option Addr

unfoldable pub new_prefix : PrefixNode
new_prefix = record {
  prefix = record { addr = []; maskbits = 0 };
  valid = false;
  installed = false;
  announced_from = none;
}

-- Both `set_prefix`: the address is taken over, and the entry counts as not installed.
unfoldable pub set_prefix : PrefixNode → Subnet → PrefixNode
set_prefix p sub = record p { prefix = sub; valid = true; installed = false }

-- `set_installed(bool installed) { installed = true; }` assigns to its own parameter.
unfoldable pub set_installed : PrefixNode → Bool → PrefixNode
set_installed p installed = p

unfoldable pub set_announcer : PrefixNode → Addr → PrefixNode
set_announcer p peer = record p { announced_from = some peer }

-- `prefix_node::markself`, whose `set_prefix` comes last.
pub prefix_markself : PrefixNode → Subnet → PrefixNode
unfolding set_prefix
prefix_markself p sub = set_prefix (record p { installed = true }) sub

-- `prefix_less`: any difference, less or greater, is returned as `true`.
unfoldable pub prefix_less : Subnet → Subnet → Bool
prefix_less x y = if bytes_eq x.addr y.addr then not (x.maskbits == y.maskbits) else true

-- Two keys are one to a `std::map` when neither is less than the other.
unfoldable pub same_key : Subnet → Subnet → Bool
unfolding prefix_less
same_key x y = not (prefix_less x y) && not (prefix_less y x)

-- `prefix_map`: a new key goes to the end, since every key is less than each different one. The
-- standard leaves open what a `std::map` does with a comparison that is no strict order; the map
-- here tells two keys apart exactly where they differ.
abbrev pub PrefixMap : Type 0
PrefixMap = List (Subnet × PrefixNode)

unfoldable pub find_prefix : PrefixMap → Subnet → Option PrefixNode
find_prefix [] key = none
find_prefix ((k, p) ∷ m) key = if same_key k key then some p else find_prefix m key

unfoldable pub put_prefix : PrefixMap → Subnet → PrefixNode → PrefixMap
put_prefix [] key p = (key, p) ∷ []
put_prefix ((k, old) ∷ m) key p =
    if same_key k key then (k, p) ∷ m else (k, old) ∷ put_prefix m key p

unfoldable pub prefix_at : PrefixMap → Subnet → PrefixNode
unfolding find_prefix
prefix_at m key = elim (find_prefix m key) [ none ↦ new_prefix | some p ↦ p ]
