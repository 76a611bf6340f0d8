-- ===== src/Dag/Install/Once.antt =====
-- What is installed once, and what is not.
use unstrung.Prelude.{◌≡◌, true, Option, none, some, arith}
use unstrung.Wire.{Subnet}
use unstrung.Prefix.{PrefixNode, PrefixMap, prefix_at, put_prefix}
use unstrung.Prefix.Order.{find_prefix-put_prefix, same_key_iff}
use unstrung.Dag.{DagNetwork}

pub prefix_at-put_prefix :
    (m : PrefixMap) (key : Subnet) (p : PrefixNode) → prefix_at (put_prefix m key p) key ≡ p
unfolding prefix_at
prefix_at-put_prefix m key p =
    ground (arith, find_prefix-put_prefix m key key p, same_key_iff key key)

abbrev Installed : Subnet → Option DagNetwork → Type 0
Installed sub none = Unit {0}
Installed sub (some d) = (prefix_at d.children sub).installed ≡ true
