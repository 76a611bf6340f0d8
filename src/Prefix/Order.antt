-- ===== src/Prefix/Order.antt =====
-- The comparison of subnets, and the laws of the prefix map.
use unstrung.Prelude.{
  ◌≡◌, ◌≢◌, ◌↔◌, ◌⊎◌, refl, true, [], ◌∷◌, some, if◌then◌else◌, Bool-cases, inl, inr, arith,
}
use unstrung.Wire.{Subnet, bytes_eq_iff}
use unstrung.Prefix.{PrefixNode, PrefixMap, prefix_less, same_key, find_prefix, put_prefix}

Subnet_ext : (x y : Subnet) → x.addr ≡ y.addr → x.maskbits ≡ y.maskbits → x ≡ y
Subnet_ext x y p q = λ i. record { addr = p i; maskbits = q i }

-- The comparison of two subnets says exactly whether they differ, in either direction, so that it
-- is no order.
pub prefix_less_iff : (x y : Subnet) → (prefix_less x y ≡ true) ↔ (x ≢ y)
unfolding prefix_less
prefix_less_iff x y = ground (arith, bytes_eq_iff x.addr y.addr, Subnet_ext x y)

eq_or_ne : (x y : Subnet) → (x ≡ y) ⊎ (x ≢ y)
unfolding prefix_less
eq_or_ne x y = elim (Bool-cases (prefix_less x y)) [
  | inl less ↦ inr ((prefix_less_iff x y).0 less)
  | inr same ↦ inl (ground (arith, bytes_eq_iff x.addr y.addr, Subnet_ext x y))
]

pub same_key_iff : (x y : Subnet) → (same_key x y ≡ true) ↔ (x ≡ y)
unfolding same_key
same_key_iff x y = ground (arith, prefix_less_iff x y, prefix_less_iff y x, eq_or_ne x y)

-- An entry that is put under a key is found under that key, and under every other key what was
-- there before.
pub find_prefix-put_prefix :
    (m : PrefixMap) (key j : Subnet) (p : PrefixNode)
    → find_prefix (put_prefix m key p) j ≡ (if same_key key j then some p else find_prefix m j)
unfolding find_prefix put_prefix
find_prefix-put_prefix [] key j p = refl
find_prefix-put_prefix ((k, old) ∷ m) key j p = ground (
  arith,
  same_key_iff k key,
  same_key_iff k j,
  same_key_iff key j,
  find_prefix-put_prefix m key j p,
)
