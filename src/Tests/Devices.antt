-- ===== src/Tests/Devices.antt =====
-- Examples of the messages of the kernel about links, and of the patterns for their names.
use unstrung.Prelude.{
  ℕ, ◌≡◌, refl, sym, Bool, true, false, List, [], ◌∷◌, none, some, replicate, ◌==◌, arith,
}
use mathlib.Core.Option.{some-injective}
use unstrung.Filters.{Filters, matches_if_wildcard}
use unstrung.Filters.Wildcards.{set_wildcards, matches_if_wildcard-set_wildcards}
use unstrung.Wire.{bytes_eq}
use unstrung.Interfaces.{find_by_ifindex}
use unstrung.Link.{LinkAddr}
use unstrung.Netlink.{Devices, LinkMessage, Note, newlink, dellink, other, arphrd_ether}
use unstrung.Netlink.Addresses.{Fits}
use unstrung.Netlink.Refines.{Simulates, follow_all, gather_all, gather_all-Simulates}
use unstrung.Tests.Interfaces.{an_interface}
use unstrung.Dag.{DagNetwork}
use unstrung.Filters.{c_string}
use unstrung.IpInfo.{Addressed, AddrMessage, adddel_ipinfo, addr_attribute}
use unstrung.IpInfo.Announced.{adddel_ipinfo-IsAnnounced}
use unstrung.Filters.Announced.{IsAnnounced}
use unstrung.Tests.{live_dag, blank_dag, system, link_local_addr}

abbrev a_link : LinkAddr
a_link = record {
  eui48 = replicate 6 0;
  eui64 = replicate 8 0;
  eui64set = false;
  ipv6_link_addr = replicate 16 0;
}

abbrev no_devices : Devices
no_devices = record {
  ifs = record { all_if = []; on_list = λ p. false; interface = λ p. an_interface };
  link = λ p. a_link;
  maxmtu = λ p. 0;
  loopback_interface = none;
  fresh = 0;
}

abbrev ether_up : ℕ → LinkMessage
ether_up index = record {
  short = false;
  name = some (101 ∷ 116 ∷ 104 ∷ 48 ∷ []);
  index = index;
  up = true;
  running = true;
  type = arphrd_ether;
  address = some (1 ∷ 2 ∷ 3 ∷ 4 ∷ 5 ∷ 6 ∷ []);
  mtu = some 1500;
}

abbrev some_notes : List Note
some_notes = newlink (ether_up 2) ∷ newlink (ether_up 3) ∷ other ∷ dellink (ether_up 2) ∷ []

ether_up-Fits : (index : ℕ) → Fits (ether_up index)
ether_up-Fits index addr e =
    rw (sym (some-injective (1 ∷ 2 ∷ 3 ∷ 4 ∷ 5 ∷ 6 ∷ []) addr e)) (omega arith)

-- Afterwards exactly the index 3 is known.
gather_all-Simulates_example :
    Simulates
      (gather_all (λ p. an_interface) (λ p. a_link) (λ name. false) some_notes no_devices)
      (follow_all some_notes (λ j. false))
unfolding find_by_ifindex
gather_all-Simulates_example =
    gather_all-Simulates (λ p. an_interface) (λ p. a_link) (λ name. false) some_notes no_devices
      (λ j. false) (ether_up-Fits 2, (ether_up-Fits 3, (tt, (tt, tt))))
      ((λ p. refl, tt, λ p h. refl), λ p. refl, λ j. refl)

three_only : (j : ℕ) → Bool
three_only j = elim (follow_all some_notes (λ k. false)) [ none ↦ false | some k ↦ k j ]

three_only_2 : (three_only 2 ≡ false) × (three_only 3 ≡ true)
unfolding three_only
three_only_2 = (refl, refl)

abbrev no_filters : Filters
no_filters = record {
  if_wildcard = replicate 256 7;
  if_wildcard_max = 0;
  if_filter = λ i. record { addr = []; maskbits = 0 };
  if_filter_max = 0;
}

-- "a" and "wpan", under a match that compares the texts.
matches_if_wildcard-set_wildcards_example :
    (f' : Filters) × (set_wildcards ((97 ∷ []) ∷ (119 ∷ 112 ∷ []) ∷ []) no_filters ≡ some f')
    × (matches_if_wildcard bytes_eq (119 ∷ 112 ∷ []) f' ≡ some true)
matches_if_wildcard-set_wildcards_example =
    matches_if_wildcard-set_wildcards bytes_eq (119 ∷ 112 ∷ []) ((97 ∷ []) ∷ (119 ∷ 112 ∷ []) ∷ [])
      no_filters refl refl (((refl, tt), omega arith), (((refl, (refl, tt)), omega arith), tt))

abbrev some_filters : Filters
some_filters = record {
  if_wildcard = 97 ∷ 0 ∷ replicate 254 7;
  if_wildcard_max = 1;
  if_filter = λ i. record { addr = []; maskbits = 0 };
  if_filter_max = 1;
}

abbrev two_dags : List (DagNetwork × Filters)
two_dags = (live_dag, some_filters) ∷ (blank_dag, no_filters) ∷ []

-- One interface with the name "a".
abbrev one_device : Devices
one_device = record no_devices {
  ifs = record {
    all_if = 0 ∷ [];
    on_list = λ p. p == 0;
    interface = λ p. record an_interface { if_name = 97 ∷ [] };
  };
  fresh = 1;
}

abbrev addressed : Addressed
addressed = record {
  devices = one_device;
  if_addr = λ p. replicate 16 0;
  ifa_scope = λ p. 255;
  node = λ p. none;
  dags = two_dags;
}

abbrev new_address : AddrMessage
new_address = record {
  short = false;
  local = none;
  address = some (link_local_addr 5);
  index = 2;
  inet6 = true;
  scope = 0;
}

-- The first DAG takes up every address of the interface "a".
adddel_ipinfo-IsAnnounced_example :
    (s' : Addressed) × (adddel_ipinfo bytes_eq (λ v6 sub. true) system new_address addressed
      ≡ some s')
    × (s'.if_addr 0 ≡ link_local_addr 5)
    × (s'.node 0 ≡ some (link_local_addr 5))
    × IsAnnounced bytes_eq
        (λ v6 sub. true)
        system
        (97 ∷ [])
        (link_local_addr 5)
        (link_local_addr 5)
        two_dags
        s'.dags
unfolding c_string find_by_ifindex addr_attribute
adddel_ipinfo-IsAnnounced_example =
    adddel_ipinfo-IsAnnounced bytes_eq (λ v6 sub. true) system new_address (link_local_addr 5) 0
      addressed refl refl refl refl refl refl (omega arith)
      (
        ((97 ∷ []) ∷ [], (refl, refl, omega arith, (refl, omega arith, tt))),
        (([], (refl, refl, omega arith, tt)), tt),
      )
