-- ===== src/Netlink.antt =====
-- netlink.cpp and iface.cpp: the messages of the kernel about links, and what an interface takes from
-- them. The attributes of a message are parsed by libnetlink, so that they are fields here; what a
-- constructor leaves unset and the setting `disable_ipv6` are arguments.
pub mod Lookup
pub mod Addresses
pub mod Managed
pub mod Refines
use unstrung.Prelude.{
  ℕ, suc, ◌+◌, bit_or, Bool, true, false, not, ◌&&◌, ◌||◌, List, [], ◌∷◌, ◌++◌, Option, none, some,
  take, drop, replicate, length, leb, ◌==◌, if◌then◌else◌,
}
use unstrung.Link.{LinkAddr, generate_linkaddr, generate_eui64, set_eui48}
use unstrung.Interfaces.{
  Interface, IfList, add_to_list, remove_from_list, find_by_ifindex, same_name, set_interface,
}

-- An `ifinfomsg` and its attributes; `short` where the message has no room for it.
pub record LinkMessage : Type 0 where
  pub short : Bool
  pub name : Option (List ℕ)
  pub index : ℕ
  pub up : Bool
  pub running : Bool
  pub type : ℕ
  pub address : Option (List ℕ)
  pub mtu : Option ℕ

-- The interfaces, their addresses, and the next pointer that `new` gives.
pub record Devices : Type 0 where
  pub ifs : IfList
  pub link : ℕ → LinkAddr
  pub maxmtu : ℕ → ℕ
  pub loopback_interface : Option ℕ
  pub fresh : ℕ

-- `ARPHRD_ETHER`, `ARPHRD_IEEE802154`, `ARPHRD_6LOWPAN`, `ARPHRD_LOOPBACK` and `ARPHRD_NONE`.
abbrev pub arphrd_ether : ℕ
arphrd_ether = 1

abbrev pub arphrd_ieee802154 : ℕ
arphrd_ieee802154 = 804

abbrev pub arphrd_6lowpan : ℕ
arphrd_6lowpan = 825

abbrev pub arphrd_loopback : ℕ
arphrd_loopback = 772

abbrev pub arphrd_none : ℕ
arphrd_none = 0xfffe

-- "dummy0"
abbrev pub dummy_name : List ℕ
dummy_name = 100 ∷ 117 ∷ 109 ∷ 109 ∷ 121 ∷ 48 ∷ []

abbrev pub or_first : List ℕ → List ℕ
or_first [] = []
or_first (b ∷ bs) = bit_or b 0x02 ∷ bs

-- `none` is a write behind `eui64`.
pub set_eui64 : LinkAddr → List ℕ → Option LinkAddr
unfolding generate_linkaddr
set_eui64 i addr64 =
    if leb (length addr64) 8
    then some (
        generate_linkaddr
          (record i { eui64 = or_first (addr64 ++ drop (length addr64) i.eui64); eui64set = true }))
    else none

-- The constructor with a name, and the index that `add_linkinfo` sets.
pub new_interface : Interface → ℕ → List ℕ → Interface
new_interface raw index if_name = record raw {
  if_index = index;
  if_name = take 15 if_name;
  alive = false;
  disabled = false;
}

pub new_link : LinkAddr → LinkAddr
new_link raw = record raw { eui48 = replicate 6 0; eui64 = replicate 8 0 }

abbrev pub put {ℓ} : {A : Type ℓ} → ℕ → A → (ℕ → A) → ℕ → A
put this x f p = if p == this then x else f p

-- The interface of the index, which is made where there is none, on the list.
pub find_or_make : Interface → LinkAddr → ℕ → List ℕ → Devices → ℕ × Devices
unfolding new_interface new_link
find_or_make raw raw_link index ifname d =
    elim (find_by_ifindex index d.ifs.interface d.ifs.all_if) [
      | some ni ↦ (ni, record d { ifs = add_to_list ni d.ifs })
      | none ↦ (
        d.fresh,
        record d {
          ifs = add_to_list d.fresh (record d.ifs {
            interface = set_interface d.fresh (new_interface raw index ifname) d.ifs.interface;
          });
          link = put d.fresh (new_link raw_link) d.link;
          fresh = suc d.fresh;
        },
      )
    ]

-- What the switch over the type makes of the address; a case without one falls through.
pub data Switched : Type 0 where
  addressed : LinkAddr → List ℕ → Switched
  fault is_loopback no_address ignored : Switched

abbrev pub from_set : Option LinkAddr → List ℕ → Switched
from_set none addr = fault
from_set (some i) addr = addressed i addr

-- The cases of the types that have no address.
pub other_type : ℕ → Switched
other_type type =
    if type == arphrd_loopback
    then is_loopback
    else if type == arphrd_none
    then no_address
    else ignored

pub switch_type : ℕ → Option (List ℕ) → LinkAddr → Switched
unfolding set_eui64 other_type
switch_type type (some addr) i =
    if type == arphrd_ether
    then from_set (set_eui48 i addr) addr
    else if type == arphrd_ieee802154 || type == arphrd_6lowpan
    then from_set (set_eui64 i addr) addr
    else other_type type
switch_type type none i =
    if type == arphrd_ether || (type == arphrd_ieee802154 || type == arphrd_6lowpan)
    then is_loopback
    else other_type type

-- The end of `add_linkinfo`: the MTU, and an EUI-64 where none is set.
abbrev pub set_mtu : ℕ → Option ℕ → Devices → Devices
set_mtu ni none d = d
set_mtu ni (some mtu) d = record d { maxmtu = put ni mtu d.maxmtu }

pub build_missing : LinkAddr → List ℕ → Option LinkAddr
build_missing i addr =
    if i.eui64set
    then some i
    else if leb (length addr) 6
    then generate_eui64 (record i { eui48 = addr ++ drop (length addr) i.eui48 })
    else none

pub after_switch : ℕ → LinkMessage → Switched → Devices → Option Devices
unfolding build_missing
after_switch ni msg fault d = none
after_switch ni msg is_loopback d = some (record d {
  loopback_interface = some ni;
  ifs = record d.ifs {
    interface = set_interface ni (record (d.ifs.interface ni) { loopback = true }) d.ifs.interface;
  };
})
after_switch ni msg ignored d = some d
after_switch ni msg no_address d = some (set_mtu ni msg.mtu d)
after_switch ni msg (addressed i addr) d = elim (build_missing i addr) [
  | none ↦ none
  | some built ↦ some (set_mtu ni msg.mtu (record d { link = put ni built d.link }))
]

pub set_addresses : ℕ → LinkMessage → Devices → Option Devices
unfolding switch_type after_switch
set_addresses ni msg d = after_switch ni msg (switch_type msg.type msg.address (d.link ni)) d

-- `add_linkinfo` behind its early returns, for the interface `ni`.
pub take_link : (List ℕ → Bool) → LinkMessage → ℕ → Devices → Option Devices
unfolding set_addresses
take_link disable_ipv6 msg ni d =
    let x = d.ifs.interface ni in
    if same_name x.if_name dummy_name
    then some d
    else if disable_ipv6 x.if_name
    then some (record d {
      ifs = record d.ifs {
        interface = set_interface ni (record x { disabled = true }) d.ifs.interface;
      };
    })
    else set_addresses ni msg d

pub add_linkinfo : Interface → LinkAddr → (List ℕ → Bool) → LinkMessage → Devices → Option Devices
unfolding find_or_make take_link
add_linkinfo raw raw_link disable_ipv6 msg d = if msg.short then some d else elim msg.name [
  | none ↦ some d
  | some ifname ↦
      if not msg.up
      then some d
      else if not msg.running
      then some d
      else (let r = find_or_make raw raw_link msg.index ifname d in
          take_link disable_ipv6 msg r.0 r.1)
]

-- `del_linkinfo`; `none` is a read through NULL. The destructor clears the events, too (`Queue`).
pub del_linkinfo : LinkMessage → Devices → Option Devices
unfolding remove_from_list
del_linkinfo msg d = if msg.short then some d else elim msg.name [
  | none ↦ some d
  | some ifname ↦ elim (find_by_ifindex msg.index d.ifs.interface d.ifs.all_if) [
    | none ↦ none
    | some ni ↦ elim (remove_from_list ni d.ifs) [
      | none ↦ none
      | some ifs ↦ some (record d { ifs = ifs })
    ]
  ]
]

-- `gather_linkinfo` by the type of the message; a message about an address changes nothing of
-- `Devices`. What is left unset at a new pointer is `raw` and `raw_link` of it.
pub data Note : Type 0 where
  newlink dellink : LinkMessage → Note
  other : Note

pub gather_linkinfo :
    (ℕ → Interface) → (ℕ → LinkAddr) → (List ℕ → Bool) → Note → Devices → Option Devices
unfolding add_linkinfo del_linkinfo
gather_linkinfo raw raw_link disable_ipv6 (newlink msg) d =
    add_linkinfo (raw d.fresh) (raw_link d.fresh) disable_ipv6 msg d
gather_linkinfo raw raw_link disable_ipv6 (dellink msg) d = del_linkinfo msg d
gather_linkinfo raw raw_link disable_ipv6 other d = some d
