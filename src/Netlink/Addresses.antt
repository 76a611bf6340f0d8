-- ===== src/Netlink/Addresses.antt =====
-- What a message about a link changes of an interface that is on the list.
use unstrung.Prelude.{
  ℕ, ◌≡◌, ◌≤◌, refl, inl, inr, Bool, true, ◌||◌, List, ◌∷◌, ◌++◌, Option, none, some, length, drop,
  length-append, length-drop, ◌==◌, ==_iff, leb, if◌then◌else◌, Bool-cases, ap, sym, ◌∙◌, arith,
}
use unstrung.Link.{LinkAddr, set_eui48, generate_eui64, generate_linkaddr, eui64_from_eui48}
use unstrung.Interfaces.{Interface, set_interface, same_name}
use unstrung.Netlink.{
  Devices, LinkMessage, Switched, addressed, fault, is_loopback, no_address, ignored, arphrd_ether,
  dummy_name, put, or_first, set_eui64, switch_type, other_type, from_set, build_missing,
  set_addresses, set_mtu, after_switch, take_link, arphrd_ieee802154, arphrd_6lowpan,
  arphrd_loopback, arphrd_none,
}

-- An EUI-48 of six bytes.
abbrev pub IsSix : LinkAddr → Type 0
IsSix i = length i.eui48 ≡ 6

-- The address that a message carries has the room of the field it is copied to.
abbrev pub Fits : LinkMessage → Type 0
Fits msg =
    (addr : List ℕ)
    → msg.address ≡ some addr
    → length addr ≤ (if msg.type == arphrd_ether then 6 else 8)

-- A set address, with its EUI-64.
abbrev IsAddressed : Option LinkAddr → Type 0
IsAddressed o = (i : LinkAddr) × (o ≡ some i) × (i.eui64set ≡ true) × IsSix i

eui64_from_eui48-total : (l : List ℕ) → length l ≡ 6 → (e : List ℕ) × (eui64_from_eui48 l ≡ some e)
unfolding eui64_from_eui48
eui64_from_eui48-total (a ∷ b ∷ c ∷ d ∷ e ∷ f ∷ more) h = (_, refl)
eui64_from_eui48-total l h = absurd (omega (arith, h))

set_eui48-IsAddressed :
    (i : LinkAddr) (addr : List ℕ) → IsSix i → length addr ≤ 6 → IsAddressed (set_eui48 i addr)
unfolding set_eui48 generate_eui64 generate_linkaddr
set_eui48-IsAddressed i addr six fits =
    let whole : length (addr ++ drop (length addr) i.eui48) ≡ 6 = omega (
      arith,
      length-append addr (drop (length addr) i.eui48),
      length-drop (length addr) i.eui48,
      six,
      fits,
    ) in
    let (e, built) = eui64_from_eui48-total (addr ++ drop (length addr) i.eui48) whole in
    let small : leb (length addr) 6 ≡ true = ground (arith, fits) in
    (
      generate_linkaddr
          (record i { eui48 = addr ++ drop (length addr) i.eui48; eui64 = e; eui64set = true }),
      rw small (rw built refl),
      refl,
      whole,
    )

set_eui64-IsAddressed :
    (i : LinkAddr) (addr : List ℕ) → IsSix i → length addr ≤ 8 → IsAddressed (set_eui64 i addr)
unfolding set_eui64 generate_linkaddr
set_eui64-IsAddressed i addr six fits =
    let small : leb (length addr) 8 ≡ true = ground (arith, fits) in
    let eui64 = or_first (addr ++ drop (length addr) i.eui64) in
    (generate_linkaddr (record i { eui64 = eui64; eui64set = true }), rw small refl, refl, six)

-- The switch ends without a fault, and with an EUI-64 where it sets an address.
abbrev IsGood : Switched → Type 0
IsGood (addressed i addr) = (i.eui64set ≡ true) × IsSix i
IsGood fault = ⊥
IsGood is_loopback = Unit {0}
IsGood no_address = Unit {0}
IsGood ignored = Unit {0}

from_set-IsGood : (o : Option LinkAddr) (addr : List ℕ) → IsAddressed o → IsGood (from_set o addr)
from_set-IsGood o addr (i, e, set, six) = rw e (set, six)

other_type-IsGood : (type : ℕ) → IsGood (other_type type)
unfolding other_type
other_type-IsGood type = elim (Bool-cases (type == arphrd_loopback)) [
  | inl e ↦ rw e tt
  | inr e ↦ elim (Bool-cases (type == arphrd_none)) [
    | inl f ↦ rw e (rw f tt)
    | inr f ↦ rw e (rw f tt)
  ]
]

switch_type-IsGood :
    (type : ℕ) (address : Option (List ℕ)) (i : LinkAddr)
    → IsSix i
    → ((addr : List ℕ)
        → address ≡ some addr
        → length addr ≤ (if type == arphrd_ether then 6 else 8))
    → IsGood (switch_type type address i)
unfolding switch_type
switch_type-IsGood type none i six fits =
    elim (Bool-cases
      (type == arphrd_ether || (type == arphrd_ieee802154 || type == arphrd_6lowpan))) [
        | inl e ↦ rw e tt
        | inr e ↦ rw e (other_type-IsGood type)
      ]
switch_type-IsGood type (some addr) i six fits = elim (Bool-cases (type == arphrd_ether)) [
  | inl e ↦
      let set = set_eui48-IsAddressed i addr six (rw e at (fits addr refl)) in
      rw e (from_set-IsGood (set_eui48 i addr) addr set)
  | inr e ↦ elim (Bool-cases (type == arphrd_ieee802154 || type == arphrd_6lowpan)) [
    | inl f ↦
        let set = set_eui64-IsAddressed i addr six (rw e at (fits addr refl)) in
        rw e (rw f (from_set-IsGood (set_eui64 i addr) addr set))
    | inr f ↦ rw e (rw f (other_type-IsGood type))
  ]
]

-- What a message leaves of the interfaces: the list, the indices and the next pointer.
abbrev pub IsKept : Devices → Devices → Type 0
IsKept d d' =
    (g : ℕ → Interface) × (d'.ifs ≡ record d.ifs { interface = g })
    × ((p : ℕ) → (g p).if_index ≡ (d.ifs.interface p).if_index)
    × (d'.fresh ≡ d.fresh)
    × ((p : ℕ) → IsSix (d'.link p))

set_interface-if_index :
    (ni : ℕ) (x : Interface) (f : ℕ → Interface) (p : ℕ)
    → x.if_index ≡ (f ni).if_index
    → (set_interface ni x f p).if_index ≡ (f p).if_index
set_interface-if_index ni x f p e = elim (Bool-cases (p == ni)) [
  | inl same ↦ rw same (e ∙ ap (λ k. (f k).if_index) (sym ((==_iff p ni).0 same)))
  | inr other ↦ rw other refl
]

pub put-IsSix :
    (ni : ℕ) (i : LinkAddr) (f : ℕ → LinkAddr)
    → IsSix i
    → ((p : ℕ) → IsSix (f p))
    → (p : ℕ) → IsSix (put ni i f p)
put-IsSix ni i f six all p = elim (Bool-cases (p == ni)) [
  | inl same ↦ rw same six
  | inr other ↦ rw other (all p)
]

set_mtu-IsKept :
    (ni : ℕ) (mtu : Option ℕ) (d : Devices)
    → ((p : ℕ) → IsSix (d.link p))
    → IsKept d (set_mtu ni mtu d)
set_mtu-IsKept ni none d six = (d.ifs.interface, refl, λ p. refl, refl, six)
set_mtu-IsKept ni (some mtu) d six = (d.ifs.interface, refl, λ p. refl, refl, six)

after_switch-IsKept :
    (ni : ℕ) (msg : LinkMessage) (s : Switched) (d : Devices)
    → IsGood s
    → ((p : ℕ) → IsSix (d.link p))
    → (d' : Devices) × (after_switch ni msg s d ≡ some d') × IsKept d d'
unfolding after_switch build_missing
after_switch-IsKept ni msg fault d good six = elim good [ ]
after_switch-IsKept ni msg is_loopback d good six =
    (_, refl, (_, refl, λ p. set_interface-if_index ni _ d.ifs.interface p refl, refl, six))
after_switch-IsKept ni msg ignored d good six =
    (d, refl, (d.ifs.interface, refl, λ p. refl, refl, six))
after_switch-IsKept ni msg no_address d good six = (_, refl, set_mtu-IsKept ni msg.mtu d six)
after_switch-IsKept ni msg (addressed i addr) d (set, is_six) six =
    let put_link = put-IsSix ni i d.link is_six six in
    let d1 : Devices = record d { link = put ni i d.link } in
    let (g, ifs, same, fresh, all) = set_mtu-IsKept ni msg.mtu d1 put_link in
    (set_mtu ni msg.mtu d1, rw (set, after_switch, build_missing) refl, (g, ifs, same, fresh, all))

pub take_link-IsKept :
    (disable_ipv6 : List ℕ → Bool) (msg : LinkMessage) (ni : ℕ) (d : Devices)
    → Fits msg
    → ((p : ℕ) → IsSix (d.link p))
    → (d' : Devices) × (take_link disable_ipv6 msg ni d ≡ some d') × IsKept d d'
unfolding take_link set_addresses
take_link-IsKept disable_ipv6 msg ni d fits six =
    let name = (d.ifs.interface ni).if_name in
    elim (Bool-cases (same_name name dummy_name)) [
      | inl e ↦ (d, rw e refl, (d.ifs.interface, refl, λ p. refl, refl, six))
      | inr e ↦ elim (Bool-cases (disable_ipv6 name)) [
        | inl f ↦
            let g =
              set_interface ni (record (d.ifs.interface ni) { disabled = true }) d.ifs.interface in
            (
              record d { ifs = record d.ifs { interface = g } },
              rw e (rw f refl),
              (g, refl, λ p. set_interface-if_index ni _ d.ifs.interface p refl, refl, six),
            )
        | inr f ↦
            let (d', ends, kept) =
              after_switch-IsKept ni msg (switch_type msg.type msg.address (d.link ni)) d
                (switch_type-IsGood msg.type msg.address (d.link ni) (six ni) fits) six in
            (d', rw e (rw f ends), kept)
      ]
    ]
