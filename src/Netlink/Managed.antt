-- ===== src/Netlink/Managed.antt =====
-- The interfaces under the messages of the kernel: the list is a map from the index.
use mathlib.Core.Option.{some-injective}
use mathlib.Core.Path.{subst}
use unstrung.Prelude.{
  ℕ, suc, ◌≡◌, ◌≤◌, ◌<◌, refl, inl, inr, Bool, true, false, List, ◌∷◌, Option, none, some, ◌==◌,
  ==_iff, if◌then◌else◌, Bool-cases, Option-cases, ap, sym, ◌∙◌, arith,
}
use unstrung.Link.{LinkAddr}
use unstrung.Interfaces.{
  Interface, IfList, find_by_ifindex, add_to_list, remove_from_list, set_interface, set_on_list,
}
use unstrung.Interfaces.Listed.{times, IsListed, add_to_list-IsListed, remove_from_list-IsListed}
use unstrung.Netlink.{
  Devices, LinkMessage, new_interface, new_link, put, find_or_make, take_link, add_linkinfo,
  del_linkinfo,
}
use unstrung.Netlink.Lookup.{
  IsUnique, IsUnique-same, find_by_ifindex-some, find_by_ifindex-same, unlink-IsRemoved,
}
use unstrung.Netlink.Addresses.{IsSix, Fits, take_link-IsKept, put-IsSix}

-- The interface of an index.
abbrev pub lookup : Devices → ℕ → Option ℕ
lookup d j = find_by_ifindex j d.ifs.interface d.ifs.all_if

-- The list agrees with `on_list`, has each index once, and holds no pointer that `new` may give yet.
abbrev pub IsManaged : IfList → ℕ → Type 0
IsManaged s fresh =
    IsListed s × IsUnique s.interface s.all_if × ((p : ℕ) → fresh ≤ p → s.on_list p ≡ false)

on_list_of : (s : IfList) (p : ℕ) → IsListed s → 0 < times p s.all_if → s.on_list p ≡ true
on_list_of s p listed there = elim (Bool-cases (s.on_list p)) [
  | inl e ↦ e
  | inr e ↦ absurd (omega (arith, there, rw e at (listed p)))
]

-- New indices that are the old ones.
IsManaged-same :
    (s : IfList) (fresh : ℕ) (g : ℕ → Interface)
    → IsManaged s fresh
    → ((p : ℕ) → (g p).if_index ≡ (s.interface p).if_index)
    → IsManaged (record s { interface = g }) fresh
IsManaged-same s fresh g (listed, u, bound) same =
    (listed, IsUnique-same s.interface g s.all_if (λ p t. sym (same p)) u, bound)

off_on_list :
    (ni : ℕ) (on_list : ℕ → Bool) (p : ℕ)
    → on_list p ≡ false
    → set_on_list ni false on_list p ≡ false
off_on_list ni on_list p e = elim (Bool-cases (p == ni)) [ inl f ↦ rw f refl | inr f ↦ rw f e ]

pub del_linkinfo-lookup :
    (msg : LinkMessage) (d : Devices) (name : List ℕ) (ni : ℕ)
    → IsManaged d.ifs d.fresh
    → msg.short ≡ false
    → msg.name ≡ some name
    → lookup d msg.index ≡ some ni
    → (ifs : IfList) × (del_linkinfo msg d ≡ some (record d { ifs = ifs }))
      × IsManaged ifs d.fresh
      × ((j : ℕ)
          → lookup (record d { ifs = ifs }) j ≡ (if msg.index == j then none else lookup d j))
unfolding del_linkinfo remove_from_list
del_linkinfo-lookup msg d name ni (listed, u, bound) long named found =
    let (there, names) = find_by_ifindex-some msg.index d.ifs.interface d.ifs.all_if ni found in
    let on = on_list_of d.ifs ni listed there in
    let (l, gone, (unique, look)) = unlink-IsRemoved d.ifs.interface ni d.ifs.all_if u there in
    let ifs : IfList = record d.ifs { all_if = l; on_list = set_on_list ni false d.ifs.on_list } in
    let removed : remove_from_list ni d.ifs ≡ some ifs = rw (on, remove_from_list) (rw gone refl) in
    let (s, ends, still, marks) = remove_from_list-IsListed ni d.ifs listed in
    let same : s ≡ ifs = some-injective s ifs (sym ends ∙ removed) in
    (
      ifs,
      rw (long, del_linkinfo) (rw named (rw found (rw removed refl))),
      (subst IsListed same still, unique, λ p h. off_on_list ni d.ifs.on_list p (bound p h)),
      λ j. look j ∙ ap (λ k. if k == j then none else lookup d j) names,
    )

-- What `find_or_make` leaves: the list with the interface of the index.
abbrev pub IsMade : ℕ → Devices → ℕ × Devices → Type 0
IsMade index d (ni, d') =
    IsManaged d'.ifs d'.fresh
    × ((p : ℕ) → IsSix (d'.link p))
    × ((j : ℕ) → lookup d' j ≡ (if index == j then some ni else lookup d j))

add_to_list-old : (this : ℕ) (s : IfList) → s.on_list this ≡ true → add_to_list this s ≡ s
unfolding add_to_list
add_to_list-old this s on = rw (on, add_to_list) refl

add_to_list-new :
    (this : ℕ) (s : IfList)
    → s.on_list this ≡ false
    → add_to_list this s
      ≡ record s { all_if = this ∷ s.all_if; on_list = set_on_list this true s.on_list }
unfolding add_to_list
add_to_list-new this s off = rw (off, add_to_list) refl

IsMade-old :
    (index ni : ℕ) (d : Devices)
    → IsManaged d.ifs d.fresh
    → ((p : ℕ) → IsSix (d.link p))
    → lookup d index ≡ some ni
    → IsMade index d (ni, record d { ifs = add_to_list ni d.ifs })
IsMade-old index ni d (listed, u, bound) six found =
    let (there, names) = find_by_ifindex-some index d.ifs.interface d.ifs.all_if ni found in
    rw (add_to_list-old ni d.ifs (on_list_of d.ifs ni listed there)) (
      (listed, u, bound),
      six,
      λ j. elim (Bool-cases (index == j)) [
        | inl e ↦ rw e (ap (lookup d) (sym ((==_iff index j).0 e)) ∙ found)
        | inr e ↦ rw e refl
      ],
    )

not_there : (s : IfList) (p : ℕ) → IsListed s → s.on_list p ≡ false → times p s.all_if ≡ 0
not_there s p listed off = rw off at (listed p)

-- Another interface at a pointer that does not stand in the list.
off_list-if_index :
    (s : IfList) (fresh : ℕ) (x : Interface) (p : ℕ)
    → times fresh s.all_if ≡ 0
    → 0 < times p s.all_if
    → (s.interface p).if_index ≡ (set_interface fresh x s.interface p).if_index
off_list-if_index s fresh x p off there = elim (Bool-cases (p == fresh)) [
  | inl e ↦
      let same : times p s.all_if ≡ times fresh s.all_if =
        ap (λ k. times k s.all_if) ((==_iff p fresh).0 e) in
      absurd (omega (arith, there, off, same))
  | inr e ↦ rw e refl
]

set_interface_self : (p : ℕ) (x : Interface) (f : ℕ → Interface) → set_interface p x f p ≡ x
set_interface_self p x f = rw ((==_iff p p).1 refl) refl

fresh_bound :
    (fresh p : ℕ) (on_list : ℕ → Bool)
    → ((q : ℕ) → fresh ≤ q → on_list q ≡ false)
    → suc fresh ≤ p
    → set_on_list fresh true on_list p ≡ false
fresh_bound fresh p on_list bound above =
    let other : (p == fresh) ≡ false = ground arith in rw other (bound p (omega (arith, above)))

IsMade-new :
    (raw : Interface) (raw_link : LinkAddr) (index : ℕ) (ifname : List ℕ) (d : Devices)
    → IsManaged d.ifs d.fresh
    → ((p : ℕ) → IsSix (d.link p))
    → lookup d index ≡ none
    → IsMade index d (
      d.fresh,
      record d {
        ifs = add_to_list d.fresh (record d.ifs {
          interface = set_interface d.fresh (new_interface raw index ifname) d.ifs.interface;
        });
        link = put d.fresh (new_link raw_link) d.link;
        fresh = suc d.fresh;
      },
    )
unfolding new_interface new_link find_by_ifindex
IsMade-new raw raw_link index ifname d (listed, u, bound) six missing =
    let x = new_interface raw index ifname in
    let g = set_interface d.fresh x d.ifs.interface in
    let s : IfList = record d.ifs { interface = g } in
    let off : d.ifs.on_list d.fresh ≡ false = bound d.fresh (omega arith) in
    let same = off_list-if_index d.ifs d.fresh x in
    let absent = not_there d.ifs d.fresh listed off in
    let kept = find_by_ifindex-same d.ifs.interface g d.ifs.all_if (λ p t. same p absent t) in
    let self : g d.fresh ≡ x = set_interface_self d.fresh x d.ifs.interface in
    let added = (add_to_list-IsListed d.fresh s listed).0 in
    let new_listed = subst IsListed (add_to_list-new d.fresh s off) added in
    rw (add_to_list-new d.fresh s off) (
      (
        new_listed,
        (
          rw self (sym (kept index) ∙ missing),
          IsUnique-same d.ifs.interface g d.ifs.all_if (λ p t. same p absent t) u,
        ),
        λ p h. fresh_bound d.fresh p d.ifs.on_list bound h,
      ),
      put-IsSix d.fresh (new_link raw_link) d.link refl six,
      λ j. rw self (ap (λ o. if index == j then some d.fresh else o) (sym (kept j))),
    )

find_or_make-IsMade :
    (raw : Interface) (raw_link : LinkAddr) (index : ℕ) (ifname : List ℕ) (d : Devices)
    → IsManaged d.ifs d.fresh
    → ((p : ℕ) → IsSix (d.link p))
    → IsMade index d (find_or_make raw raw_link index ifname d)
unfolding find_or_make
find_or_make-IsMade raw raw_link index ifname d managed six = elim (Option-cases (lookup d index)) [
  | inl missing ↦
      rw (missing, find_or_make) (IsMade-new raw raw_link index ifname d managed six missing)
  | inr (ni, found) ↦ rw (found, find_or_make) (IsMade-old index ni d managed six found)
]

add_linkinfo-take_link :
    (raw : Interface) (raw_link : LinkAddr) (disable_ipv6 : List ℕ → Bool) (msg : LinkMessage)
    (d : Devices) (name : List ℕ)
    → msg.short ≡ false
    → msg.name ≡ some name
    → msg.up ≡ true
    → msg.running ≡ true
    → let r = find_or_make raw raw_link msg.index name d in
      add_linkinfo raw raw_link disable_ipv6 msg d ≡ take_link disable_ipv6 msg r.0 r.1
unfolding add_linkinfo
add_linkinfo-take_link raw raw_link disable_ipv6 msg d name long named up running =
    rw (long, add_linkinfo) (rw named (rw up (rw running refl)))

pub add_linkinfo-lookup :
    (raw : Interface) (raw_link : LinkAddr) (disable_ipv6 : List ℕ → Bool) (msg : LinkMessage)
    (d : Devices) (name : List ℕ)
    → IsManaged d.ifs d.fresh
    → ((p : ℕ) → IsSix (d.link p))
    → Fits msg
    → msg.short ≡ false
    → msg.name ≡ some name
    → msg.up ≡ true
    → msg.running ≡ true
    → (ni : ℕ) × (d' : Devices) × (add_linkinfo raw raw_link disable_ipv6 msg d ≡ some d')
      × IsMade msg.index d (ni, d')
add_linkinfo-lookup raw raw_link disable_ipv6 msg d name managed six fits long named up running =
    let r = find_or_make raw raw_link msg.index name d in
    let (managed1, six1, look) = find_or_make-IsMade raw raw_link msg.index name d managed six in
    let (d', ends, (g, ifs, same, fresh, six')) =
      take_link-IsKept disable_ipv6 msg r.0 r.1 fits six1 in
    let kept = IsManaged-same r.1.ifs r.1.fresh g managed1 same in
    let found = find_by_ifindex-same g r.1.ifs.interface r.1.ifs.all_if (λ p t. same p) in
    (
      r.0,
      d',
      add_linkinfo-take_link raw raw_link disable_ipv6 msg d name long named up running ∙ ends,
      (rw ifs (rw fresh kept), six', λ j. rw ifs (found j ∙ look j)),
    )
