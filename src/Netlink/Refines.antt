-- ===== src/Netlink/Refines.antt =====
-- The messages of the kernel against the set of the indices that are up.
use unstrung.Prelude.{
  ℕ, ◌≡◌, refl, inl, inr, Bool, true, false, not, ◌&&◌, List, [], ◌∷◌, Option, none, some, ◌==◌,
  if◌then◌else◌, Bool-cases, Option-cases, ap, sym, ◌∙◌,
}
use unstrung.Link.{LinkAddr}
use unstrung.Interfaces.{Interface}
use unstrung.Netlink.{
  Devices, LinkMessage, Note, newlink, dellink, other, gather_linkinfo, add_linkinfo, del_linkinfo,
}
use unstrung.Netlink.Addresses.{IsSix, Fits}
use unstrung.Netlink.Managed.{lookup, IsManaged, IsMade, add_linkinfo-lookup, del_linkinfo-lookup}

abbrev is_some {ℓ} : {A : Type ℓ} → Option A → Bool
is_some none = false
is_some (some a) = true

abbrev pub known : Devices → ℕ → Bool
known d j = is_some (lookup d j)

-- The abstract component: the set of the indices, `none` where the program ends.
abbrev is_told : LinkMessage → Bool
is_told msg = not msg.short && is_some msg.name

abbrev pub follow : Note → (ℕ → Bool) → Option (ℕ → Bool)
follow other k = some k
follow (newlink msg) k =
    if is_told msg && (msg.up && msg.running)
    then some (λ j. if msg.index == j then true else k j)
    else some k
follow (dellink msg) k =
    if is_told msg
    then (if k msg.index then some (λ j. if msg.index == j then false else k j) else none)
    else some k

abbrev pub follow_all : List Note → (ℕ → Bool) → Option (ℕ → Bool)
follow_all [] k = some k
follow_all (note ∷ notes) k = elim (follow note k) [ none ↦ none | some k' ↦ follow_all notes k' ]

abbrev pub FitsNote : Note → Type 0
FitsNote (newlink msg) = Fits msg
FitsNote (dellink msg) = Unit {0}
FitsNote other = Unit {0}

abbrev pub AllFit : List Note → Type 0
AllFit [] = Unit {0}
AllFit (note ∷ notes) = FitsNote note × AllFit notes

abbrev pub IsSound : Devices → (ℕ → Bool) → Type 0
IsSound d k = IsManaged d.ifs d.fresh × ((p : ℕ) → IsSix (d.link p)) × ((j : ℕ) → known d j ≡ k j)

abbrev pub Simulates : Option Devices → Option (ℕ → Bool) → Type 0
Simulates none none = Unit {0}
Simulates none (some k) = ⊥
Simulates (some d) none = ⊥
Simulates (some d) (some k) = IsSound d k

module _ (raw : ℕ → Interface) (raw_link : ℕ → LinkAddr) (disable_ipv6 : List ℕ → Bool) where
  pub gather_all : List Note → Devices → Option Devices
  unfolding gather_linkinfo
  gather_all [] d = some d
  gather_all (note ∷ notes) d = elim (gather_linkinfo raw raw_link disable_ipv6 note d) [
    | none ↦ none
    | some d' ↦ gather_all notes d'
  ]

  Simulates-of :
      (o : Option Devices) (p : Option (ℕ → Bool)) (d : Devices) (k : ℕ → Bool)
      → o ≡ some d
      → p ≡ some k
      → IsSound d k
      → Simulates o p
  Simulates-of o p d k e f sound = rw e (rw f sound)

  -- A message that makes an index known.
  known-newlink :
      (msg : LinkMessage) (d d' : Devices) (k : ℕ → Bool) (ni : ℕ)
      → IsMade msg.index d (ni, d')
      → ((j : ℕ) → known d j ≡ k j)
      → IsSound d' (λ j. if msg.index == j then true else k j)
  known-newlink msg d d' k ni (managed, six, look) same = (
    managed,
    six,
    λ j.
        ap is_some (look j)
        ∙ elim (Bool-cases (msg.index == j)) [ inl e ↦ rw e refl | inr e ↦ rw e (same j) ],
  )

  newlink-Simulates :
      (msg : LinkMessage) (d : Devices) (k : ℕ → Bool)
      → Fits msg
      → IsSound d k
      → Simulates
          (add_linkinfo (raw d.fresh) (raw_link d.fresh) disable_ipv6 msg d)
          (follow (newlink msg) k)
  unfolding add_linkinfo
  newlink-Simulates msg d k fits (managed, six, same) = elim (Bool-cases msg.short) [
    | inl e ↦ rw (e, add_linkinfo) (managed, six, same)
    | inr long ↦ elim (Option-cases msg.name) [
      | inl e ↦ rw (long, add_linkinfo) (rw e (managed, six, same))
      | inr (name, named) ↦ elim (Bool-cases msg.up) [
        | inr e ↦ rw (long, add_linkinfo) (rw named (rw e (managed, six, same)))
        | inl up ↦ elim (Bool-cases msg.running) [
          | inr e ↦ rw (long, add_linkinfo) (rw named (rw up (rw e (managed, six, same))))
          | inl running ↦
              let (ni, d', ends, made) =
                add_linkinfo-lookup (raw d.fresh) (raw_link d.fresh) disable_ipv6 msg d name managed
                  six fits long named up running in
              let told : (is_told msg && (msg.up && msg.running)) ≡ true =
                rw long (rw named (rw up (rw running refl))) in
              Simulates-of _ _ d' (λ j. if msg.index == j then true else k j) ends (rw told refl)
                (known-newlink msg d d' k ni made same)
        ]
      ]
    ]
  ]

  without_index :
      (index : ℕ) (d : Devices) (k : ℕ → Bool) (j : ℕ)
      → known d j ≡ k j
      → is_some (if index == j then none else lookup d j) ≡ (if index == j then false else k j)
  without_index index d k j same = elim (Bool-cases (index == j)) [
    | inl e ↦ rw e refl
    | inr e ↦ rw e same
  ]

  dellink-Simulates :
      (msg : LinkMessage) (d : Devices) (k : ℕ → Bool)
      → IsSound d k
      → Simulates (del_linkinfo msg d) (follow (dellink msg) k)
  unfolding del_linkinfo
  dellink-Simulates msg d k (managed, six, same) = elim (Bool-cases msg.short) [
    | inl e ↦ rw (e, del_linkinfo) (managed, six, same)
    | inr long ↦ elim (Option-cases msg.name) [
      | inl e ↦ rw (long, del_linkinfo) (rw e (managed, six, same))
      | inr (name, named) ↦ elim (Option-cases (lookup d msg.index)) [
        | inl missing ↦
            let unknown : k msg.index ≡ false = sym (same msg.index) ∙ ap is_some missing in
            rw (long, del_linkinfo) (rw named (rw missing (rw unknown tt)))
        | inr (ni, found) ↦
            let (ifs, ends, managed', look) =
              del_linkinfo-lookup msg d name ni managed long named found in
            let there : k msg.index ≡ true = sym (same msg.index) ∙ ap is_some found in
            let told : is_told msg ≡ true = rw long (rw named refl) in
            Simulates-of _ _ (record d { ifs = ifs }) (λ j. if msg.index == j then false else k j)
              ends (rw told (rw there refl))
              (managed', six, λ j. ap is_some (look j) ∙ without_index msg.index d k j (same j))
      ]
    ]
  ]

  gather_linkinfo-Simulates :
      (note : Note) (d : Devices) (k : ℕ → Bool)
      → FitsNote note
      → IsSound d k
      → Simulates (gather_linkinfo raw raw_link disable_ipv6 note d) (follow note k)
  unfolding gather_linkinfo
  gather_linkinfo-Simulates (newlink msg) d k fits sound = newlink-Simulates msg d k fits sound
  gather_linkinfo-Simulates (dellink msg) d k fits sound = dellink-Simulates msg d k sound
  gather_linkinfo-Simulates other d k fits sound = sound

  Simulates-then :
      (notes : List Note)
      → ((d : Devices) (k : ℕ → Bool)
          → IsSound d k
          → Simulates (gather_all notes d) (follow_all notes k))
      → (o : Option Devices) (p : Option (ℕ → Bool)) → Simulates o p
      → Simulates
          (elim o [ none ↦ none | some d ↦ gather_all notes d ])
          (elim p [ none ↦ none | some k ↦ follow_all notes k ])
  Simulates-then notes rest none none s = tt
  Simulates-then notes rest none (some k) s = elim s [ ]
  Simulates-then notes rest (some d) none s = elim s [ ]
  Simulates-then notes rest (some d) (some k) s = rest d k s

  -- Where the list of interfaces agrees with its marks, has each index once and no pointer that is
  -- still to be made, and every EUI-48 has six bytes, any messages of the kernel, in any order,
  -- whose addresses have the room of the field that they are copied to, make the interfaces follow
  -- a set of indices: a link that is up and running enters it, a deleted link leaves it, nothing
  -- else changes it, and the deletion of an index that is not in it is the only fault.
  pub gather_all-Simulates :
      (notes : List Note) (d : Devices) (k : ℕ → Bool)
      → AllFit notes
      → IsSound d k
      → Simulates (gather_all notes d) (follow_all notes k)
  unfolding gather_all
  gather_all-Simulates [] d k fits sound = sound
  gather_all-Simulates (note ∷ notes) d k (fits, all) sound =
      Simulates-then notes (λ d' k' s. gather_all-Simulates notes d' k' all s)
        (gather_linkinfo raw raw_link disable_ipv6 note d) (follow note k)
        (gather_linkinfo-Simulates note d k fits sound)
