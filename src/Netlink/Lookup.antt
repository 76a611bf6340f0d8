-- ===== src/Netlink/Lookup.antt =====
-- The search for an index along the list of interfaces, and what adding and removing do to it.
use mathlib.Core.Option.{some-injective}
use mathlib.Core.Path.{subst}
use unstrung.Prelude.{
  ℕ, ◌≡◌, ◌<◌, refl, inl, inr, true, false, List, [], ◌∷◌, Option, none, some, ◌==◌, ==_iff, Bool,
  if◌then◌else◌, Bool-cases, ap, sym, ◌∙◌, arith,
}
use unstrung.Interfaces.{Interface, find_by_ifindex, unlink}
use unstrung.Interfaces.Listed.{times}

-- No two places of the list have the same index.
abbrev pub IsUnique : (ℕ → Interface) → List ℕ → Type 0
IsUnique f [] = Unit {0}
IsUnique f (x ∷ next) = (find_by_ifindex (f x).if_index f next ≡ none) × IsUnique f next

times_here : (x : ℕ) (next : List ℕ) → 0 < times x (x ∷ next)
times_here x next = rw ((==_iff x x).1 refl) (omega arith)

times_there : (x p : ℕ) (next : List ℕ) → 0 < times p next → 0 < times p (x ∷ next)
times_there x p next there = elim (Bool-cases (x == p)) [
  | inl e ↦ rw e (omega arith)
  | inr e ↦ rw e there
]

pub find_by_ifindex-some :
    (j : ℕ) (f : ℕ → Interface) (l : List ℕ) (p : ℕ)
    → find_by_ifindex j f l ≡ some p
    → (0 < times p l) × ((f p).if_index ≡ j)
unfolding find_by_ifindex
find_by_ifindex-some j f [] p e = absurd (ground (arith, e))
find_by_ifindex-some j f (x ∷ next) p e = elim (Bool-cases ((f x).if_index == j)) [
  | inl here ↦
      let same : x ≡ p = some-injective x p (rw here at e) in
      (
        subst (λ k. 0 < times k (x ∷ next)) same (times_here x next),
        ap (λ k. (f k).if_index) (sym same) ∙ (==_iff (f x).if_index j).0 here,
      )
  | inr off ↦
      let (there, names) = find_by_ifindex-some j f next p (rw off at e) in
      (times_there x p next there, names)
]

pub find_by_ifindex-none :
    (j : ℕ) (f : ℕ → Interface) (l : List ℕ) (p : ℕ)
    → find_by_ifindex j f l ≡ none
    → 0 < times p l
    → ((f p).if_index == j) ≡ false
unfolding find_by_ifindex
find_by_ifindex-none j f [] p e there = absurd (omega (arith, there))
find_by_ifindex-none j f (x ∷ next) p e there = elim (Bool-cases ((f x).if_index == j)) [
  | inl here ↦ absurd (ground (arith, here, e))
  | inr off ↦ elim (Bool-cases (x == p)) [
    | inl same ↦ ap (λ k. (f k).if_index == j) (sym ((==_iff x p).0 same)) ∙ off
    | inr other ↦ find_by_ifindex-none j f next p (rw off at e) (rw other at there)
  ]
]

pub find_by_ifindex-same :
    (f g : ℕ → Interface) (l : List ℕ)
    → ((p : ℕ) → 0 < times p l → (f p).if_index ≡ (g p).if_index)
    → (j : ℕ) → find_by_ifindex j f l ≡ find_by_ifindex j g l
unfolding find_by_ifindex
find_by_ifindex-same f g [] same j = refl
find_by_ifindex-same f g (x ∷ next) same j =
    rw (same x (times_here x next))
      (rw (find_by_ifindex-same f g next (λ p t. same p (times_there x p next t)) j) refl)

pub IsUnique-same :
    (f g : ℕ → Interface) (l : List ℕ)
    → ((p : ℕ) → 0 < times p l → (f p).if_index ≡ (g p).if_index)
    → IsUnique f l
    → IsUnique g l
IsUnique-same f g [] same u = u
IsUnique-same f g (x ∷ next) same (fresh, u) =
    let below : (p : ℕ) → 0 < times p next → (f p).if_index ≡ (g p).if_index =
      λ p t. same p (times_there x p next t) in
    (
      rw (sym (same x (times_here x next)))
          (sym (find_by_ifindex-same f g next below (f x).if_index) ∙ fresh),
      IsUnique-same f g next below u,
    )

-- The search behind an entry of the same index fails.
same_index-none :
    (f : ℕ → Interface) (x : ℕ) (next : List ℕ) (j : ℕ)
    → find_by_ifindex (f x).if_index f next ≡ none
    → ((f x).if_index == j) ≡ true
    → find_by_ifindex j f next ≡ none
same_index-none f x next j fresh e =
    subst (λ k. find_by_ifindex k f next ≡ none) ((==_iff (f x).if_index j).0 e) fresh

none_either : {A : Type 0} (b : Bool) (o : Option A) → o ≡ none → (if b then none else o) ≡ none
none_either true o e = refl
none_either false o e = e

-- The list without one that stands in it.
abbrev pub IsRemoved : (ℕ → Interface) → ℕ → List ℕ → List ℕ → Type 0
IsRemoved f this l l' =
    IsUnique f l'
    × ((j : ℕ)
        → find_by_ifindex j f l' ≡ (if (f this).if_index == j then none else find_by_ifindex j f l))

IsRemoved-first :
    (f : ℕ → Interface) (x : ℕ) (next : List ℕ)
    → IsUnique f (x ∷ next)
    → IsRemoved f x (x ∷ next) next
unfolding find_by_ifindex
IsRemoved-first f x next (fresh, u) = (
  u,
  λ j. elim (Bool-cases ((f x).if_index == j)) [
    | inl e ↦ rw e (same_index-none f x next j fresh e)
    | inr e ↦ rw e refl
  ],
)

IsRemoved-later :
    (f : ℕ → Interface) (this x : ℕ) (next m : List ℕ)
    → IsUnique f (x ∷ next)
    → 0 < times this next
    → IsRemoved f this next m
    → IsRemoved f this (x ∷ next) (x ∷ m)
unfolding find_by_ifindex
IsRemoved-later f this x next m (fresh, u) there (um, look) = (
  (look (f x).if_index ∙ none_either ((f this).if_index == (f x).if_index) _ fresh, um),
  λ j. elim (Bool-cases ((f x).if_index == j)) [
    | inl e ↦
        let off = find_by_ifindex-none j f next this (same_index-none f x next j fresh e) there in
        rw e (rw off refl)
    | inr e ↦ rw e (look j)
  ],
)

pub unlink-IsRemoved :
    (f : ℕ → Interface) (this : ℕ) (l : List ℕ)
    → IsUnique f l
    → 0 < times this l
    → (l' : List ℕ) × (unlink this l ≡ some l') × IsRemoved f this l l'
unfolding unlink
unlink-IsRemoved f this [] u there = absurd (omega (arith, there))
unlink-IsRemoved f this (x ∷ next) (fresh, u) there = elim (Bool-cases (x == this)) [
  | inl same ↦
      let removed =
        subst (λ k. IsRemoved f k (x ∷ next) next) ((==_iff x this).0 same)
          (IsRemoved-first f x next (fresh, u)) in
      (next, rw (same, unlink) refl, removed)
  | inr other ↦
      let below : 0 < times this next = rw other at there in
      let (m, found, removed) = unlink-IsRemoved f this next u below in
      (
        x ∷ m,
        rw (other, unlink) (rw found refl),
        IsRemoved-later f this x next m (fresh, u) below removed,
      )
]
