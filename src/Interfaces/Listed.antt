-- ===== src/Interfaces/Listed.antt =====
-- The list and the marks `on_list` agree, whatever is added and removed.
use unstrung.Prelude.{
  ℕ, suc, ◌-◌, ◌≡◌, ◌<◌, refl, inl, inr, true, false, List, [], ◌∷◌, some, ◌==◌, ==_iff,
  if◌then◌else◌, Bool-cases, ap, ◌∙◌, arith,
}
use unstrung.Interfaces.{IfList, add_to_list, unlink, remove_from_list, set_on_list}

abbrev pub times : ℕ → List ℕ → ℕ
times p [] = 0
times p (x ∷ xs) = if x == p then suc (times p xs) else times p xs

-- An interface stands in the list once where `on_list` is set, and else not at all.
abbrev pub IsListed : IfList → Type 0
IsListed s = (p : ℕ) → times p s.all_if ≡ (if s.on_list p then 1 else 0)

unlink-times :
    (this : ℕ) (l : List ℕ)
    → 0 < times this l
    → (l' : List ℕ) × (unlink this l ≡ some l')
      × ((p : ℕ) → times p l' ≡ times p l - (if p == this then 1 else 0))
unfolding unlink
unlink-times this [] h = absurd (omega arith)
unlink-times this (x ∷ next) h = elim (Bool-cases (x == this)) [
  | inl e ↦ (next, rw (e, unlink) refl, λ p. ground arith)
  | inr e ↦
      let there : 0 < times this next = rw e at h in
      let (l, found, counts) = unlink-times this next there in
      (x ∷ l, rw (e, unlink) (rw found refl), λ p. ground (arith, counts p))
]

pub add_to_list-IsListed :
    (this : ℕ) (s : IfList)
    → IsListed s
    → IsListed (add_to_list this s)
      × ((p : ℕ) → (add_to_list this s).on_list p ≡ (if p == this then true else s.on_list p))
unfolding add_to_list
add_to_list-IsListed this s listed = (λ p. ground (arith, listed p, listed this), λ p. ground arith)

off_kept :
    (s : IfList) (this p : ℕ)
    → s.on_list this ≡ false
    → s.on_list p ≡ (if p == this then false else s.on_list p)
off_kept s this p off = elim (Bool-cases (p == this)) [
  | inl e ↦ rw e (ap s.on_list ((==_iff p this).0 e) ∙ off)
  | inr e ↦ rw e refl
]

counted :
    (s : IfList) (this p : ℕ) (l : List ℕ)
    → s.on_list this ≡ true
    → times p l ≡ times p s.all_if - (if p == this then 1 else 0)
    → times p s.all_if ≡ (if s.on_list p then 1 else 0)
    → times p l ≡ (if set_on_list this false s.on_list p then 1 else 0)
counted s this p l on count listed = elim (Bool-cases (p == this)) [
  | inl e ↦
      let here : s.on_list p ≡ true = ap s.on_list ((==_iff p this).0 e) ∙ on in
      ground (arith, here, e)
  | inr e ↦ ground (arith, e)
]

-- On a list that holds each interface once where `on_list` is set and else not at all,
-- `remove_from_list` never reads through NULL, keeps the list so, and takes exactly the interface
-- out of the set that `on_list` is.
pub remove_from_list-IsListed :
    (this : ℕ) (s : IfList)
    → IsListed s
    → (s' : IfList) × (remove_from_list this s ≡ some s')
      × IsListed s'
      × ((p : ℕ) → s'.on_list p ≡ (if p == this then false else s.on_list p))
unfolding remove_from_list
remove_from_list-IsListed this s listed = elim (Bool-cases (s.on_list this)) [
  | inr off ↦ (s, rw (off, remove_from_list) refl, listed, λ p. off_kept s this p off)
  | inl on ↦
      let (l, found, counts) = unlink-times this s.all_if (ground (arith, listed this)) in
      (
        record s { all_if = l; on_list = set_on_list this false s.on_list },
        rw (on, remove_from_list) (rw found refl),
        λ p. counted s this p l on (counts p) (listed p),
        λ p. refl,
      )
]
