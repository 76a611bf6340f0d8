-- ===== src/RplMsg/Chain.antt =====
-- A well-formed chain of suboptions, and what a search finds in it.
use mathlib.Core.List.{append_assoc}
use native.Mathlib.Numerals.{towards_suc}
use unstrung.Prelude.{
  ℕ, ◌+◌, ◌≤◌, ◌<◌, ◌≡◌, ◌≢◌, refl, List, [], ◌∷◌, ◌++◌, Option, none, some, length, length-append,
  get_elem?, drop, ◌==◌, if◌then◌else◌, sym, ap, ◌∙◌, arith,
}
use unstrung.Wire.{get_elem?-drop, drop-drop, drop-append_length}
use unstrung.RplMsg.{Offsets, Search, found, absent}

-- A byte of padding, or an option with its type and content.
pub data SubOption : Type 0 where
  pad : SubOption
  opt : ℕ → List ℕ → SubOption

unfoldable pub encode : List SubOption → List ℕ
encode [] = []
encode (pad ∷ os) = 0 ∷ encode os
encode (opt type content ∷ os) = type ∷ length content ∷ (content ++ encode os)

-- The options that the loop can walk over: an empty one would end it.
abbrev pub IsChain : List SubOption → Type 0
IsChain [] = Unit {0}
IsChain (pad ∷ os) = IsChain os
IsChain (opt type content ∷ os) = (type ≢ 0) × (0 < length content) × IsChain os

-- Each content has two bytes at least.
abbrev pub AllLong : List (List ℕ) → Type 0
AllLong [] = Unit {0}
AllLong (content ∷ rest) = (2 ≤ length content) × AllLong rest

-- The first option of a type: what stands before it, its content, what follows.
pub record Hit : Type 0 where
  pub before : List SubOption
  pub content : List ℕ
  pub rest : List SubOption

abbrev pub behind : SubOption → Option Hit → Option Hit
behind o none = none
behind o (some h) = some (record h { before = o ∷ h.before })

unfoldable pub first_of_type : ℕ → List SubOption → Option Hit
first_of_type optnum [] = none
first_of_type optnum (pad ∷ os) = behind pad (first_of_type optnum os)
first_of_type optnum (opt type content ∷ os) =
    let later = behind (opt type content) (first_of_type optnum os) in
    if type == optnum then some (record { before = []; content = content; rest = os }) else later

-- The search finds exactly the first option of the type, at its place.
abbrev pub Finds : ℕ → ℕ → Option Hit → Search → Type 0
Finds optnum offset none r = (after : Offsets) × (r ≡ absent after)
Finds optnum offset (some h) r =
    (after : Offsets) × (r ≡ found (offset + length (encode h.before)) (length h.content + 2) after)
    × (after optnum ≡ some (offset + length (encode h.before) + (length h.content + 2)))

pub length-encode_opt :
    (type : ℕ) (content : List ℕ) (os : List SubOption)
    → length (encode (opt type content ∷ os)) ≡ length content + length (encode os) + 2
unfolding encode
length-encode_opt type content os = omega (arith, length-append content (encode os))

-- What is too short for the loop to go on holds no option.
pub first_of_type_short :
    (optnum : ℕ) (os : List SubOption)
    → IsChain os
    → length (encode os) ≤ 2
    → first_of_type optnum os ≡ none
unfolding first_of_type encode
first_of_type_short optnum [] c h = refl
first_of_type_short optnum (pad ∷ os) c h = rw (first_of_type_short optnum os c (omega arith))
first_of_type_short optnum (opt type content ∷ os) c h =
    absurd (omega (arith, length-encode_opt type content os))

-- Where a chain lies in the bytes, between `offset` and `len`.
abbrev pub LiesAt : List ℕ → ℕ → ℕ → List SubOption → Type 0
LiesAt bytes offset len os =
    ((junk : List ℕ) × (drop offset bytes ≡ encode os ++ junk))
    × (len ≡ offset + length (encode os))

pub byte_at :
    (bytes : List ℕ) (offset i : ℕ) {ys : List ℕ}
    → drop offset bytes ≡ ys
    → get_elem? bytes (offset + i) ≡ get_elem? ys i
byte_at bytes offset i e = sym (get_elem?-drop offset bytes i) ∙ ap (λ t. get_elem? t i) e

pub length-encode_cons :
    (o : SubOption) (os : List SubOption)
    → length (encode (o ∷ os)) ≡ length (encode (o ∷ [])) + length (encode os)
unfolding encode
length-encode_cons pad os = omega arith
length-encode_cons (opt type content) os =
    omega (arith, length-append content (encode os), length-append content [])

pub Finds-behind :
    (optnum offset size : ℕ) (o : SubOption) (h : Option Hit) (r : Search)
    → length (encode (o ∷ [])) ≡ size
    → Finds optnum (offset + size) h r
    → Finds optnum offset (behind o h) r
Finds-behind optnum offset size o none r e f = f
Finds-behind optnum offset size o (some h) r e (after, found_at, resumes) = (
  after,
  found_at
      ∙ ap (λ t. found t (length h.content + 2) after)
          (omega (arith, e, length-encode_cons o h.before)),
  resumes ∙ ap some (omega (arith, e, length-encode_cons o h.before)),
)

pub head_of_long :
    (xs junk : List ℕ) → 0 < length xs → (y : ℕ) × (get_elem? (xs ++ junk) 0 ≡ some y)
head_of_long [] junk h = absurd (omega arith)
head_of_long (x ∷ xs) junk h = (x, refl)

pub drop_next :
    (bytes : List ℕ) (offset k : ℕ) {ys : List ℕ}
    → drop offset bytes ≡ ys
    → drop (offset + k) bytes ≡ drop k ys
drop_next bytes offset k e = sym (drop-drop k offset bytes) ∙ ap (drop k) e

pub drop-option :
    (type : ℕ) (content more junk : List ℕ)
    → drop (length content + 2) (type ∷ length content ∷ ((content ++ more) ++ junk)) ≡ more ++ junk
drop-option type content more junk =
    simp towards_suc (rw append_assoc (drop-append_length content (more ++ junk)))
