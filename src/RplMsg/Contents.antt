-- ===== src/RplMsg/Contents.antt =====
-- The walk over a chain, one option of a type after the other.
use mathlib.Core.List.{append_assoc}
use native.Mathlib.Numerals.{towards_suc}
use native.Mathlib.Decide.{ℕ_discrete}
use mathlib.Core.Path.{subst}
use unstrung.Prelude.{
  ℕ, ◌+◌, ◌≤◌, ◌<◌, ◌≡◌, ◌≢◌, inl, inr, refl, List, [], ◌∷◌, ◌++◌, none, some, length,
  length-append, drop, Option-cases, ◌==◌, if◌then◌else◌, sym, ap, ◌∙◌, arith,
}
use unstrung.Wire.{drop-append_length}
use unstrung.RplMsg.{RplMsg, Offsets, found, absent, search_subopt, bytes_size}
use unstrung.RplMsg.Chain.{
  SubOption, pad, opt, encode, IsChain, Hit, first_of_type, LiesAt, drop_next,
}
use unstrung.RplMsg.Finding.{search_subopt-Finds}

-- The contents of the options of a type, in order.
unfoldable pub contents : ℕ → List SubOption → List (List ℕ)
contents optnum [] = []
contents optnum (pad ∷ os) = contents optnum os
contents optnum (opt type content ∷ os) =
    let later = contents optnum os in if type == optnum then content ∷ later else later

contents-none :
    (optnum : ℕ) (os : List SubOption) → first_of_type optnum os ≡ none → contents optnum os ≡ []
unfolding contents first_of_type
contents-none optnum [] e = refl
contents-none optnum (pad ∷ os) e = elim (Option-cases (first_of_type optnum os)) [
  | inl n ↦ contents-none optnum os n
  | inr (h, s) ↦ ground arith
]
contents-none optnum (opt type content ∷ os) e = elim (Option-cases (first_of_type optnum os)) [
  | inl n ↦ ground (arith, contents-none optnum os n)
  | inr (h, s) ↦ ground arith
]

-- What a hit takes apart.
record IsSplit (optnum : ℕ) (os : List SubOption) (h : Hit) : Type 0 where
  next : contents optnum os ≡ h.content ∷ contents optnum h.rest
  chain : IsChain h.rest
  nonempty : 0 < length h.content
  bytes : encode os ≡ encode h.before ++ (optnum ∷ length h.content ∷ (h.content ++ encode h.rest))

IsSplit-behind :
    (optnum : ℕ) (o : SubOption) (os : List SubOption) (h : Hit)
    → contents optnum (o ∷ os) ≡ contents optnum os
    → IsSplit optnum os h
    → IsSplit optnum (o ∷ os) (record h { before = o ∷ h.before })
unfolding encode
IsSplit-behind optnum pad os h e s = record {
  next = e ∙ s.next;
  chain = s.chain;
  nonempty = s.nonempty;
  bytes = ap (λ t. 0 ∷ t) s.bytes;
}
IsSplit-behind optnum (opt type content) os h e s = record {
  next = e ∙ s.next;
  chain = s.chain;
  nonempty = s.nonempty;
  bytes =
      ap (λ t. type ∷ length content ∷ (content ++ t)) s.bytes
      ∙ ap (λ t. type ∷ length content ∷ t) (sym (append_assoc content (encode h.before) _));
}

first_of_type-IsSplit :
    (optnum : ℕ) (os : List SubOption) (h : Hit)
    → IsChain os
    → first_of_type optnum os ≡ some h
    → IsSplit optnum os h
unfolding first_of_type
first_of_type-IsSplit optnum [] h c e = cc
first_of_type-IsSplit optnum (pad ∷ os) h c e = elim (Option-cases (first_of_type optnum os)) [
  | inl n ↦ ground arith
  | inr (g, s) ↦
      subst (IsSplit optnum (pad ∷ os)) {x = record g { before = pad ∷ g.before }} (ground arith) (
        IsSplit-behind optnum pad os g (unfold contents in refl)
          (first_of_type-IsSplit optnum os g c s))
]
first_of_type-IsSplit optnum (opt type content ∷ os) h c e = elim (ℕ_discrete type optnum) [
  | yes same ↦
      subst (IsSplit optnum (opt type content ∷ os))
        {x = record { before = []; content = content; rest = os }} (ground arith)
        (record {
          next = unfold contents in ground arith;
          chain = c.2;
          nonempty = c.1;
          bytes = unfold encode in ap (λ t. t ∷ length content ∷ (content ++ encode os)) same;
        })
  | no other ↦ elim (Option-cases (first_of_type optnum os)) [
    | inl n ↦ ground arith
    | inr (g, s) ↦
        subst (IsSplit optnum (opt type content ∷ os))
          {x = record g { before = opt type content ∷ g.before }} (ground arith)
          (IsSplit-behind optnum (opt type content) os g (unfold contents in ground arith)
            (first_of_type-IsSplit optnum os g c.2 s))
  ]
]

-- One call of `search_subopt` on a chain: nothing is left, or the next option is handed out and
-- what follows it is again a chain, where the next call goes on.
pub data Walk (optnum : ℕ) (os : List SubOption) (m : RplMsg) : Type 0 where
  ended :
      (after : Offsets)
      → contents optnum os ≡ []
      → search_subopt m optnum ≡ absent after
      → Walk optnum os m
  handed :
      (offset : ℕ) (content more : List ℕ) (rest : List SubOption) (after : Offsets)
      → contents optnum os ≡ content ∷ contents optnum rest
      → search_subopt m optnum ≡ found offset (length content + 2) after
      → after optnum ≡ some (offset + (length content + 2))
      → drop (offset + 2) m.bytes ≡ content ++ more
      → IsChain rest
      → LiesAt m.bytes (offset + (length content + 2)) m.len rest
      → length (encode rest) < length (encode os)
      → Walk optnum os m

-- Where the parts of a hit lie.
module _ (optnum : ℕ) (bytes : List ℕ) (from len : ℕ) (os : List SubOption) (h : Hit) where
  split_at :
      (junk : List ℕ)
      → IsSplit optnum os h
      → drop from bytes ≡ encode os ++ junk
      → drop (from + length (encode h.before)) bytes
        ≡ optnum ∷ length h.content ∷ (h.content ++ (encode h.rest ++ junk))
  split_at junk s d =
      drop_next bytes from (length (encode h.before)) d
      ∙ ap (λ t. drop (length (encode h.before)) (t ++ junk)) s.bytes
      ∙ ap (drop (length (encode h.before))) (append_assoc (encode h.before) _ junk)
      ∙ drop-append_length (encode h.before) _
      ∙ ap (λ t. optnum ∷ length h.content ∷ t) (append_assoc h.content (encode h.rest) junk)

  length-split :
      IsSplit optnum os h
      → length (encode os)
        ≡ length (encode h.before) + (length h.content + 2) + length (encode h.rest)
  length-split s =
      ap length s.bytes
      ∙ omega (
        arith,
        length-append (encode h.before) (optnum ∷ length h.content ∷ (h.content ++ encode h.rest)),
        length-append h.content (encode h.rest),
      )

pub search_subopt-Walk :
    (os : List SubOption) (m : RplMsg) (optnum from : ℕ)
    → m.options optnum ≡ some from
    → IsChain os
    → optnum ≢ 0
    → LiesAt m.bytes from m.len os
    → length (encode os) ≤ bytes_size
    → Walk optnum os m
search_subopt-Walk os m optnum from e c nz ((junk, d), l) size =
    let f = search_subopt-Finds os m optnum from e c nz ((junk, d), l) size in
    elim (Option-cases (first_of_type optnum os)) [
      | inl n ↦ let (after, r) = rw n at f in ended after (contents-none optnum os n) r
      | inr (h, s) ↦
          let (after, r, resumes) = rw s at f in
          let p = first_of_type-IsSplit optnum os h c s in
          let size_of = length-split optnum m.bytes from m.len os h p in
          let at = split_at optnum m.bytes from m.len os h junk p d in
          handed (from + length (encode h.before)) h.content (encode h.rest ++ junk) h.rest after
            p.next r resumes (drop_next m.bytes (from + length (encode h.before)) 2 at) p.chain
            (
              (
                junk,
                drop_next m.bytes (from + length (encode h.before)) (length h.content + 2) at
                    ∙ simp towards_suc (drop-append_length h.content (encode h.rest ++ junk)),
              ),
              omega (arith, l, size_of),
            )
            (omega (arith, size_of))
    ]
