-- ===== src/Message/Dao.antt =====
-- `build_dao`: the message that it writes, and what its receiver reads back.
use mathlib.Core.List.{append_assoc, append-nil, foldl}
use unstrung.Prelude.{
  ℕ, zero, suc, ◌+◌, ◌-◌, ◌*◌, ◌%◌, ◌^◌, ◌≤◌, ◌≡◌, refl, List, [], ◌∷◌, ◌++◌, map, Option, some,
  length, length-append, length-take, length-replicate, take, replicate, ap, ◌∙◌, sym, arith,
}
use unstrung.Wire.{Subnet, rpl_dao_rpltarget, nd_rpl_dao}
use unstrung.Prefix.{PrefixNode, PrefixMap}
use unstrung.RplMsg.Chain.{SubOption, opt, pad, encode}
use unstrung.Dag.{DagNetwork}
use unstrung.Message.{
  built, build_dao, dao_target, dao_header, build_target_opt, icmp6_header, round_up_8,
}
use unstrung.Message.Writing.{
  zeros, write_at-zeros, append_suboption-zeros, take-zeros, take-append_more,
}

-- Every entry of a prefix map has an address of 16 bytes.
abbrev pub AllAddr : PrefixMap → Type 0
AllAddr [] = Unit {0}
AllAddr ((key, p) ∷ m) = (length p.prefix.addr ≡ 16) × AllAddr m

-- The option that stands for an entry.
unfoldable pub target_option : Subnet × PrefixNode → SubOption
target_option (key, p) = opt rpl_dao_rpltarget (build_target_opt p.prefix)

length-build_target_opt : (sub : Subnet) → length sub.addr ≡ 16 → length (build_target_opt sub) ≡ 18
unfolding build_target_opt
length-build_target_opt sub h = omega (arith, length-take 16 sub.addr)

-- One round of the loop appends one option.
dao_target_lem :
    (xs : List ℕ) (k buff_len pos : ℕ) (entry : Subnet × PrefixNode)
    → buff_len ≡ length xs + k
    → pos ≡ length xs
    → length entry.1.prefix.addr ≡ 16
    → 20 ≤ k
    → dao_target buff_len (some (xs ++ zeros k, pos)) entry
      ≡ some ((xs ++ encode (target_option entry ∷ [])) ++ zeros (k - 20), pos + 20)
unfolding dao_target target_option
dao_target_lem xs k buff_len pos (key, p) e f h room =
    let content = build_target_opt p.prefix in
    let n = length-build_target_opt p.prefix h in
    rw
      (
        append_suboption-zeros xs content k pos (buff_len - pos) rpl_dao_rpltarget f
            (omega (arith, n)) (omega (arith, n)) (omega (arith, n)),
        dao_target,
      )
      (rw n refl)

-- The buffer and the place of the next option, up to what is equal.
written :
    {xs ys : List ℕ} {k l pos next : ℕ}
    → xs ≡ ys
    → k ≡ l
    → pos ≡ next
    → ◌≡◌ {A = Option (List ℕ × ℕ)} (some (xs ++ zeros k, pos)) (some (ys ++ zeros l, next))
written e f g = λ i. some (e i ++ zeros (f i), g i)

encode-append : (os more : List SubOption) → encode (os ++ more) ≡ encode os ++ encode more
unfolding encode
encode-append [] more = refl
encode-append (pad ∷ os) more = ap (λ t. 0 ∷ t) (encode-append os more)
encode-append (opt type content ∷ os) more =
    ap (λ t. type ∷ length content ∷ (content ++ t)) (encode-append os more)
    ∙ ap (λ t. type ∷ length content ∷ t) (sym (append_assoc content (encode os) (encode more)))

length-encode_target :
    (entry : Subnet × PrefixNode)
    → length entry.1.prefix.addr ≡ 16
    → length (encode (target_option entry ∷ [])) ≡ 20
unfolding target_option encode
length-encode_target (key, p) h =
    omega (arith, length-build_target_opt p.prefix h, length-append (build_target_opt p.prefix) [])

-- The loops append one option for each entry, where the buffer has room.
targets_written :
    (entries : PrefixMap) (xs : List ℕ) (k buff_len pos : ℕ)
    → buff_len ≡ length xs + k
    → pos ≡ length xs
    → AllAddr entries
    → 20 * length entries ≤ k
    → foldl (dao_target buff_len) (some (xs ++ zeros k, pos)) entries
      ≡ some (
        (xs ++ encode (map target_option entries)) ++ zeros (k - 20 * length entries),
        pos + 20 * length entries,
      )
unfolding encode
targets_written [] xs k buff_len pos e f a room =
    written (sym (append-nil xs)) (omega arith) (omega arith)
targets_written (entry ∷ entries) xs k buff_len pos e f a room =
    let size = length-encode_target entry a.0 in
    let len = length-append xs (encode (target_option entry ∷ [])) in
    rw (dao_target_lem xs k buff_len pos entry e f a.0 (omega arith)) (
      targets_written entries (xs ++ encode (target_option entry ∷ [])) (k - 20) buff_len (pos + 20)
        (omega (arith, size, len)) (omega (arith, size, len)) a.1 (omega arith)
      ∙ written
          (append_assoc xs (encode (target_option entry ∷ [])) (encode (map target_option entries))
            ∙ ap (λ t. xs ++ t)
                (sym (encode-append (target_option entry ∷ []) (map target_option entries))))
          (omega arith) (omega arith))

-- The entries of which a DAO tells, and the number that it carries.
abbrev pub dao_entries : DagNetwork → PrefixMap
dao_entries d = d.children ++ d.announced

abbrev pub next_sequence : DagNetwork → ℕ
next_sequence d = (d.dao_sequence + 1) % 2 ^ 16

abbrev pub dao_fixed : DagNetwork → List ℕ
dao_fixed d = icmp6_header nd_rpl_dao ++ dao_header d (next_sequence d)

pub length-dao_fixed : (d : DagNetwork) → length d.dagid ≡ 16 → length (dao_fixed d) ≡ 24
unfolding dao_header
length-dao_fixed d h = omega (arith, h)

pub build_dao_lem :
    (d : DagNetwork) (buff_len : ℕ)
    → length d.dagid ≡ 16
    → AllAddr (dao_entries d)
    → 24 + 20 * length (dao_entries d) ≤ buff_len
    → build_dao d buff_len ≡ (
      record d { dao_sequence = next_sequence d },
      built
          ((dao_fixed d ++ encode (map target_option (dao_entries d)))
            ++ zeros (buff_len - 24 - 20 * length (dao_entries d)))
          (round_up_8 (24 + 20 * length (dao_entries d))),
    )
unfolding build_dao
build_dao_lem d buff_len id a room =
    let n = length-dao_fixed d id in
    rw (write_at-zeros [] (dao_fixed d) buff_len 0 refl (omega (arith, n)), build_dao)
      (rw n (
        rw
          (targets_written (dao_entries d) (dao_fixed d) (buff_len - 24) buff_len 24
            (omega (arith, n)) (omega (arith, n)) a (omega arith))
          refl))

-- The options of the message that is sent: the targets, and the padding up to a multiple of 8.
unfoldable pub dao_chain : DagNetwork → List SubOption
dao_chain d =
    let len = 24 + 20 * length (dao_entries d) in
    map target_option (dao_entries d) ++ replicate (round_up_8 len - len) pad

encode-replicate_pad : (n : ℕ) → encode (replicate n pad) ≡ zeros n
unfolding encode
encode-replicate_pad zero = refl
encode-replicate_pad (suc n) = ap (λ t. 0 ∷ t) (encode-replicate_pad n)

length-encode_targets :
    (entries : PrefixMap)
    → AllAddr entries
    → length (encode (map target_option entries)) ≡ 20 * length entries
unfolding encode
length-encode_targets [] a = refl
length-encode_targets (entry ∷ entries) a =
    ap length (encode-append (target_option entry ∷ []) (map target_option entries))
    ∙ omega (
      arith,
      length-append (encode (target_option entry ∷ [])) (encode (map target_option entries)),
      length-encode_target entry a.0,
      length-encode_targets entries a.1,
    )

-- What is sent, behind the fixed part, is the encoding of `dao_chain`.
pub dao_sent :
    (d : DagNetwork) (k : ℕ)
    → length d.dagid ≡ 16
    → AllAddr (dao_entries d)
    → round_up_8 (24 + 20 * length (dao_entries d)) ≤ 24 + 20 * length (dao_entries d) + k
    → take
        (round_up_8 (24 + 20 * length (dao_entries d)))
        ((dao_fixed d ++ encode (map target_option (dao_entries d))) ++ zeros k)
      ≡ dao_fixed d ++ encode (dao_chain d)
unfolding dao_chain
dao_sent d k id a room =
    let len : ℕ = 24 + 20 * length (dao_entries d) in
    let targets = encode (map target_option (dao_entries d)) in
    let total = length-append (dao_fixed d) targets in
    let n = length-dao_fixed d id in
    let t = length-encode_targets (dao_entries d) a in
    ap (λ i. take i ((dao_fixed d ++ targets) ++ zeros k))
      {y = length (dao_fixed d ++ targets) + (round_up_8 len - len)} (omega (arith, total, n, t))
    ∙ take-append_more (dao_fixed d ++ targets) (zeros k) (round_up_8 len - len)
    ∙ ap (λ z. (dao_fixed d ++ targets) ++ z) (take-zeros (round_up_8 len - len) k (omega arith))
    ∙ append_assoc (dao_fixed d) targets (zeros (round_up_8 len - len))
    ∙ ap (λ z. dao_fixed d ++ z)
        (ap (λ z. targets ++ z) (sym (encode-replicate_pad (round_up_8 len - len)))
          ∙ sym (
              encode-append (map target_option (dao_entries d))
                (replicate (round_up_8 len - len) pad)))

pub length-dao_chain :
    (d : DagNetwork)
    → AllAddr (dao_entries d)
    → 24 + length (encode (dao_chain d)) ≡ round_up_8 (24 + 20 * length (dao_entries d))
unfolding dao_chain
length-dao_chain d a =
    let len : ℕ = 24 + 20 * length (dao_entries d) in
    let n = round_up_8 len - len in
    let total =
      length-append (encode (map target_option (dao_entries d))) (encode (replicate n pad)) in
    ap (λ t. 24 + t)
      (ap length (encode-append (map target_option (dao_entries d)) (replicate n pad)))
    ∙ omega (
      arith,
      total,
      length-encode_targets (dao_entries d) a,
      ap length (encode-replicate_pad n) ∙ length-replicate {A = ℕ} n 0,
    )
