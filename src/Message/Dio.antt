-- ===== src/Message/Dio.antt =====
-- `build_dio`: the message that it writes.
use mathlib.Core.List.{append_assoc}
use unstrung.Prelude.{
  ℕ, ◌+◌, ◌-◌, ◌/◌, ◌%◌, ◌≤◌, ◌≡◌, refl, List, [], ◌∷◌, ◌++◌, some, length, length-append,
  length-take, length-replicate, take, ap, ◌∙◌, min, arith,
}
use unstrung.Wire.{Subnet, rpl_dio_destprefix, nd_rpl_dag_io}
use unstrung.RplMsg.Chain.{SubOption, opt, pad, encode}
use unstrung.Dag.{DagNetwork}
use unstrung.Message.{sent, built, build_dio, dio_header, build_prefix_dioopt, icmp6_header, be32}
use unstrung.Message.Writing.{
  zeros, write_at-zeros, append_suboption-zeros, take-zeros, take-append_more,
}

-- The content of the option for a prefix.
unfoldable pub dio_content : ℕ → Subnet → List ℕ
dio_content lifetime sub =
    (sub.maskbits % 256)
    ∷ 0x40
    ∷ (be32 lifetime
        ++ (be32 lifetime
            ++ (0
                ∷ 0
                ∷ 0
                ∷ 0
                ∷ (take ((sub.maskbits + 7) / 8) sub.addr ++ zeros (16 - (sub.maskbits + 7) / 8)))))

pub length-dio_content :
    (lifetime : ℕ) (sub : Subnet)
    → length sub.addr ≡ 16
    → sub.maskbits ≤ 128
    → length (dio_content lifetime sub) ≡ 30
unfolding dio_content
length-dio_content lifetime sub h k =
    let n = (sub.maskbits + 7) / 8 in
    omega (
      arith,
      length-append (take n sub.addr) (zeros (16 - n)),
      length-take n sub.addr,
      length-replicate {A = ℕ} (16 - n) 0,
    )

build_prefix_dioopt_lem :
    (lifetime : ℕ) (sub : Subnet)
    → length sub.addr ≡ 16
    → sub.maskbits ≤ 128
    → build_prefix_dioopt lifetime sub ≡ some (dio_content lifetime sub)
unfolding build_prefix_dioopt dio_content
build_prefix_dioopt_lem lifetime sub h k =
    let e : min ((sub.maskbits + 7) / 8) 129 ≡ (sub.maskbits + 7) / 8 = omega arith in
    rw (e, build_prefix_dioopt) (ground arith)

abbrev pub dio_fixed : DagNetwork → List ℕ
dio_fixed d = icmp6_header nd_rpl_dag_io ++ dio_header d

pub length-dio_fixed : (d : DagNetwork) → length d.dagid ≡ 16 → length (dio_fixed d) ≡ 28
unfolding dio_header
length-dio_fixed d h = omega (arith, h)

unfoldable pub dio_options : ℕ → Subnet → List SubOption
dio_options lifetime sub =
    opt rpl_dio_destprefix (dio_content lifetime sub) ∷ pad ∷ pad ∷ pad ∷ pad ∷ []

build_dio_lem :
    (d : DagNetwork) (buff_len : ℕ) (sub : Subnet)
    → length d.dagid ≡ 16
    → length sub.addr ≡ 16
    → sub.maskbits ≤ 128
    → 64 ≤ buff_len
    → (build_dio d buff_len sub).1
      ≡ built
          ((dio_fixed d ++ encode (opt rpl_dio_destprefix (dio_content d.dio_lifetime sub) ∷ []))
            ++ zeros (buff_len - 28 - 32))
          64
unfolding build_dio
build_dio_lem d buff_len sub id h k room =
    let n = length-dio_fixed d id in
    let c = length-dio_content d.dio_lifetime sub h k in
    rw (write_at-zeros [] (dio_fixed d) buff_len 0 refl (omega (arith, n)), build_dio)
      (rw (build_prefix_dioopt_lem d.dio_lifetime sub h k) (
        rw n (
          rw
            (append_suboption-zeros (dio_fixed d) (dio_content d.dio_lifetime sub) (buff_len - 28)
              28 (length (dio_content d.dio_lifetime sub) + 2) rpl_dio_destprefix (omega (arith, n))
              (omega (arith, c)) (omega arith) (omega (arith, c)))
            (rw c refl))))

-- What is sent: the fixed part, the option and four bytes of padding.
pub dio_sent :
    (d : DagNetwork) (buff_len : ℕ) (sub : Subnet)
    → length d.dagid ≡ 16
    → length sub.addr ≡ 16
    → sub.maskbits ≤ 128
    → 64 ≤ buff_len
    → sent (build_dio d buff_len sub).1 ≡ dio_fixed d ++ encode (dio_options d.dio_lifetime sub)
unfolding dio_options
dio_sent d buff_len sub id h k room =
    let option = encode (opt rpl_dio_destprefix (dio_content d.dio_lifetime sub) ∷ []) in
    let content = dio_content d.dio_lifetime sub in
    let size : length (dio_fixed d ++ option) ≡ 60 =
      unfold encode in
      omega (
        arith,
        length-append (dio_fixed d) option,
        length-dio_fixed d id,
        length-dio_content d.dio_lifetime sub h k,
        length-append content [],
      ) in
    ap sent (build_dio_lem d buff_len sub id h k room)
    ∙ ap (λ n. take n ((dio_fixed d ++ option) ++ zeros (buff_len - 28 - 32))) {x = 64}
        {y = length (dio_fixed d ++ option) + 4} (omega (arith, size))
    ∙ take-append_more (dio_fixed d ++ option) (zeros (buff_len - 28 - 32)) 4
    ∙ ap (λ z. (dio_fixed d ++ option) ++ z) (take-zeros 4 (buff_len - 28 - 32) (omega arith))
    ∙ append_assoc (dio_fixed d) option (zeros 4)
    ∙ ap (λ z. dio_fixed d ++ z)
        (unfold encode in
          ap (λ t. rpl_dio_destprefix ∷ length content ∷ t) (append_assoc content [] (zeros 4)))
