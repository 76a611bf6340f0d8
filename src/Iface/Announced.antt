-- ===== src/Iface/Announced.antt =====
-- A DIO from `build_dio` to the node that receives it.
use mathlib.Core.List.{append-nil}
use unstrung.Prelude.{
  ℕ, ◌+◌, ◌-◌, ◌*◌, ◌/◌, ◌%◌, ◌^◌, ◌≤◌, ◌<◌, ◌≡◌, refl, bit_or, Bool, true, false, ◌&&◌, List, [],
  ◌∷◌, ◌++◌, Option, some, length, length-append, length-take, get_elem?, take, drop, replicate,
  ◌==◌, if◌then◌else◌, ap, ◌∙◌, sym, inl, inr, Option-cases, all_below_sound, arith,
}
use unstrung.Prelude.Int.{pos}
use unstrung.Wire.{
  Addr, Subnet, rpl_dio_destprefix, drop-append_length, take-append_length, dio_grounded, dio_mop,
}
use unstrung.RplMsg.{bytes_size}
use unstrung.RplMsg.Chain.{encode, IsChain}
use unstrung.RplMsg.Contents.{contents}
use unstrung.RplMsg.Reads.{padded_prefix}
use unstrung.Dag.{DagNetwork, Env, ◌>>=◌}
use unstrung.Dag.Schedule.{is_set, maybe_schedule_dio, maybe_send_dao}
use unstrung.Dag.Install.{add_prefix}
use unstrung.Dag.Parent.{Dio, after_adoption}
use unstrung.Dag.Parent.Prefixes.{take_prefixes, after_adoption_lem}
use unstrung.Dag.Receive.{icmp_body_size}
use unstrung.Message.{sent, build_dio, dio_header}
use unstrung.Message.Dio.{
  dio_content, dio_fixed, dio_options, dio_sent, length-dio_fixed, length-dio_content,
}
use unstrung.Iface.{parse_dio}

-- The byte with the bit G and the field MOP.
abbrev pub mopprf_byte : Bool → ℕ → ℕ
mopprf_byte grounded mode = bit_or (if grounded then 0x80 else 0) (mode * 8) % 256

abbrev mopprf_test : Bool → ℕ → Bool
mopprf_test grounded mode =
    (mopprf_byte grounded mode / 128 % 2 == (if grounded then 1 else 0))
    && (dio_mop (mopprf_byte grounded mode) == mode)

mopprf_byte_lem :
    (grounded : Bool) (mode : ℕ)
    → mode < 8
    → (dio_grounded (mopprf_byte grounded mode) ≡ grounded)
      × (dio_mop (mopprf_byte grounded mode) ≡ mode)
mopprf_byte_lem true mode h =
    let table = all_below_sound 8 (mopprf_test true) mode refl h in ground (arith, table)
mopprf_byte_lem false mode h =
    let table = all_below_sound 8 (mopprf_test false) mode refl h in ground (arith, table)

-- What the receiver reads in the fixed part.
abbrev pub dio_read : DagNetwork → Dio
dio_read d = record {
  instanceid = d.instanceid % 256;
  version = d.version % 256;
  dagrank = d.my_rank % 2 ^ 16;
  mopprf = mopprf_byte d.grounded d.mode;
  dtsn = d.dtsn % 256;
  dagid = d.dagid;
}

take-append_eq : (n : ℕ) (xs ys : List ℕ) → n ≡ length xs → take n (xs ++ ys) ≡ xs
take-append_eq n xs ys e = ap (λ k. take k (xs ++ ys)) e ∙ take-append_length xs ys

parse_dio-dio_fixed :
    (d : DagNetwork) (ys : List ℕ)
    → length d.dagid ≡ 16
    → parse_dio (drop 4 (dio_fixed d ++ ys)) ≡ some (dio_read d)
unfolding parse_dio dio_header
parse_dio-dio_fixed d ys id =
    let room : length (d.dagid ++ ys) ≡ 16 + length ys = omega (arith, length-append d.dagid ys) in
    let kept : take 16 (d.dagid ++ ys) ≡ d.dagid = take-append_eq 16 d.dagid ys (omega arith) in
    let rank : d.my_rank / 256 % 256 * 256 + d.my_rank % 256 ≡ d.my_rank % 2 ^ 16 = omega arith in
    ground arith

drop-dio_fixed :
    (d : DagNetwork) (ys : List ℕ) → length d.dagid ≡ 16 → drop 28 (dio_fixed d ++ ys) ≡ ys
drop-dio_fixed d ys id =
    ap (λ n. drop n (dio_fixed d ++ ys)) (sym (length-dio_fixed d id))
    ∙ drop-append_length (dio_fixed d) ys

-- The prefix that comes out of the option is the one that went in, without the bits behind it.
drop-dio_content :
    (lifetime : ℕ) (sub : Subnet)
    → length sub.addr ≡ 16
    → sub.maskbits ≤ 128
    → padded_prefix (drop 14 (dio_content lifetime sub)) sub.maskbits
      ≡ padded_prefix sub.addr sub.maskbits
unfolding dio_content padded_prefix
drop-dio_content lifetime sub h k =
    let n = (sub.maskbits + 7) / 8 in
    let kept =
      take-append_eq n (take n sub.addr) (replicate (16 - n) 0)
        (omega (arith, length-take n sub.addr)) in
    λ i. record { addr = kept i ++ replicate (16 - n) 0; maskbits = sub.maskbits }

first_of_content :
    (lifetime : ℕ) (sub : Subnet)
    → sub.maskbits ≤ 128
    → get_elem? (dio_content lifetime sub) 0 ≡ some sub.maskbits
unfolding dio_content
first_of_content lifetime sub k = ap some (omega arith)

-- What follows the prefixes of a DIO.
abbrev finish_dio : Env → DagNetwork → Option DagNetwork
finish_dio env s1 = do
  s2 ← if is_set s1.parent then maybe_schedule_dio env s1 else some s1
  maybe_send_dao env s2

IsChain-dio_options :
    (lifetime : ℕ) (sub : Subnet)
    → length sub.addr ≡ 16
    → sub.maskbits ≤ 128
    → IsChain (dio_options lifetime sub)
unfolding dio_options
IsChain-dio_options lifetime sub h k =
    (λ e. absurd (omega arith), omega (arith, length-dio_content lifetime sub h k), tt)

length-dio_options :
    (lifetime : ℕ) (sub : Subnet)
    → length sub.addr ≡ 16
    → sub.maskbits ≤ 128
    → length (encode (dio_options lifetime sub)) ≤ bytes_size
unfolding dio_options encode
length-dio_options lifetime sub h k = omega (
  arith,
  length-append (dio_content lifetime sub) (0 ∷ 0 ∷ 0 ∷ 0 ∷ []),
  length-dio_content lifetime sub h k,
)

take_prefixes-dio_options :
    (env : Env) (peer : Addr) (iface lifetime : ℕ) (sub : Subnet) (s : DagNetwork)
    → length sub.addr ≡ 16
    → sub.maskbits ≤ 128
    → take_prefixes env peer iface (contents rpl_dio_destprefix (dio_options lifetime sub)) s
      ≡ add_prefix env peer iface (padded_prefix sub.addr sub.maskbits) s
unfolding take_prefixes contents dio_options
take_prefixes-dio_options env peer iface lifetime sub s h k =
    let long = length-dio_content lifetime sub h k in
    let first = first_of_content lifetime sub k in
    let same = drop-dio_content lifetime sub h k in
    elim (Option-cases (add_prefix env peer iface (padded_prefix sub.addr sub.maskbits) s)) [
      | inl e ↦ ground arith
      | inr (s', e) ↦ ground arith
    ]

-- For a sender whose DODAGID and address have 16 bytes, with a prefix of at most 128 bits and a
-- mode below 8, a node that receives what `build_dio` made reads the sender's instance, version,
-- rank and DTSN cut to their fields, the bit G, the mode and the DODAGID, and, having chosen the
-- sender, adds exactly the prefix, whose address is cut to the whole bytes that its length touches
-- and filled with zeros to 16, reschedules its DIO if it has a parent, and sends a DAO if one is
-- needed.
pub after_adoption-build_dio :
    (env : Env) (peer : Addr) (iface : ℕ) (d s : DagNetwork) (sub : Subnet) (old : List ℕ)
    → length d.dagid ≡ 16
    → length sub.addr ≡ 16
    → sub.maskbits ≤ 128
    → d.mode < 8
    → let message = sent (build_dio d icmp_body_size sub).1 in
      (parse_dio (drop 4 message) ≡ some (dio_read d))
      × (dio_grounded (dio_read d).mopprf ≡ d.grounded)
      × (dio_mop (dio_read d).mopprf ≡ d.mode)
      × (after_adoption env peer iface (drop 28 message) (pos (length (drop 28 message))) old s
          ≡ (do
            s1 ← add_prefix env peer iface (padded_prefix sub.addr sub.maskbits) s
            s2 ← if is_set s1.parent then maybe_schedule_dio env s1 else some s1
            maybe_send_dao env s2))
after_adoption-build_dio env peer iface d s sub old id h k mode =
    let os = dio_options d.dio_lifetime sub in
    let (grounded, mop) = mopprf_byte_lem d.grounded d.mode mode in
    rw (dio_sent d icmp_body_size sub id h k (omega arith), drop-dio_fixed d (encode os) id)
      (
        parse_dio-dio_fixed d (encode os) id,
        grounded,
        mop,
        ap (λ t. after_adoption env peer iface t (pos (length (encode os))) old s)
              (sym (append-nil (encode os)))
            ∙ after_adoption_lem env peer iface os [] old s
                (IsChain-dio_options d.dio_lifetime sub h k)
                (length-dio_options d.dio_lifetime sub h k)
            ∙ ap (λ o. o >>= finish_dio env)
                (take_prefixes-dio_options env peer iface d.dio_lifetime sub s h k),
      )
