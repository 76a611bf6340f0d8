-- ===== src/RplMsg.antt =====
-- rplmsg.cpp and rplmsg.h: the walk over the suboptions of a DIO, DAO or DIS.
-- `fault` is an access outside `mBytes` or outside the packet, which C++ leaves undefined.
pub mod Progress
pub mod Chain
pub mod Finding
pub mod Contents
pub mod Reads
pub mod Steps
use unstrung.Prelude.{
  ℕ, zero, suc, ◌+◌, ◌-◌, ◌*◌, ◌/◌, ◌%◌, ◌^◌, Bool, true, false, ◌||◌, List, [], ◌∷◌, ◌++◌, Option,
  none, some, length, get_elem?, take, drop, replicate, ltb, ◌==◌, if◌then◌else◌,
}
use unstrung.Prelude.Int.{ℤ, pos, negsuc, sub_ℕ}
use unstrung.Wire.{
  Subnet, rpl_opt_pad0, rpl_dao_rpltarget, rpl_dis_solicitedinfo, rpl_dio_destprefix,
}

-- `sizeof(mBytes)`
abbrev pub bytes_size : ℕ
bytes_size = 2048

-- `mOptions` holds an offset for each type; `none` stands for -1.
abbrev pub Offsets : Type 0
Offsets = ℕ → Option ℕ

pub record RplMsg : Type 0 where
  pub bytes : List ℕ
  pub len : ℕ
  pub options : Offsets

-- `reset_options`
abbrev pub reset_options : Offsets
reset_options type = some 0

abbrev pub store : Offsets → ℕ → ℕ → Offsets
store options type offset other = if other == type then some offset else options other

-- `subopt_len > sizeof(mBytes)` is an unsigned test: a negative length is clamped too.
unfoldable pub clamp_len : ℤ → ℕ
clamp_len (pos n) = if ltb bytes_size n then bytes_size else n
clamp_len (negsuc n) = bytes_size

-- The constructor, on the memory that starts at `subopts` and the old content of `mBytes`.
unfoldable pub rpl_msg : List ℕ → ℤ → List ℕ → Option RplMsg
rpl_msg memory subopt_len old =
    let n = clamp_len subopt_len in
    if ltb (length memory) n
    then none
    else some (record { bytes = take n memory ++ drop n old; len = n; options = reset_options })

pub data Search : Type 0 where
  found : ℕ → ℕ → Offsets → Search
  absent : Offsets → Search
  fault stuck : Search

-- `while(opt_left_len > sizeof(...))`: `opt_left_len` is `mLen - offset`, an `int` that the
-- comparison turns into a `size_t`, so that a negative one passes the test.
unfoldable pub goes_on : ℕ → ℕ → Bool
goes_on len offset = elim (sub_ℕ len offset) [ pos left ↦ ltb 2 left | negsuc n ↦ true ]

-- How far the loop skips; `none` is the `break` on an option with no content.
abbrev pub skip_len : ℕ → ℕ → Option ℕ
skip_len type len =
    if type == rpl_opt_pad0 then some 1 else if len == 0 then none else some (len + 2)

-- `if(mOptions[type]==0) mOptions[type]=offset`
unfoldable pub first_seen : Offsets → ℕ → ℕ → Offsets
first_seen options type offset = elim (options type) [
  | none ↦ options
  | some o ↦ if o == 0 then store options type offset else options
]

-- The loop of `search_subopt` at `offset`, with fuel.
unfoldable pub scan : ℕ → List ℕ → ℕ → ℕ → Offsets → ℕ → Search
scan zero bytes len optnum options offset = stuck
scan (suc fuel) bytes len optnum options offset = elim (goes_on len offset) [
  | false ↦ absent options
  | true ↦ elim (get_elem? bytes offset) [
    | none ↦ fault
    | some type ↦ elim (get_elem? bytes (offset + 1)) [
      | none ↦ fault
      | some opt_len ↦ elim (skip_len type opt_len) [
        | none ↦ absent options
        | some skip ↦ elim (type == optnum) [
          | true ↦ found offset skip (store (first_seen options type offset) type (offset + skip))
          | false ↦ scan fuel bytes len optnum (first_seen options type offset) (offset + skip)
        ]
      ]
    ]
  ]
]

-- Each round moves on by a byte at least, and a read behind `mBytes` ends the loop.
abbrev pub search_fuel : ℕ
search_fuel = 2049

-- `search_subopt`: where the option starts, the length with type and length bytes, the offsets.
unfoldable pub search_subopt : RplMsg → ℕ → Search
search_subopt m optnum = elim (m.options optnum) [
  | none ↦ absent m.options
  | some offset ↦ scan search_fuel m.bytes m.len optnum m.options offset
]

-- The answer of `destprefix`, `rpltarget` and `rplsolicitedinfo`: a pointer into `mBytes`, with
-- the message as it is afterwards.
pub data Next : Type 0 where
  option : ℕ → RplMsg → Next
  null underrun : RplMsg → Next
  fault stuck : Next

-- `optlen < sizeof(struct rpl_dio_destprefix)` counts PS_SUBOPTION_UNDERRUN, here `underrun`.
unfoldable pub destprefix : RplMsg → Next
destprefix m = elim (search_subopt m rpl_dio_destprefix) [
  | found offset optlen options ↦
      if ltb optlen 32
      then Next.underrun (record m { options = options })
      else Next.option offset (record m { options = options })
  | absent options ↦ Next.null (record m { options = options })
  | fault ↦ Next.fault
  | stuck ↦ Next.stuck
]

-- `rpl_dao_prefixlen` is the fourth byte of the option.
unfoldable pub rpltarget : RplMsg → Next
rpltarget m = elim (search_subopt m rpl_dao_rpltarget) [
  | found offset optlen options ↦ elim (get_elem? m.bytes (offset + 3)) [
    | none ↦ Next.fault
    | some prefixlen ↦
        if ltb optlen ((prefixlen + 7) / 8 + 4)
        then Next.null (record m { options = options })
        else Next.option offset (record m { options = options })
  ]
  | absent options ↦ Next.null (record m { options = options })
  | fault ↦ Next.fault
  | stuck ↦ Next.stuck
]

pub rplsolicitedinfo : RplMsg → Next
rplsolicitedinfo m = elim (search_subopt m rpl_dis_solicitedinfo) [
  | found offset optlen options ↦ Next.option offset (record m { options = options })
  | absent options ↦ Next.null (record m { options = options })
  | fault ↦ Next.fault
  | stuck ↦ Next.stuck
]

-- `memset(v6bytes, 0, 16); memcpy(v6bytes, prefix, prefixbytes)`, on an array of 16 bytes.
pub copy_prefix : List ℕ → ℕ → ℕ → Option Subnet
copy_prefix bytes offset prefixlen =
    let prefixbytes = (prefixlen + 7) / 8 in
    if ltb 16 prefixbytes || ltb (length bytes) (offset + prefixbytes)
    then none
    else some (record {
      addr = take prefixbytes (drop offset bytes) ++ replicate (16 - prefixbytes) 0;
      maskbits = prefixlen;
    })
