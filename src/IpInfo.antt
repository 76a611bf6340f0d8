-- ===== src/IpInfo.antt =====
-- netlink.cpp: the messages of the kernel about addresses, from which the DAGs take up the addresses
-- of their interfaces. The attributes are parsed by libnetlink, so that they are fields here.
pub mod Announced
use unstrung.Prelude.{
  ℕ, ◌+◌, Bool, true, false, List, [], ◌∷◌, ◌++◌, Option, none, some, take, drop, length, leb, min,
  if◌then◌else◌,
}
use unstrung.Wire.{Addr, Subnet}
use unstrung.Dag.{DagNetwork, Env}
use unstrung.Interfaces.{find_by_ifindex}
use unstrung.Netlink.{Devices, put}
use unstrung.Filters.{Filters, notify_new_interface}

-- An `ifaddrmsg` with its attributes IFA_LOCAL and IFA_ADDRESS.
pub record AddrMessage : Type 0 where
  pub short : Bool
  pub local : Option (List ℕ)
  pub address : Option (List ℕ)
  pub index : ℕ
  pub inet6 : Bool
  pub scope : ℕ

-- The interfaces with the addresses that they have, and the DAGs with their filters.
pub record Addressed : Type 0 where
  pub devices : Devices
  pub if_addr : ℕ → Addr
  pub ifa_scope : ℕ → ℕ
  pub node : ℕ → Option Addr
  pub dags : List (DagNetwork × Filters)

abbrev pub rt_scope_link : ℕ
rt_scope_link = 253

-- IFA_LOCAL, or else IFA_ADDRESS.
unfoldable pub addr_attribute : AddrMessage → Option (List ℕ)
addr_attribute msg = elim msg.local [ none ↦ msg.address | some addr ↦ some addr ]

module _ (fnmatch : List ℕ → List ℕ → Bool) (addrinsubnet : Addr → Subnet → Bool) (env : Env) where
  -- `none` is a fault in the announcement.
  pub update_addr : ℕ → Addressed → Option Addressed
  unfolding notify_new_interface
  update_addr ni s =
      let named = record s { node = put ni (some (s.if_addr ni)) s.node } in
      if leb (s.ifa_scope ni) rt_scope_link
      then elim (notify_new_interface fnmatch addrinsubnet env (s.devices.ifs.interface ni).if_name
          (s.if_addr ni) (s.if_addr ni) s.dags) [
            | none ↦ none
            | some (announced, dags) ↦ some (record named { dags = dags })
          ]
      else some named

  pub adddel_ipinfo : AddrMessage → Addressed → Option Addressed
  unfolding addr_attribute update_addr
  adddel_ipinfo msg s = if msg.short then some s else elim (addr_attribute msg) [
    | none ↦ some s
    | some addr ↦ elim (find_by_ifindex msg.index s.devices.ifs.interface s.devices.ifs.all_if) [
      | none ↦ some s
      | some ni ↦
          if msg.inet6
          then update_addr ni (record s {
            if_addr = put ni (take 16 addr ++ drop (min (length addr) 16) (s.if_addr ni)) s.if_addr;
            ifa_scope = put ni msg.scope s.ifa_scope;
          })
          else some s
    ]
  ]
