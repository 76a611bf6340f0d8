-- ===== src/IpInfo/Announced.antt =====
-- A message about an address, down to the entries of the DAGs.
use mathlib.Core.List.{append-nil}
use mathlib.Core.Path.{subst}
use unstrung.Prelude.{
  ℕ, ◌≡◌, ◌≤◌, refl, Bool, true, false, List, ◌++◌, some, take, drop, length, leb, min, ==_iff, ap,
  sym, ◌∙◌, take_all, drop_all, arith,
}
use unstrung.Wire.{Addr, Subnet}
use unstrung.Dag.{Env}
use unstrung.Netlink.{put}
use unstrung.Netlink.Managed.{lookup}
use unstrung.Filters.Announced.{AllHold, IsAnnounced, notify_new_interface-IsAnnounced}
use unstrung.IpInfo.{AddrMessage, Addressed, addr_attribute, update_addr, adddel_ipinfo}

put_self : {A : Type 0} (p : ℕ) (x : A) (f : ℕ → A) → put p x f p ≡ x
put_self p x f = rw ((==_iff p p).1 refl) refl

whole_addr :
    (addr old : List ℕ)
    → length addr ≡ 16
    → length old ≡ 16
    → take 16 addr ++ drop (min (length addr) 16) old ≡ addr
whole_addr addr old e f =
    let same : min (length addr) 16 ≡ length old = omega (arith, e, f) in
    rw same (
      ap (λ k. take k addr ++ drop (length old) old) (sym e)
      ∙ rw (drop_all old) (append-nil (take (length addr) addr))
      ∙ take_all addr)

module _ (fnmatch : List ℕ → List ℕ → Bool) (addrinsubnet : Addr → Subnet → Bool) (env : Env) where
  -- The announcement for one interface.
  update_addr-IsAnnounced :
      (ni : ℕ) (s : Addressed)
      → s.ifa_scope ni ≤ 253
      → let name = (s.devices.ifs.interface ni).if_name in
        AllHold fnmatch addrinsubnet env name (s.if_addr ni) (s.if_addr ni) s.dags
        → (s' : Addressed) × (update_addr fnmatch addrinsubnet env ni s ≡ some s')
          × (s'.if_addr ni ≡ s.if_addr ni)
          × (s'.node ni ≡ some (s.if_addr ni))
          × IsAnnounced fnmatch addrinsubnet env
              (s.devices.ifs.interface ni).if_name
              (s.if_addr ni)
              (s.if_addr ni)
              s.dags
              s'.dags
  unfolding update_addr
  update_addr-IsAnnounced ni s scope all =
      let (after, ends, announced) =
        notify_new_interface-IsAnnounced fnmatch addrinsubnet env
          (s.devices.ifs.interface ni).if_name (s.if_addr ni) (s.if_addr ni) s.dags all in
      let near : leb (s.ifa_scope ni) 253 ≡ true = ground (arith, scope) in
      (
        record s { node = put ni (some (s.if_addr ni)) s.node; dags = after },
        rw (near, update_addr) (rw ends refl),
        refl,
        put_self ni (some (s.if_addr ni)) s.node,
        announced,
      )

  -- A message about an IPv6 address of 16 bytes with the scope of a link or a wider one, for an
  -- interface that is known, makes it the address of the interface and of its node; over DAGs whose
  -- patterns were stored without a write behind the rows, each DAG whose filters let the interface
  -- and the address in then has an entry for the address that is valid and not installed, and every
  -- other DAG is as it was.
  pub adddel_ipinfo-IsAnnounced :
      (msg : AddrMessage) (addr : Addr) (ni : ℕ) (s : Addressed)
      → msg.short ≡ false
      → addr_attribute msg ≡ some addr
      → length addr ≡ 16
      → length (s.if_addr ni) ≡ 16
      → lookup s.devices msg.index ≡ some ni
      → msg.inet6 ≡ true
      → msg.scope ≤ 253
      → AllHold fnmatch addrinsubnet env (s.devices.ifs.interface ni).if_name addr addr s.dags
      → (s' : Addressed) × (adddel_ipinfo fnmatch addrinsubnet env msg s ≡ some s')
        × (s'.if_addr ni ≡ addr)
        × (s'.node ni ≡ some addr)
        × IsAnnounced fnmatch addrinsubnet env
            (s.devices.ifs.interface ni).if_name
            addr
            addr
            s.dags
            s'.dags
  unfolding adddel_ipinfo
  adddel_ipinfo-IsAnnounced msg addr ni s long attr size old found inet6 scope all =
      let noted : Addressed = record s {
        if_addr = put ni (take 16 addr ++ drop (min (length addr) 16) (s.if_addr ni)) s.if_addr;
        ifa_scope = put ni msg.scope s.ifa_scope;
      } in
      let at : noted.if_addr ni ≡ addr =
        put_self ni _ s.if_addr ∙ whole_addr addr (s.if_addr ni) size old in
      let near : noted.ifa_scope ni ≤ 253 =
        omega (arith, put_self ni msg.scope s.ifa_scope, scope) in
      let name = (s.devices.ifs.interface ni).if_name in
      let (s', ends, now, node, announced) = update_addr-IsAnnounced ni noted near all in
      (
        s',
        rw (long, adddel_ipinfo) (rw attr (rw found (rw inet6 ends))),
        now ∙ at,
        node ∙ ap some at,
        subst (λ a. IsAnnounced fnmatch addrinsubnet env name a a s.dags s'.dags) at announced,
      )
