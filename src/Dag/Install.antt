-- ===== src/Dag/Install.antt =====
-- dag.cpp, prefix.cpp and the `ip` commands of netlink.cpp: addresses and routes.
-- `none` is a use of a NULL `dag_me`.
pub mod Once
use unstrung.Prelude.{
  ℕ, Bool, true, false, ◌&&◌, ◌||◌, ◌++◌, Option, none, some, take, drop, replicate, if◌then◌else◌,
}
use unstrung.Wire.{Addr, Subnet}
use unstrung.Node.{node_at, put_node, makevalid, markself}
use unstrung.Prefix.{PrefixNode, prefix_at, put_prefix, set_prefix, set_installed, set_announcer}
use unstrung.Dag.{
  DagNetwork, Env, Command, in_announced, in_prefixes, command, addr_del, addr_add, route_del,
  route_add_via, route_add_unreachable, route_show, emit, set_dag_prefix, ◌>>=◌,
}
use unstrung.Dag.Schedule.{is_set, maybe_schedule_dio}

abbrev run : Command → DagNetwork → DagNetwork
run c = emit (command c)

-- `network_interface::addprefix`, which always returns true.
pub addprefix : Env → PrefixNode → DagNetwork → DagNetwork
addprefix env p d =
    if env.valid_subnet p.prefix
    then run route_show (run (addr_add p.prefix) (run (addr_del p.prefix) d))
    else d

-- `add_parent_route_to_prefix`
unfoldable pub add_parent_route_to_prefix :
    Subnet → Option Addr → Addr → ℕ → DagNetwork → DagNetwork
add_parent_route_to_prefix sub src parent iface d =
    run route_show (run (route_add_via sub parent iface src) (run (route_del sub) d))

unfoldable pub add_parent_route_to_default : Option Addr → Addr → ℕ → DagNetwork → DagNetwork
unfolding add_parent_route_to_prefix
add_parent_route_to_default =
    add_parent_route_to_prefix (record { addr = replicate 16 0; maskbits = 0 })

pub add_null_route_to_prefix : Subnet → DagNetwork → DagNetwork
add_null_route_to_prefix sub d = run route_show (run (route_add_unreachable sub) d)

-- `add_route_to_node`; its own list of prefixes is only written.
unfoldable pub add_route_to_node : Subnet → Addr → ℕ → Addr → DagNetwork → DagNetwork
add_route_to_node sub peer iface src d =
    run route_show (run (route_add_via sub peer iface (some src)) d)

pub set_grounded : Env → Bool → DagNetwork → DagNetwork
unfolding add_null_route_to_prefix
set_grounded env grounded d =
    if grounded
    then (if env.has_loopback && d.prefix_set
        then add_null_route_to_prefix d.prefix (record d { grounded = true })
        else record d { grounded = true })
    else record d { grounded = false }

-- The address that `configureip` chooses: the identity, or the IID behind the announced prefix.
pub own_address : Env → DagNetwork → ℕ → Addr
own_address env d iface = elim d.device_identity [
  | some addr ↦ addr
  | none ↦
      take 8 d.prefix.addr ++ drop 8 (elim d.iid [ none ↦ env.link_local iface | some addr ↦ addr ])
]

-- `prefix_node::configureip`: the entry, and the DAG with the commands that were run.
unfoldable pub configureip : Env → ℕ → PrefixNode → DagNetwork → PrefixNode × DagNetwork
unfolding own_address addprefix set_prefix
configureip env iface p d =
    if d.ignore_pio || p.installed
    then (p, d)
    else (let p' = set_prefix p (record { addr = own_address env d iface; maskbits = 128 }) in
        (record p' { installed = true }, addprefix env p' d))

-- The subnet of `dag_me`.
unfoldable pub me_prefix : DagNetwork → Option Subnet
me_prefix d = elim d.me [
  | none ↦ none
  | some (in_announced k) ↦ some (prefix_at d.announced k).prefix
  | some (in_prefixes k) ↦ some (prefix_at d.prefixes k).prefix
]

-- `pre.add_route_via_node(iface)` for the peer at an address.
unfoldable pub add_route_via_node :
    ℕ → Addr → PrefixNode → DagNetwork → Option (PrefixNode × DagNetwork)
unfolding add_route_to_node
add_route_via_node iface peer p d = if p.installed then some (p, d) else do
  src ← me_prefix d
  some (
    record p { installed = true },
    add_route_to_node p.prefix (node_at d.members peer).addr iface src.addr d,
  )

unfoldable pub add_childnode : Env → Addr → ℕ → Subnet → DagNetwork → Option DagNetwork
unfolding add_route_via_node set_prefix set_announcer
add_childnode env peer iface sub d =
    let pre = prefix_at d.children sub in
    if pre.installed then some (record d { children = put_prefix d.children sub pre }) else do
      (pre', d') ←
          add_route_via_node iface peer (set_announcer (set_prefix pre sub) peer)
            (record d { dao_needed = true })
      some (record d' { children = put_prefix d'.children sub pre'; dao_needed = true })

-- `add_address(prefix)` makes or resets an entry of `dag_announced`.
unfoldable pub add_address : Subnet → DagNetwork → DagNetwork
unfolding set_prefix
add_address sub d = record d {
  announced = put_prefix d.announced sub (set_prefix (prefix_at d.announced sub) sub);
}

-- The entry that `cfg_new_node` leaves, configured on an interface unless that is NULL.
pub configure_me : Env → Option ℕ → Subnet → PrefixNode → DagNetwork → PrefixNode × DagNetwork
unfolding configureip set_prefix
configure_me env none sub me d = (set_prefix me sub, d)
configure_me env (some iface) sub me d = configureip env iface (set_prefix me sub) d

-- `cfg_new_node` on the entry of `dag_announced` at a key; `none` is a NULL interface.
unfoldable pub cfg_new_node : Env → Subnet → Option ℕ → Subnet → DagNetwork → DagNetwork
unfolding configure_me
cfg_new_node env key iface sub d =
    let me = prefix_at d.announced key in
    if me.installed
    then d
    else (let (me', d') = configure_me env iface sub me (record d { dao_needed = true }) in
        record d' {
          announced = put_prefix d'.announced key me';
          me = (if is_set d'.me then d'.me else some (in_announced key));
        })

pub set_acp_identity : Env → Subnet → DagNetwork → DagNetwork
unfolding add_address cfg_new_node
set_acp_identity env sn d =
    cfg_new_node env sn none sn (add_address sn (record d { device_identity = some sn.addr }))

-- The first half of `add_prefix`: the list of prefixes in this DAG.
unfoldable pub note_prefix : Env → Addr → Subnet → DagNetwork → Option DagNetwork
unfolding set_prefix set_installed set_announcer
note_prefix env peer sub d =
    let pre = prefix_at d.prefixes sub in
    if pre.installed
    then some (record d { prefixes = put_prefix d.prefixes sub pre })
    else maybe_schedule_dio env (record (set_dag_prefix d sub) {
      prefixes =
          put_prefix d.prefixes sub (set_announcer (set_installed (set_prefix pre sub) true) peer);
      dao_needed = true;
    })

-- The second half: an address of our own in the prefix.
unfoldable pub own_prefix : Env → Addr → ℕ → Subnet → DagNetwork → DagNetwork
unfolding add_address cfg_new_node set_announcer
own_prefix env peer iface sub d =
    if d.ignore_pio
    then d
    else (let d' = add_address sub d in
        cfg_new_node env sub (some iface) sub (record d' {
          announced = put_prefix d'.announced sub (set_announcer (prefix_at d'.announced sub) peer);
        }))

unfoldable pub add_prefix : Env → Addr → ℕ → Subnet → DagNetwork → Option DagNetwork
unfolding note_prefix own_prefix
add_prefix env peer iface sub d = do
  d' ← note_prefix env peer sub d
  some (own_prefix env peer iface sub d')

-- `addselfprefix(iface, announceif)`; the flag changes the log only.
pub addselfprefix : Env → ℕ → DagNetwork → DagNetwork
unfolding configureip set_prefix set_announcer
addselfprefix env iface d =
    let addr = env.if_addr iface in
    let me = markself (makevalid (node_at d.members addr) addr true true) iface in
    let d1 = record d { members = put_node d.members addr me } in
    let pre = prefix_at d1.prefixes d1.prefix in
    if pre.installed
    then record d1 { prefixes = put_prefix d1.prefixes d1.prefix pre }
    else (let (pre', d2) =
          configureip env iface (set_announcer (set_prefix pre d1.prefix) addr)
            (record d1 { dao_needed = true }) in
        record d2 {
          prefixes = put_prefix d2.prefixes d1.prefix pre';
          me = (if is_set d2.me then d2.me else some (in_prefixes d1.prefix));
        })
