-- ===== src/Iface/Overrun.antt =====
-- A DAO whose flags promise more than it holds.
use unstrung.Prelude.{
  ℕ, ◌+◌, ◌-◌, ◌≤◌, ◌<◌, ◌≡◌, refl, Bool, true, false, List, [], ◌∷◌, Option, none, some, length,
  length-drop, take, drop, ◌==◌, if◌then◌else◌, ap, ◌∙◌, Bool-cases, inl, inr, arith,
}
use unstrung.Prelude.Int.{pos, negsuc, ltb_ℤ}
use unstrung.Wire.{Addr, dao_d}
use unstrung.RplMsg.{rpl_msg, clamp_len, bytes_size}
use unstrung.Dag.{◌>>=◌, DagNetwork, Env}
use unstrung.Dag.Receive.{Dao, is_own, receive_dao}
use unstrung.Dag.Receive.Messages.{dao_counted, update_node_peer}
use unstrung.Iface.{
  Network, Packet, on_dag, deliver, find_by_instanceid, find_or_make_by_instanceid, watched,
  packet_too_short, parse_dao, dao_options, dao_options_len, unsigned_less, iface_receive_dao,
}

-- A negative length is taken for the size of the array.
rpl_msg_negative :
    (memory old : List ℕ) (n : ℕ)
    → length memory < bytes_size
    → rpl_msg memory (negsuc n) old ≡ none
unfolding rpl_msg clamp_len
rpl_msg_negative memory old n h = ground arith

receive_dao_negative :
    (env : Env) (iface : ℕ) (from : Addr) (now : ℕ) (dao : Dao) (memory old : List ℕ) (n : ℕ)
    (d : DagNetwork)
    → length memory < bytes_size
    → d.active ≡ true
    → is_own env iface from d ≡ false
    → receive_dao env iface from now dao memory (negsuc n) old d ≡ none
unfolding receive_dao
receive_dao_negative env iface from now dao memory old n d short active own =
    rw (update_node_peer env iface from now (dao_counted d) (unfold is_own in own), receive_dao)
      (rw active (rw (rpl_msg_negative memory old n short) refl))

on_dag_fault :
    (num : ℕ) (f : DagNetwork → Option DagNetwork) (ds : List DagNetwork) (d : DagNetwork)
    → find_by_instanceid num ds ≡ some d
    → f d ≡ none
    → on_dag num f ds ≡ none
unfolding on_dag find_by_instanceid
on_dag_fault num f [] d h e = cc
on_dag_fault num f (x ∷ ds) d h e = elim (Bool-cases (x.instanceid == num)) [
  | inl t ↦ rw (t, on_dag) (rw (ap (λ o. o >>= f) (rw t at h) ∙ e) refl)
  | inr t ↦ ground (arith, on_dag_fault num f ds d)
]

if_same : (b : Bool) (n : Network) → (if b then n else n) ≡ n
if_same true n = refl
if_same false n = refl

watched_found :
    (num : ℕ) (dagid : List ℕ) (n : Network) (d : DagNetwork)
    → find_by_instanceid num n.dags ≡ some d
    → watched num dagid n ≡ n
unfolding find_or_make_by_instanceid
watched_found num dagid n d h =
    ap (λ x. if n.watching then x else n) (rw (h, find_or_make_by_instanceid) refl)
    ∙ if_same n.watching n

unsigned_less_negative : (k : ℕ) → k < 20 → (j : ℕ) × (unsigned_less (pos k) 20 ≡ negsuc j)
unfolding unsigned_less
unsigned_less_negative k h = (20 - k - 1, ground arith)

-- A DAO of 4 to 19 bytes that has the bit D, for an active DAG and from a peer, in a buffer with
-- fewer than 2048 bytes behind the place of the options, is read outside the buffer: its length
-- becomes negative and is taken for 2048.
pub iface_receive_dao_overrun :
    (env : Env) (iface : ℕ) (p : Packet) (dat : List ℕ) (k : ℕ) (n : Network) (d : DagNetwork)
    (dao : Dao)
    → parse_dao dat ≡ some dao
    → dao_d dao.flags ≡ true
    → 4 ≤ k
    → k < 20
    → length dat < 20 + bytes_size
    → find_by_instanceid dao.instanceid n.dags ≡ some d
    → d.active ≡ true
    → is_own env iface p.from d ≡ false
    → iface_receive_dao env iface p dat (pos k) n ≡ none
unfolding iface_receive_dao packet_too_short dao_options dao_options_len deliver
iface_receive_dao_overrun env iface p dat k n d dao parsed flag low high short found active own =
    let (j, len) = unsigned_less_negative k high in
    let none_left =
      on_dag_fault dao.instanceid
        (receive_dao env iface p.from p.now dao (drop 20 dat) (negsuc j) p.stack) n.dags d found
        (receive_dao_negative env iface p.from p.now dao (drop 20 dat) p.stack j d
          (omega (arith, length-drop 20 dat)) active own) in
    let enough : ltb_ℤ (pos k) (pos 4) ≡ false = ground arith in
    rw (enough, iface_receive_dao)
      (rw parsed (
        rw flag (
          rw (watched_found dao.instanceid (take 16 (drop 4 dat)) n d found)
            (rw (found, deliver) (rw len (rw none_left refl))))))
