-- ===== src/Iface/Kept.antt =====
-- The DAGs of other instances around the delivery of one message.
use mathlib.Core.Path.{subst}
use unstrung.Prelude.{
  ℕ, suc, ◌≡◌, ◌≢◌, inl, inr, refl, Bool, true, false, List, Option, none, some, get_elem?, length,
  ap, ◌∙◌, Option-cases, if◌then◌else◌, arith,
}
use unstrung.Dag.{DagNetwork}
use unstrung.Dag.Parent.{Dio}
use unstrung.Dag.Receive.{Dao}
use unstrung.Iface.{
  Network, deliver, watched, find_or_make_by_instanceid, parse_dio, parse_dao, parse_daoack,
}
use unstrung.Iface.Isolation.{OthersIn, deliver-OthersIn, find_or_make_finds}

abbrev pub moved : Bool → ℕ → ℕ
moved true i = suc i
moved false i = i

-- The DAGs of other instances are where they were, or one place further on in a list that has one
-- DAG more.
abbrev pub Kept : ℕ → Network → Network → Type 0
Kept num n n' =
    (grown : Bool) × (length n'.dags ≡ moved grown (length n.dags))
    × ((i : ℕ) (d : DagNetwork)
        → get_elem? n.dags i ≡ some d
        → d.instanceid ≢ num
        → get_elem? n'.dags (moved grown i) ≡ some d)

abbrev pub KeptIn : ℕ → Network → Option Network → Type 0
KeptIn num n none = Unit {0}
KeptIn num n (some n') = Kept num n n'

pub Kept-dags : (num : ℕ) (n n' : Network) → n'.dags ≡ n.dags → Kept num n n'
Kept-dags num n n' same = (false, ap length same, λ i d h ne. ap (λ ds. get_elem? ds i) same ∙ h)

if-Kept :
    (num : ℕ) (b : Bool) (n x y : Network)
    → Kept num n x
    → Kept num n y
    → Kept num n (if b then x else y)
if-Kept num true n x y kx ky = kx
if-Kept num false n x y kx ky = ky

find_or_make-Kept :
    (num : ℕ) (dagid : List ℕ) (watching : Bool) (n : Network)
    → Kept num n (find_or_make_by_instanceid num dagid watching n)
find_or_make-Kept num dagid watching n = elim (find_or_make_finds num dagid watching n).1 [
  | inl same ↦ Kept-dags num n (find_or_make_by_instanceid num dagid watching n) same
  | inr (made, more, _) ↦
      (true, ap length more, λ i d h ne. ap (λ ds. get_elem? ds (suc i)) more ∙ h)
]

watched-Kept : (num : ℕ) (dagid : List ℕ) (n : Network) → Kept num n (watched num dagid n)
watched-Kept num dagid n =
    if-Kept num n.watching n (find_or_make_by_instanceid num dagid n.watching n) n
      (find_or_make-Kept num dagid n.watching n) (Kept-dags num n n refl)

pub deliver-KeptIn :
    (num : ℕ) (f : DagNetwork → Option DagNetwork) (ignored : ℕ) (n m : Network)
    → Kept num n m
    → KeptIn num n (deliver num f ignored m)
deliver-KeptIn num f ignored n m (grown, len, kept) =
    elim (Option-cases (deliver num f ignored m)) [
      | inl e ↦ rw e tt
      | inr (n', e) ↦
          let (same, others) = subst (OthersIn num m) e (deliver-OthersIn num f ignored m) in
          rw e (grown, same ∙ len, λ i d h ne. others (moved grown i) d (kept i d h ne) ne)
    ]

-- The first byte of a message is its instance.
pub parse_dio-head :
    (dat : List ℕ) (dio : Dio) → parse_dio dat ≡ some dio → get_elem? dat 0 ≡ some dio.instanceid
unfolding parse_dio
parse_dio-head dat dio h = grind arith

pub parse_dao-head :
    (dat : List ℕ) (dao : Dao) → parse_dao dat ≡ some dao → get_elem? dat 0 ≡ some dao.instanceid
unfolding parse_dao
parse_dao-head dat dao h = grind arith

pub parse_daoack-head :
    (dat : List ℕ) (ack : Dao) → parse_daoack dat ≡ some ack → get_elem? dat 0 ≡ some ack.instanceid
unfolding parse_daoack
parse_daoack-head dat ack h = grind arith

pub deliver-watched :
    (dat dagid : List ℕ) (num inst : ℕ) (f : DagNetwork → Option DagNetwork) (ignored : ℕ)
    (n : Network)
    → get_elem? dat 0 ≡ some num
    → get_elem? dat 0 ≡ some inst
    → KeptIn num n (deliver inst f ignored (watched inst dagid n))
deliver-watched dat dagid num inst f ignored n head read =
    let same : inst ≡ num = cc in
    subst (λ k. KeptIn k n (deliver inst f ignored (watched inst dagid n))) same
      (deliver-KeptIn inst f ignored n (watched inst dagid n) (watched-Kept inst dagid n))
