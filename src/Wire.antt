-- ===== src/Wire.antt =====
-- rpl.h, and the addresses that the messages carry. A byte is a number below 256.
mod Bytes
pub use Bytes.*
use unstrung.Prelude.{ℕ, ◌+◌, ◌*◌, ◌/◌, ◌%◌, ◌^◌, ◌<◌, List, [], ◌∷◌, Bool, ◌&&◌, ◌==◌}

abbrev pub Addr : Type 0
Addr = List ℕ

-- `ip_subnet`, always of the family AF_INET6 here.
pub record Subnet : Type 0 where
  pub addr : Addr
  pub maskbits : ℕ

-- `enum ND_RPL_CODE` and the ICMPv6 type.
abbrev pub nd_rpl_message : ℕ
nd_rpl_message = 155

abbrev pub nd_rpl_dag_is : ℕ
nd_rpl_dag_is = 0

abbrev pub nd_rpl_dag_io : ℕ
nd_rpl_dag_io = 1

abbrev pub nd_rpl_dao : ℕ
nd_rpl_dao = 2

abbrev pub nd_rpl_dao_ack : ℕ
nd_rpl_dao_ack = 3

-- `enum RPL_SUBOPT`
abbrev pub rpl_opt_pad0 : ℕ
rpl_opt_pad0 = 0

abbrev pub rpl_dao_rpltarget : ℕ
rpl_dao_rpltarget = 5

abbrev pub rpl_dis_solicitedinfo : ℕ
rpl_dis_solicitedinfo = 7

abbrev pub rpl_dio_destprefix : ℕ
rpl_dio_destprefix = 8

-- `RPL_DIO_GROUNDED(X)` as a truth value, `RPL_DIO_MOP(X)`, `RPL_DAO_K(X)`, `RPL_DAO_D(X)` and
-- `RPL_DAOACK_D(X)`: single bits and one field of a byte.
abbrev pub dio_grounded : ℕ → Bool
dio_grounded x = x / 128 % 2 == 1

abbrev pub dio_mop : ℕ → ℕ
dio_mop x = x / 8 % 8

abbrev pub dao_k : ℕ → Bool
dao_k x = x / 128 % 2 == 1

abbrev pub dao_d : ℕ → Bool
dao_d x = x / 64 % 2 == 1

abbrev pub daoack_d : ℕ → Bool
daoack_d x = x / 128 % 2 == 1

-- `htons` and `ntohs` on the two bytes of a field.
abbrev pub high_byte : ℕ → ℕ
high_byte x = x / 256 % 256

abbrev pub low_byte : ℕ → ℕ
low_byte x = x % 256

abbrev pub ntohs : ℕ → ℕ → ℕ
ntohs hi lo = hi * 256 + lo
