-- ===== src/Sequence/Laws.antt =====
-- The tests on 8-bit sequence numbers as serial-number arithmetic.
use unstrung.Prelude.{ℕ, ◌+◌, ◌-◌, ◌%◌, ◌≤◌, ◌<◌, ◌^◌, ◌≡◌, ◌↔◌, true, arith}
use unstrung.Sequence.{low_8bit, seq_too_old, seq_update}

-- How far `b` lies ahead of `a` on the circle of 8-bit sequence numbers.
abbrev pub ahead : ℕ → ℕ → ℕ
ahead a b = (b + 256 - a) % 256

-- For a number of 8 bits `seq_too_old` says exactly whether the low byte of the last number lies 1
-- to 127 ahead of it on the circle of 256 numbers.
pub seq_too_old_iff :
    (last_seq seq : ℕ)
    → seq < 256
    → (seq_too_old last_seq seq ≡ true)
      ↔ ((1 ≤ ahead seq (low_8bit last_seq)) × (ahead seq (low_8bit last_seq) ≤ 127))
unfolding seq_too_old
seq_too_old_iff last_seq seq h = ground arith

-- For a number of 8 bits the low byte of the counter after `seq_update` is that number.
pub low_8bit-seq_update : (last_seq seq : ℕ) → seq < 256 → low_8bit (seq_update last_seq seq) ≡ seq
unfolding seq_update
low_8bit-seq_update last_seq seq h = ground arith

-- For a number of 8 bits and a counter that does not overflow, `seq_update` makes the counter
-- larger, by at most 256.
pub seq_update_advances :
    (last_seq seq : ℕ)
    → seq < 256
    → last_seq + 256 < 2 ^ 32
    → (last_seq < seq_update last_seq seq) × (seq_update last_seq seq ≤ last_seq + 256)
unfolding seq_update
seq_update_advances last_seq seq h k = ground arith
