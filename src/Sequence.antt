-- ===== src/Sequence.antt =====
-- dag.cpp: the sequence numbers of a DAG, kept in 32 bits and sent in 8.
pub mod Laws
use unstrung.Prelude.{ℕ, ◌+◌, ◌-◌, ◌%◌, ◌^◌, Bool, true, false, ◌&&◌, ltb, if◌then◌else◌}
use unstrung.Prelude.Int.{ℤ, pos, negsuc, ltb_ℤ, signed32}

-- `mLastSeq & 0xff`
abbrev pub low_8bit : ℕ → ℕ
low_8bit last_seq = last_seq % 256

-- `int diff = (seq - low8bit)`: the difference of two `unsigned int`, read as an `int`.
abbrev pub seq_diff : ℕ → ℕ → ℤ
seq_diff seq low = signed32 ((seq + 2 ^ 32 - low) % 2 ^ 32)

unfoldable pub seq_too_old : ℕ → ℕ → Bool
seq_too_old last_seq seq =
    let low = low_8bit last_seq in
    let diff = seq_diff seq low in
    if ltb_ℤ (pos 0) diff && ltb_ℤ diff (pos 128)
    then false
    else if ltb_ℤ diff (pos 0) && ltb_ℤ (negsuc 127) diff
    then true
    else ltb low 128 && (ltb 128 seq && ltb_ℤ (pos 128) diff)

-- The value of `mLastSeq` after the call.
pub seq_update : ℕ → ℕ → ℕ
seq_update last_seq seq =
    let low = low_8bit last_seq in
    if ltb low seq
    then (last_seq + (seq - low)) % 2 ^ 32
    else if ltb low (seq + 256)
    then (last_seq + (seq + 256 - low)) % 2 ^ 32
    else last_seq
