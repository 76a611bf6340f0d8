-- ===== src/Tests/Wires.antt =====
-- Examples of the walk over the options and of the loops that use it.
use native.Mathlib.Omega.{arith}
use unstrung.Prelude.{ℕ, ◌+◌, ◌≡◌, ◌≢◌, refl, List, [], ◌∷◌, ◌++◌, some, take, drop}
use unstrung.Prelude.Int.{pos}
use unstrung.RplMsg.{
  RplMsg, found, stuck, store, first_seen, reset_options, scan, search_subopt, rpl_msg, clamp_len,
  goes_on,
}
use unstrung.RplMsg.Chain.{SubOption, encode, first_of_type, Finds, opt}
use unstrung.RplMsg.Contents.{contents}
use unstrung.RplMsg.Progress.{IsHit, search_subopt-ne-stuck, search_subopt-IsHit}
use unstrung.RplMsg.Finding.{search_subopt-Finds}
use unstrung.Dag.Receive.{target_loop, target_fuel}
use unstrung.Dag.Receive.Rounds.{Runs, target_loop_ends}
use unstrung.Iface.{solicit_loop}
use unstrung.Iface.Solicited.{take_solicits, solicit_loop-take_solicits}
use unstrung.Tests.{link_local_addr, target_options, old_stack, system, live_dag, a_network}

-- The bytes of one padding byte and one target, and the message that holds them.
abbrev target_bytes : List ℕ
target_bytes =
    0 ∷ 5 ∷ 18 ∷ 0 ∷ 128 ∷ 1 ∷ 1 ∷ 1 ∷ 1 ∷ 1 ∷ 1 ∷ 1 ∷ 1 ∷ 1 ∷ 1 ∷ 1 ∷ 1 ∷ 1 ∷ 1 ∷ 1 ∷ 1 ∷ []

abbrev target_msg : RplMsg
target_msg = record {
  bytes = take 21 target_bytes ++ drop 21 old_stack;
  len = 21;
  options = reset_options;
}

encode_target : encode target_options ≡ target_bytes
unfolding encode
encode_target = refl

target_msg_made : rpl_msg target_bytes (pos 21) old_stack ≡ some target_msg
unfolding rpl_msg clamp_len
target_msg_made = refl

search_subopt-Finds_example :
    Finds 5 0 (first_of_type 5 target_options) (search_subopt target_msg 5)
search_subopt-Finds_example =
    search_subopt-Finds target_options target_msg 5 0 refl
      (λ e. absurd (omega arith), omega arith, tt) (λ e. absurd (omega arith))
      ((drop 21 old_stack, unfold encode in refl), unfold encode in refl)
      (unfold encode in omega arith)

search_subopt-ne-stuck_example : search_subopt target_msg 7 ≢ stuck
search_subopt-ne-stuck_example = search_subopt-ne-stuck target_msg 7 refl

target_found :
    search_subopt target_msg 5
    ≡ found 1 20 (store (first_seen (first_seen reset_options 0 0) 5 1) 5 21)
unfolding search_subopt scan first_seen goes_on
target_found = refl

search_subopt-IsHit_example :
    IsHit target_msg.bytes 5 0 1 20 (store (first_seen (first_seen reset_options 0 0) 5 1) 5 21)
search_subopt-IsHit_example = search_subopt-IsHit target_msg 5 0 refl target_found

target_loop_ends_example :
    Runs system
      (link_local_addr 2)
      0
      target_msg
      live_dag
      (target_loop system (link_local_addr 2) 0 (9 + target_fuel) target_msg live_dag)
target_loop_ends_example =
    target_loop_ends system (link_local_addr 2) 0 9 target_bytes old_stack (pos 21) target_msg
      live_dag refl target_msg_made

-- One solicitation of the instance 7.
abbrev solicit_options : List SubOption
solicit_options = opt 7 (7 ∷ 0x40 ∷ []) ∷ []

abbrev solicit_msg : RplMsg
solicit_msg = record {
  bytes = 7 ∷ 2 ∷ 7 ∷ 0x40 ∷ drop 4 old_stack;
  len = 4;
  options = reset_options;
}

solicit_loop-take_solicits_example :
    solicit_loop system 5 solicit_msg a_network
    ≡ take_solicits system (contents 7 solicit_options) a_network
solicit_loop-take_solicits_example =
    solicit_loop-take_solicits system 5 solicit_options solicit_msg 0 a_network refl
      (λ e. absurd (omega arith), omega arith, tt)
      ((drop 4 old_stack, unfold encode in refl), unfold encode in refl)
      (unfold contents in (omega arith, tt)) (unfold encode in omega arith)
      (unfold encode in omega arith)
