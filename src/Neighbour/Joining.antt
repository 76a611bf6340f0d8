-- ===== src/Neighbour/Joining.antt =====
-- A node that wants to join, and the join assistant that hears it: the solicitation that
-- `build_neighbour_solicit` makes, the query, and the answer.
use mathlib.Core.List.{append_assoc, append-nil}
use unstrung.Prelude.{
  ℕ, suc, ◌+◌, ◌-◌, ◌≡◌, ◌≤◌, refl, false, List, [], ◌∷◌, ◌++◌, none, some, get_elem?, length, take,
  drop, replicate, ltb, ap, sym, ◌∙◌, arith, length-append,
}
use unstrung.Wire.{bytes_eq, get_elem?-drop, take-append_length, drop-append_length, drop-drop}
use unstrung.Message.{round_up_8}
use unstrung.Grasp.{GraspClient}
use unstrung.Neighbour.{
  Neighbours, World, done, seen, note_option, join_options, all_hosts_addr,
  receive_neighbour_solicit,
}
use unstrung.NdMessage.{build_neighbour_solicit}
use unstrung.Neighbour.Solicits.{target_marked}
use unstrung.Neighbour.Asking.{queried, receive_neighbour_solicit-queried}

pub take_whole : (xs : List ℕ) (n : ℕ) → length xs ≡ n → take n xs ≡ xs
take_whole xs n e =
    rw (← e) (ap (take (length xs)) (sym (append-nil xs)) ∙ take-append_length xs [])

abbrev solicit_head : List ℕ
solicit_head = 135 ∷ 0 ∷ 0 ∷ 0 ∷ 0x20 ∷ 0 ∷ 0 ∷ 0 ∷ []

abbrev aro_head : List ℕ
aro_head = 33 ∷ 2 ∷ 0 ∷ 0 ∷ 0 ∷ 0 ∷ 0 ∷ 5 ∷ []

pub pad_none :
    (c : List ℕ) → length c ≡ 40 → c ++ replicate (round_up_8 (length c) - length c) 0 ≡ c
pad_none c e =
    let none_left : round_up_8 (length c) - length c ≡ 0 = omega (arith, e) in
    rw none_left (append-nil c)

solicit_bytes :
    (link eui64 : List ℕ)
    → length link ≡ 16
    → length eui64 ≡ 8
    → build_neighbour_solicit link eui64 ≡ solicit_head ++ (link ++ (aro_head ++ eui64))
unfolding build_neighbour_solicit
solicit_bytes link eui64 l e =
    let whole = solicit_head ++ (link ++ (aro_head ++ eui64)) in
    rw (take_whole link 16 l) (
      rw (take_whole eui64 8 e)
        (pad_none whole (omega (arith, l, e, length-append link (aro_head ++ eui64)))))

-- What stands behind a prefix of a known length.
behind : (xs ys : List ℕ) (n i : ℕ) → length xs ≡ n → get_elem? (xs ++ ys) (n + i) ≡ get_elem? ys i
behind xs ys n i e = rw (← e) (
    sym (get_elem?-drop (length xs) (xs ++ ys) i)
    ∙ ap (λ zs. get_elem? zs i) (drop-append_length xs ys))

drop_behind : (xs ys : List ℕ) (n : ℕ) → length xs ≡ n → drop n (xs ++ ys) ≡ ys
drop_behind xs ys n e = rw (← e) (drop-append_length xs ys)

take_before : (xs ys : List ℕ) (n : ℕ) → length xs ≡ n → take n (xs ++ ys) ≡ xs
take_before xs ys n e = rw (← e) (take-append_length xs ys)

-- The options of such a message are one ARO.
join_options-solicit :
    (fuel : ℕ) (front eui64 rest : List ℕ)
    → length front ≡ 24
    → length eui64 ≡ 8
    → join_options (suc (suc fuel)) (front ++ (aro_head ++ (eui64 ++ rest))) 40 24 none
      ≡ seen (some eui64)
unfolding join_options note_option
join_options-solicit fuel front eui64 rest f e =
    let dat = front ++ (aro_head ++ (eui64 ++ rest)) in
    let inside : ltb (length dat) 40 ≡ false =
      ground (arith, length-append front (aro_head ++ (eui64 ++ rest)), length-append eui64 rest) in
    let contents : drop 32 dat ≡ eui64 ++ rest =
      sym (drop-drop 8 24 dat)
      ∙ ap (drop 8) (drop_behind front (aro_head ++ (eui64 ++ rest)) 24 f) in
    rw (behind front (aro_head ++ (eui64 ++ rest)) 24 0 f, join_options)
      (rw (behind front (aro_head ++ (eui64 ++ rest)) 24 1 f)
        (rw (inside, note_option) (rw contents (rw (take_before eui64 rest 8 e) refl))))

abbrev regroup : List ℕ → List ℕ → List ℕ → List ℕ
regroup link eui64 rest = (solicit_head ++ link) ++ (aro_head ++ (eui64 ++ rest))

solicit_regrouped :
    (link eui64 rest : List ℕ)
    → length link ≡ 16
    → length eui64 ≡ 8
    → build_neighbour_solicit link eui64 ++ rest ≡ regroup link eui64 rest
solicit_regrouped link eui64 rest l e =
    rw (solicit_bytes link eui64 l e)
      (ap (λ xs. solicit_head ++ xs) (append_assoc link (aro_head ++ eui64) rest))

-- With a link-local address of 16 bytes and an EUI-64 of eight, fuel of two at least, a client, and
-- an own address that is not that of all hosts, the solicitation of 40 bytes that
-- `build_neighbour_solicit` makes, received at the address of all hosts with any bytes behind it,
-- starts a query for exactly that EUI-64 in the name of that address, whatever was known of the
-- node.
pub receive_neighbour_solicit-build :
    (fuel : ℕ) (w : World) (from link eui64 rest : List ℕ) (n : Neighbours) (client : GraspClient)
    → length link ≡ 16
    → length eui64 ≡ 8
    → bytes_eq all_hosts_addr n.link_addr ≡ false
    → n.join_query_client ≡ some client
    → receive_neighbour_solicit
        (suc (suc fuel))
        w
        from
        all_hosts_addr
        (build_neighbour_solicit link eui64 ++ rest)
        40
        n
      ≡ done (queried w link eui64 client (target_marked link n))
receive_neighbour_solicit-build fuel w from link eui64 rest n client l e other there =
    let dat = regroup link eui64 rest in
    let tail = aro_head ++ (eui64 ++ rest) in
    let long : 24 ≤ length dat = omega (arith, l, length-append link tail) in
    let target : take 16 (drop 8 dat) ≡ link = take_before link tail 16 l in
    let scanned =
      join_options-solicit fuel (solicit_head ++ link) eui64 rest (omega (arith, l)) e in
    rw (solicit_regrouped link eui64 rest l e) (
      receive_neighbour_solicit-queried (suc (suc fuel)) w from dat eui64 40 n client (omega arith)
        long other scanned there
      ∙ ap (λ key. done (queried w key eui64 client (target_marked key n))) target)
