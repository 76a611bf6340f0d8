-- ===== src/Tests/Neighbours.antt =====
-- Examples of solicitations, of a query, and of its answer.
use mathlib.Core.Option.{some-injective}
use unstrung.Prelude.{
  ℕ, zero, suc, ◌+◌, ◌≤◌, ◌<◌, ◌⊎◌, inl, inr, get_elem?, ap, sym, ◌∙◌, ◌≡◌, ◌≢◌, refl, Bool, true,
  false, List, [], ◌∷◌, ◌++◌, Option, none, some, replicate, arith,
}
use unstrung.Node.{no_node, node_at, find_node, new_node, zero_node, join_accepted, join_declined}
use unstrung.Grasp.{
  CborItem, CborItems, uint8, uint32, text, bytestring, array, nil, cons, GraspClient,
  start_query_for_aro, generate_random_sessionid, aro_query,
}
use unstrung.Neighbour.{
  Neighbours, World, Outcome, done, all_hosts_addr, receive_neighbour_solicit, process_grasp_reply,
  find_by_session,
}
use unstrung.NdMessage.{build_neighbour_solicit}
use unstrung.Neighbour.Solicits.{
  target_marked, receive_neighbour_solicit_endless, receive_neighbour_solicit_ends,
}
use unstrung.Neighbour.Options.{Reached, start, next}
use unstrung.Neighbour.Asking.{queried}
use unstrung.Neighbour.Joining.{receive_neighbour_solicit-build}
use unstrung.Neighbour.Answers.{verdict}
use unstrung.Neighbour.Reachable.{here, solicited, answered, IsQuiet, in_progress, Heard-IsQuiet}
use unstrung.Neighbour.Registrar.{
  CborReader, IsEnd, client_process_grasp_reply, client_process_grasp_reply-queried,
}
use unstrung.Tests.{stack_node, link_local_addr}

abbrev pub a_client : GraspClient
a_client = record { last_session = 123456; queries_outstanding = 0; written = [] }

abbrev pub assistant : Neighbours
assistant = record {
  nodes = no_node stack_node;
  if_index = 3;
  link_addr = link_local_addr 9;
  global_stats = λ k. 0;
  error_cnt = 0;
  join_query_client = some a_client;
  sent = [];
}

abbrev pub a_world : World
a_world = record { clock = 1000; wrote = true }

abbrev pledge_eui64 : List ℕ
pledge_eui64 = 2 ∷ 1 ∷ 2 ∷ 3 ∷ 4 ∷ 5 ∷ 6 ∷ 7 ∷ []

receive_neighbour_solicit-build_example :
    receive_neighbour_solicit 2 a_world
      (link_local_addr 0)
      all_hosts_addr
      (build_neighbour_solicit (link_local_addr 5) pledge_eui64 ++ [])
      40
      assistant
    ≡ done (
        queried a_world
          (link_local_addr 5)
          pledge_eui64
          a_client
          (target_marked (link_local_addr 5) assistant))
receive_neighbour_solicit-build_example =
    receive_neighbour_solicit-build 0 a_world (link_local_addr 0) (link_local_addr 5) pledge_eui64
      [] assistant a_client refl refl refl refl

-- A solicitation whose first option has the length 0.
abbrev endless_solicit : List ℕ
endless_solicit = 135 ∷ (replicate 23 0 ++ (33 ∷ 0 ∷ replicate 20 0))

receive_neighbour_solicit_endless_example :
    receive_neighbour_solicit 1000 a_world
      (link_local_addr 5)
      all_hosts_addr
      endless_solicit
      46
      assistant
    ≡ Outcome.stuck
receive_neighbour_solicit_endless_example =
    receive_neighbour_solicit_endless 1000 a_world (link_local_addr 5) endless_solicit 46 assistant
      (omega arith) (omega arith) refl refl

-- A solicitation with an option for an address registration: its only option is reached.
abbrev aro_solicit : List ℕ
aro_solicit = build_neighbour_solicit (link_local_addr 5) pledge_eui64

aro_solicit_len : get_elem? aro_solicit 25 ≡ some 2
unfolding build_neighbour_solicit
aro_solicit_len = refl

len_at :
    {pos : ℕ} {result : Option ℕ}
    → pos ≡ 24
    → get_elem? aro_solicit (pos + 1) ≡ result
    → some 2 ≡ result
len_at e at = sym aro_solicit_len ∙ (ap (λ p. get_elem? aro_solicit (p + 1)) (sym e) ∙ at)

Reached-aro_solicit : {pos : ℕ} → Reached aro_solicit 40 24 pos → (pos ≡ 24) ⊎ (40 ≤ pos)
Reached-aro_solicit start = inl refl
Reached-aro_solicit (next {pos} {len} before room at) = elim (Reached-aro_solicit before) [
  | inr far ↦ absurd (omega (arith, far, room))
  | inl e ↦ inr (omega (arith, e, some-injective 2 len (len_at e at)))
]

aro_solicit_longer :
    (i : ℕ) → Reached aro_solicit 40 24 i → i + 2 < 40 → get_elem? aro_solicit (i + 1) ≢ some 0
aro_solicit_longer i at room zero_len = elim (Reached-aro_solicit at) [
  | inr far ↦ omega (arith, far, room)
  | inl e ↦ omega (arith, some-injective 2 0 (len_at e zero_len))
]

receive_neighbour_solicit_ends_example :
    receive_neighbour_solicit 16 a_world (link_local_addr 0) all_hosts_addr aro_solicit 40 assistant
    ≢ Outcome.stuck
receive_neighbour_solicit_ends_example =
    receive_neighbour_solicit_ends 16 a_world (link_local_addr 0) all_hosts_addr aro_solicit 40
      assistant aro_solicit_longer (omega arith) (omega arith)

-- The states after the solicitation and after the answer.
abbrev asked : Neighbours
asked =
    queried a_world (link_local_addr 5) pledge_eui64 a_client
      (target_marked (link_local_addr 5) assistant)

abbrev told : Neighbours
told = process_grasp_reply 123457 true asked

assistant-IsQuiet : IsQuiet assistant
unfolding node_at find_node new_node zero_node
assistant-IsQuiet key = refl

Heard-IsQuiet_example : IsQuiet told × (in_progress told ≡ in_progress assistant)
Heard-IsQuiet_example =
    Heard-IsQuiet
      (answered 123457 true
        (solicited 2 a_world (link_local_addr 0) all_hosts_addr
          (build_neighbour_solicit (link_local_addr 5) pledge_eui64 ++ []) 40 (here assistant)
          receive_neighbour_solicit-build_example)
        refl)
      assistant-IsQuiet

-- A reader of the items that the client builds.
abbrev nth_item : CborItems → ℕ → Option CborItem
nth_item nil i = none
nth_item (cons x xs) zero = some x
nth_item (cons x xs) (suc i) = nth_item xs i

abbrev item_is_array : CborItem → Bool
item_is_array (uint8 n) = false
item_is_array (uint32 n) = false
item_is_array (text xs) = false
item_is_array (bytestring xs) = false
item_is_array (array xs) = true

abbrev item_get : CborItem → ℕ → Option CborItem
item_get (uint8 n) i = none
item_get (uint32 n) i = none
item_get (text xs) i = none
item_get (bytestring xs) i = none
item_get (array xs) i = nth_item xs i

abbrev item_int : CborItem → ℕ
item_int (uint8 n) = n
item_int (uint32 n) = n
item_int (text xs) = 0
item_int (bytestring xs) = 0
item_int (array xs) = 0

abbrev reader : CborReader
reader = record {
  Item = CborItem;
  is_array = item_is_array;
  array_get = item_get;
  get_int = item_int;
}

-- `[M_END, 123457, [O_ACCEPT]]`
abbrev accept_reply : CborItem
accept_reply =
    array (cons (uint8 6) (cons (uint32 123457) (cons (array (cons (uint8 101) nil)) nil)))

accept_reply-IsEnd :
    IsEnd reader accept_reply (start_query_for_aro true pledge_eui64 a_client).1 101
unfolding start_query_for_aro generate_random_sessionid
accept_reply-IsEnd = record {
  reply_array = refl;
  message = uint8 6;
  message_at = refl;
  ends = refl;
  session = uint32 123457;
  session_at = refl;
  names = refl;
  result = array (cons (uint8 101) nil);
  result_at = refl;
  result_array = refl;
  first = uint8 101;
  first_at = refl;
  says = refl;
}

no_session :
    find_by_session assistant.nodes (start_query_for_aro true pledge_eui64 a_client).1 ≡ none
unfolding find_by_session
no_session = refl

client_process_grasp_reply-queried_example :
    (n' : Neighbours) × (client_process_grasp_reply reader (some accept_reply) asked
      ≡ some (true, n'))
    × (join_accepted (node_at n'.nodes (link_local_addr 5)) ≡ true)
    × (join_declined (node_at n'.nodes (link_local_addr 5)) ≡ false)
    × (n'.sent ≡ verdict (link_local_addr 5) 0 ∷ [])
    × (n'.join_query_client
        ≡ some (record {
          last_session = (start_query_for_aro true pledge_eui64 a_client).1;
          queries_outstanding = 0;
          written = aro_query (start_query_for_aro true pledge_eui64 a_client).1 pledge_eui64 ∷ [];
        }))
client_process_grasp_reply-queried_example =
    client_process_grasp_reply-queried reader 1000 (link_local_addr 5) pledge_eui64 assistant
      a_client accept_reply 101 refl (omega arith) no_session accept_reply-IsEnd (omega arith)
