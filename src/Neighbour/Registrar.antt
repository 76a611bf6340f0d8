-- ===== src/Neighbour/Registrar.antt =====
-- libgrasp/client.cpp: the replies of the registrar. CBOR is a library: what the client asks of an
-- item is a parameter, where `none` is a null pointer.
use unstrung.Prelude.{
  ℕ, ◌+◌, ◌-◌, ◌%◌, ◌^◌, ◌≡◌, ◌<◌, refl, Bool, true, false, not, List, [], ◌∷◌, ◌++◌, Option, none,
  some, length, ◌==◌, if◌then◌else◌, ap, ◌∙◌, arith,
}
use unstrung.Node.{node_at, join_accepted, join_declined}
use unstrung.Grasp.{GraspClient, start_query_for_aro, aro_query, m_end, o_accept}
use unstrung.Neighbour.{Neighbours, World, find_neighbour, process_grasp_reply, find_by_session}
use unstrung.Neighbour.Solicits.{target_marked}
use unstrung.Neighbour.Asking.{queried}
use unstrung.Neighbour.Answers.{
  verdict, queried-nodes, process_grasp_reply-put_node, process_grasp_reply-client,
}

pub record CborReader : Type 1 where
  pub Item : Type 0
  pub is_array : Item → Bool
  pub array_get : Item → ℕ → Option Item
  pub get_int : Item → ℕ

module _ (c : CborReader) where
  open c use {Item, is_array, array_get, get_int}

  -- `decode_grasp_reply`, with what it returns; `none` is a read through a null pointer.
  pub decode_grasp_reply : Item → Neighbours → Option (Bool × Neighbours)
  decode_grasp_reply reply n =
      if not (is_array reply) then some (false, n) else elim (array_get reply 0) [
        | none ↦ none
        | some msgitem ↦
            if not (get_int msgitem % 2 ^ 32 == m_end)
            then some (false, n)
            else elim (array_get reply 1) [
              | none ↦ none
              | some session ↦ elim (array_get reply 2) [
                | none ↦ some (false, n)
                | some result ↦
                    if not (is_array result) then some (false, n) else elim (array_get result 0) [
                      | none ↦ some (false, n)
                      | some option ↦ some (
                        true,
                        process_grasp_reply (get_int session % 2 ^ 32)
                            (get_int option % 2 ^ 32 == o_accept) n,
                      )
                    ]
              ]
            ]
      ]

  -- `grasp_client::process_grasp_reply` on what `read_cbor` returns, for the client of the interface.
  pub client_process_grasp_reply : Option Item → Neighbours → Option (Bool × Neighbours)
  unfolding decode_grasp_reply
  client_process_grasp_reply none n = some (false, n)
  client_process_grasp_reply (some reply) n = elim n.join_query_client [
    | none ↦ none
    | some client ↦ decode_grasp_reply reply (record n {
      join_query_client = some (record client {
        queries_outstanding = (client.queries_outstanding + 2 ^ 32 - 1) % 2 ^ 32;
      });
    })
  ]

  -- A reply that ends a session with an option.
  pub record IsEnd (reply : Item) (gsi option : ℕ) : Type 0 where
    pub reply_array : is_array reply ≡ true
    pub message : Item
    pub message_at : array_get reply 0 ≡ some message
    pub ends : get_int message ≡ 6
    pub session : Item
    pub session_at : array_get reply 1 ≡ some session
    pub names : get_int session ≡ gsi
    pub result : Item
    pub result_at : array_get reply 2 ≡ some result
    pub result_array : is_array result ≡ true
    pub first : Item
    pub first_at : array_get result 0 ≡ some first
    pub says : get_int first ≡ option

  decode_grasp_reply-end :
      (reply : Item) (gsi option : ℕ) (n : Neighbours)
      → IsEnd reply gsi option
      → gsi < 2 ^ 32
      → option < 2 ^ 32
      → decode_grasp_reply reply n ≡ some (true, process_grasp_reply gsi (option == 101) n)
  unfolding decode_grasp_reply
  decode_grasp_reply-end reply gsi option n r small small' =
      let named : get_int r.session % 2 ^ 32 ≡ gsi = omega (arith, r.names, small) in
      let said : get_int r.first % 2 ^ 32 ≡ option = omega (arith, r.says, small') in
      rw (r.reply_array, decode_grasp_reply)
        (rw r.message_at (
          rw r.ends (
            rw r.session_at
              (rw r.result_at (rw r.result_array (rw r.first_at (rw named (rw said refl))))))))

  -- After a query that was written for a node with an address of 16 bytes, with a session that no
  -- neighbour has and fewer than 2 ^ 32 - 1 queries open, a reply that ends the session with an
  -- option below 2 ^ 32 is processed, makes the node accepted where the option is 101 and declined
  -- where it is not, tells it so by one advertisement with the status 0 or 253, and leaves as many
  -- queries open as before.
  pub client_process_grasp_reply-queried :
      (clock : ℕ) (link eui64 : List ℕ) (n : Neighbours) (client : GraspClient) (reply : Item)
      (option : ℕ)
      → length link ≡ 16
      → client.queries_outstanding < 2 ^ 32 - 1
      → find_by_session n.nodes (start_query_for_aro true eui64 client).1 ≡ none
      → IsEnd reply (start_query_for_aro true eui64 client).1 option
      → option < 2 ^ 32
      → let gsi = (start_query_for_aro true eui64 client).1 in
        let asked =
          queried
            (record { clock = clock; wrote = true })
            link
            eui64
            client
            (target_marked link n) in
        (n' : Neighbours) × (client_process_grasp_reply (some reply) asked ≡ some (true, n'))
        × (join_accepted (node_at n'.nodes link) ≡ (option == 101))
        × (join_declined (node_at n'.nodes link) ≡ not (option == 101))
        × (n'.sent ≡ n.sent ++ (verdict link (if option == 101 then 0 else 253) ∷ []))
        × (n'.join_query_client
            ≡ some (record {
              last_session = gsi;
              queries_outstanding = client.queries_outstanding;
              written = client.written ++ (aro_query gsi eui64 ∷ []);
            }))
  unfolding client_process_grasp_reply find_neighbour start_query_for_aro
  client_process_grasp_reply-queried clock link eui64 n client reply option long room free r small =
      let w : World = record { clock = clock; wrote = true } in
      let gsi = (start_query_for_aro true eui64 client).1 in
      let asked = queried w link eui64 client (target_marked link n) in
      let after = record asked {
        join_query_client = some (record (start_query_for_aro true eui64 client).0 {
          queries_outstanding = ((client.queries_outstanding + 1) % 2 ^ 32 + 2 ^ 32 - 1) % 2 ^ 32;
        });
      } in
      let (x, nodes, id, addr) = queried-nodes w link eui64 n client in
      let (accepted, declined, sent) =
        process_grasp_reply-put_node after n.nodes link x gsi (option == 101) nodes id addr long
          free in
      let balance : ((client.queries_outstanding + 1) % 2 ^ 32 + 2 ^ 32 - 1) % 2 ^ 32
          ≡ client.queries_outstanding =
        omega (arith, room) in
      (
        process_grasp_reply gsi (option == 101) after,
        decode_grasp_reply-end reply gsi option after r (omega arith) small,
        accepted,
        declined,
        sent,
        process_grasp_reply-client gsi (option == 101) after
            ∙ ap
                (λ q. some (record {
                  last_session = gsi;
                  queries_outstanding = q;
                  written = client.written ++ (aro_query gsi eui64 ∷ []);
                }))
                balance,
      )
