-- ===== src/Grasp.antt =====
-- libgrasp/client.cpp and grasp.h, as built with GRASP_CLIENT: the queries to the registrar. A CBOR
-- item is the calls that build it; whether a `write` takes the whole message is an argument.
use unstrung.Prelude.{ℕ, ◌+◌, ◌%◌, ◌^◌, ltb, Bool, List, [], ◌∷◌, ◌++◌, if◌then◌else◌}

-- `enum grasp_message`, `grasp_options` and `objective_flags`, as far as the client uses them.
abbrev pub m_req_neg : ℕ
m_req_neg = 3

abbrev pub m_end : ℕ
m_end = 6

abbrev pub o_accept : ℕ
o_accept = 101

abbrev pub f_neg : ℕ
f_neg = 1

mutual
  pub data CborItem : Type 0 where
    uint8 : ℕ → CborItem
    uint32 : ℕ → CborItem
    text : List ℕ → CborItem
    bytestring : List ℕ → CborItem
    array : CborItems → CborItem

  pub data CborItems : Type 0 where
    nil : CborItems
    cons : CborItem → CborItems → CborItems

-- "46930:6JOIN" and "6p-ipip"
abbrev pub objective_name : List ℕ
objective_name = 52 ∷ 54 ∷ 57 ∷ 51 ∷ 48 ∷ 58 ∷ 54 ∷ 74 ∷ 79 ∷ 73 ∷ 78 ∷ []

abbrev pub ipip_name : List ℕ
ipip_name = 54 ∷ 112 ∷ 45 ∷ 105 ∷ 112 ∷ 105 ∷ 112 ∷ []

-- The counters of a client, the last session number, and the messages that it wrote.
pub record GraspClient : Type 0 where
  pub last_session : ℕ
  pub queries_outstanding : ℕ
  pub written : List CborItem

-- `newrand = ++lastsession`, the branch that is compiled.
unfoldable pub generate_random_sessionid : GraspClient → GraspClient × ℕ
generate_random_sessionid g =
    let newrand = (g.last_session + 1) % 2 ^ 32 in (record g { last_session = newrand }, newrand)

pub send_cbor : Bool → CborItem → GraspClient → GraspClient
send_cbor wrote item g =
    if wrote
    then record g {
      queries_outstanding = (g.queries_outstanding + 1) % 2 ^ 32;
      written = g.written ++ (item ∷ []);
    }
    else g

-- `[M_REQ_NEG, session-id, [name, flags, loop-count, [eui64, "6p-ipip"]]]`
pub aro_query : ℕ → List ℕ → CborItem
aro_query gsi eui64 =
    let aro_box = array (cons (bytestring eui64) (cons (text ipip_name) nil)) in
    let objective =
      array (
        cons (text objective_name)
          (cons (uint8 (2 ^ f_neg)) (cons (uint8 2) (cons aro_box nil)))) in
    array (cons (uint8 m_req_neg) (cons (uint32 gsi) (cons objective nil)))

unfoldable pub start_query_for_aro : Bool → List ℕ → GraspClient → GraspClient × ℕ
unfolding generate_random_sessionid send_cbor aro_query
start_query_for_aro wrote eui64 g =
    let (named, gsi) = generate_random_sessionid g in
    (send_cbor wrote (aro_query gsi eui64) named, gsi)

-- Whether the client is polled.
pub poll_setup : GraspClient → Bool
poll_setup g = ltb 0 g.queries_outstanding
