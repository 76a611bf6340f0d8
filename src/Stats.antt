-- ===== src/Stats.antt =====
-- counter_names.h: the packet counters, each an `u_int32_t` that wraps.
use unstrung.Prelude.{ℕ, ◌+◌, ◌%◌, ◌^◌, ◌==◌, if◌then◌else◌}

abbrev pub Stats : Type 0
Stats = ℕ → ℕ

-- `mStats[k]++`
abbrev pub bump : ℕ → Stats → Stats
bump k stats j = if j == k then (stats j + 1) % 2 ^ 32 else stats j

-- `enum packet_stats`, as far as the modelled code counts.
abbrev pub ps_seq_old : ℕ
ps_seq_old = 0

abbrev pub ps_packet_received : ℕ
ps_packet_received = 1

abbrev pub ps_packet_processed : ℕ
ps_packet_processed = 2

abbrev pub ps_packets_watched : ℕ
ps_packets_watched = 3

abbrev pub ps_lower_rank_considered : ℕ
ps_lower_rank_considered = 4

abbrev pub ps_lower_rank_rejected : ℕ
ps_lower_rank_rejected = 5

abbrev pub ps_suboption_underrun : ℕ
ps_suboption_underrun = 6

abbrev pub ps_self_packet_received : ℕ
ps_self_packet_received = 7

abbrev pub ps_dao_packet_received : ℕ
ps_dao_packet_received = 8

abbrev pub ps_dio_packet_received : ℕ
ps_dio_packet_received = 9

abbrev pub ps_dao_packet_ignored : ℕ
ps_dao_packet_ignored = 10

abbrev pub ps_dio_packet_ignored : ℕ
ps_dio_packet_ignored = 11

abbrev pub ps_dag_created_for_watching : ℕ
ps_dag_created_for_watching = 12

abbrev pub ps_same_parent_ignored : ℕ
ps_same_parent_ignored = 13

abbrev pub ps_same_sequence_ignored : ℕ
ps_same_sequence_ignored = 14

abbrev pub ps_daoack_packet_ignored : ℕ
ps_daoack_packet_ignored = 15

abbrev pub ps_daoack_no_dagid_ignored : ℕ
ps_daoack_no_dagid_ignored = 16

abbrev pub ps_daoack_wrong_parent : ℕ
ps_daoack_wrong_parent = 17

abbrev pub ps_daoack_wrong_seqno : ℕ
ps_daoack_wrong_seqno = 18

abbrev pub ps_rpl_unknown_code : ℕ
ps_rpl_unknown_code = 19

abbrev pub ps_dis_packet_received : ℕ
ps_dis_packet_received = 20

abbrev pub ps_dis_packet_ignored : ℕ
ps_dis_packet_ignored = 21

abbrev pub ps_neighbour_unicast_reachability : ℕ
ps_neighbour_unicast_reachability = 22

abbrev pub ps_neighbour_unicast_target_ns : ℕ
ps_neighbour_unicast_target_ns = 23

abbrev pub ps_neighbour_unicast_source_unspecified : ℕ
ps_neighbour_unicast_source_unspecified = 24

abbrev pub ps_neighbour_mcast_solicit : ℕ
ps_neighbour_mcast_solicit = 25

abbrev pub ps_neighbour_ignored : ℕ
ps_neighbour_ignored = 26

abbrev pub ps_neighbour_solicit : ℕ
ps_neighbour_solicit = 27

abbrev pub ps_neighbour_joinassistant_solicit : ℕ
ps_neighbour_joinassistant_solicit = 29

abbrev pub ps_neighbour_join_query_started : ℕ
ps_neighbour_join_query_started = 30

abbrev pub ps_neighbour_join_query_inprogress : ℕ
ps_neighbour_join_query_inprogress = 31

abbrev pub ps_neighbour_join_neighbour_solicitation : ℕ
ps_neighbour_join_neighbour_solicitation = 32

abbrev pub ps_neighbour_join_query_already_declined : ℕ
ps_neighbour_join_query_already_declined = 33

abbrev pub ps_neighbour_join_query_already_accepted : ℕ
ps_neighbour_join_query_already_accepted = 34

abbrev pub ps_neighbour_join_query_noconnection : ℕ
ps_neighbour_join_query_noconnection = 35
