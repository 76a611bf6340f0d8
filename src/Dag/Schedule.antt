-- ===== src/Dag/Schedule.antt =====
-- dag.cpp: when a DIO or a DAO is sent. The events themselves are event.h.
pub mod Alarms
use unstrung.Prelude.{ℕ, ◌+◌, Bool, true, false, ◌&&◌, Option, none, some, leb, ◌==◌, if◌then◌else◌}
use unstrung.Wire.{Addr, bytes_eq}
use unstrung.Timer.{set_alarm}
use unstrung.Dag.{
  DagNetwork, Env, RplEvent, EventType, send_dio, send_dao, requeue, emit, rank_infinite, ◌>>=◌,
}

-- Whether two pointers to nodes, or to interfaces, are the same.
unfoldable pub same_node : Option Addr → Option Addr → Bool
same_node none none = true
same_node none (some b) = false
same_node (some a) none = false
same_node (some a) (some b) = bytes_eq a b

unfoldable pub same_iface : Option ℕ → Option ℕ → Bool
same_iface none none = true
same_iface none (some b) = false
same_iface (some a) none = false
same_iface (some a) (some b) = a == b

abbrev pub is_set {ℓ} : {A : Type ℓ} → Option A → Bool
is_set none = false
is_set (some a) = true

unfoldable pub dag_rank_infinite : DagNetwork → Bool
dag_rank_infinite d = leb rank_infinite d.best_rank

pub root_node : DagNetwork → Bool
root_node d = d.my_rank == 1

-- The event that is there, or `new rpl_event(0, mInterval_msec, ...)`, with its type and alarm.
pub event_for : Env → Option RplEvent → EventType → ℕ → ℕ → Option RplEvent
event_for env old type interval msec = do
  alarm ← set_alarm env.faked env.clock 0 msec
  some (elim old [
    | none ↦ record {
      event_type = type;
      alarm_time = alarm;
      repeat_sec = 0;
      repeat_msec = interval;
    }
    | some e ↦ record e { event_type = type; alarm_time = alarm }
  ])

-- `schedule_dio(msec)`
unfoldable pub schedule_dio : Env → ℕ → DagNetwork → Option DagNetwork
unfolding event_for
schedule_dio env msec d = if dag_rank_infinite d then some d else do
  e ← event_for env d.send_dio_event send_dio d.interval_msec (msec + 1)
  some (emit (requeue e) (record d { send_dio_event = some e }))

unfoldable pub maybe_schedule_dio : Env → DagNetwork → Option DagNetwork
maybe_schedule_dio env d =
    if same_node d.lastparent d.parent
    then some d
    else do d' ← schedule_dio env 1 d; some (record d' { lastparent = d'.parent })

unfoldable pub schedule_dao : Env → DagNetwork → Option DagNetwork
unfolding event_for
schedule_dao env d = if env.terminating_soon then some d else do
  e ← event_for env d.send_dao_event send_dao d.interval_msec 2
  some (emit (requeue e) (record d { send_dao_event = some e }))

unfoldable pub maybe_send_dao : Env → DagNetwork → Option DagNetwork
unfolding root_node
maybe_send_dao env d =
    if d.dao_needed && is_set d.bestparent
    then (do
      d' ← if root_node d then some d else schedule_dao env d
      some (record d' { dao_needed = false }))
    else some d
