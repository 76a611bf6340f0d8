-- ===== src/Dag/Schedule/Alarms.antt =====
-- When the events of a DAG are due.
use unstrung.Prelude.{
  ℕ, ◌+◌, ◌*◌, ◌<◌, ◌≡◌, ◌⊎◌, refl, true, false, if◌then◌else◌, [], ◌∷◌, ◌++◌, Option, none, some,
  ap, ◌∙◌, Bool-cases, inl, inr, arith,
}
use unstrung.Timer.{Timeval, micros, alarm_base, set_alarm}
use unstrung.Timer.Alarm.{set_alarm_total}
use unstrung.Dag.{◌>>=◌, DagNetwork, Env, RplEvent, EventType, send_dio, send_dao, requeue, emit}
use unstrung.Dag.Schedule.{schedule_dio, schedule_dao, dag_rank_infinite, event_for}

event_for_lem :
    (env : Env) (old : Option RplEvent) (type : EventType) (interval msec : ℕ) (alarm : Timeval)
    → set_alarm env.faked env.clock 0 msec ≡ some alarm
    → (e : RplEvent) × (event_for env old type interval msec ≡ some e)
      × (e.event_type ≡ type)
      × (e.alarm_time ≡ alarm)
unfolding event_for
event_for_lem env none type interval msec alarm s = (
  record { event_type = type; alarm_time = alarm; repeat_sec = 0; repeat_msec = interval },
  rw (s, event_for) refl,
  refl,
  refl,
)
event_for_lem env (some e) type interval msec alarm s =
    (record e { event_type = type; alarm_time = alarm }, rw (s, event_for) refl, refl, refl)

-- On a DAG of finite rank and for fewer than 4294966 milliseconds, `schedule_dio` returns, with the
-- event set, due one millisecond more than asked after the base time, and queued once.
pub schedule_dio_due :
    (env : Env) (msec : ℕ) (d : DagNetwork)
    → dag_rank_infinite d ≡ false
    → msec < 4294966
    → (d' : DagNetwork) × (e : RplEvent) × (schedule_dio env msec d ≡ some d')
      × (d'.send_dio_event ≡ some e)
      × (d'.out ≡ d.out ++ (requeue e ∷ []))
      × (e.event_type ≡ send_dio)
      × (micros e.alarm_time ≡ micros (alarm_base env.faked env.clock) + (msec + 1) * 1000)
unfolding schedule_dio
schedule_dio_due env msec d finite small =
    let (alarm, s, m, b) = set_alarm_total env.faked env.clock 0 (msec + 1) (omega arith) in
    let (e, f, type, at) =
      event_for_lem env d.send_dio_event send_dio d.interval_msec (msec + 1) alarm s in
    (
      emit (requeue e) (record d { send_dio_event = some e }),
      e,
      rw (finite, schedule_dio) (rw f refl),
      refl,
      refl,
      type,
      ap micros at ∙ omega (arith, m),
    )

abbrev with_event : DagNetwork → RplEvent → Option DagNetwork
with_event d e = some (emit (requeue e) (record d { send_dao_event = some e }))

-- `schedule_dao` returns, and changes nothing where the process is about to end, while it else sets
-- the event, due two milliseconds after the base time, and queues it once.
pub schedule_dao_due :
    (env : Env) (d : DagNetwork)
    → (d' : DagNetwork) × (schedule_dao env d ≡ some d')
      × ((env.terminating_soon ≡ true) × (d' ≡ d)
          ⊎ (env.terminating_soon ≡ false)
            × (e : RplEvent) × (d'.send_dao_event ≡ some e)
            × (d'.out ≡ d.out ++ (requeue e ∷ []))
            × (e.event_type ≡ send_dao)
            × (micros e.alarm_time ≡ micros (alarm_base env.faked env.clock) + 2000))
unfolding schedule_dao
schedule_dao_due env d =
    let (alarm, s, m, b) = set_alarm_total env.faked env.clock 0 2 (omega arith) in
    elim (Bool-cases env.terminating_soon) [
      | inl ending ↦ (d, rw (ending, schedule_dao) refl, inl (ending, refl))
      | inr going ↦
          let (e, f, type, at) =
            event_for_lem env d.send_dao_event send_dao d.interval_msec 2 alarm s in
          (
            emit (requeue e) (record d { send_dao_event = some e }),
            ap
                  (λ b.
                    if b
                    then some d
                    else event_for env d.send_dao_event send_dao d.interval_msec 2 >>= with_event d)
                  going
                ∙ ap (λ o. o >>= with_event d) f,
            inr (going, e, refl, refl, type, ap micros at ∙ omega (arith, m)),
          )
    ]
