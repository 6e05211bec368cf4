-- ===== src/Qod/Notifications/Reachable.antt =====
-- The states that calls of the notification manager and the steps of its worker threads reach, in
-- any order, and what holds in all of them.
use phine_af.Prelude.{ℕ, String, ◌≡◌, some, List, [], ◌∷◌, ◌++◌}
use phine_af.Qod.Notifications.Client.{EventLib}
use phine_af.Qod.Notifications.{
  NotificationConfig, QodNotificationManager, NotificationTask, queue_task,
  cancel_session_notifications, cleanup_old_stats, init, stop,
}
use phine_af.Qod.Notifications.Worker.{take_task, finish_task}

-- The tasks that worker threads have taken and not finished, and the manager.
pub record System (L : EventLib) : Type 0 where
  pub in_flight : List (NotificationTask L)
  pub manager : QodNotificationManager L

module _ {L : EventLib} where
  -- A call, or a step of a worker thread: it takes a task, or it finishes one of those taken, with
  -- any answer of the client and any jitter.
  pub data Step : System L → System L → Type 0 where
    queues :
        (f : List (NotificationTask L)) (m : QodNotificationManager L) (t : NotificationTask L)
        (now : ℕ)
        → t.retry_count ≡ 0
        → Step
            (record { in_flight = f; manager = m })
            (record { in_flight = f; manager = (queue_task t now m).1 })
    cancels :
        (f : List (NotificationTask L)) (m : QodNotificationManager L) (i : String)
        → Step
            (record { in_flight = f; manager = m })
            (record { in_flight = f; manager = (cancel_session_notifications i m).1 })
    cleans :
        (f : List (NotificationTask L)) (m : QodNotificationManager L) (now : ℕ)
        → Step
            (record { in_flight = f; manager = m })
            (record { in_flight = f; manager = cleanup_old_stats now m })
    stops :
        (f : List (NotificationTask L)) (m : QodNotificationManager L)
        → Step (record { in_flight = f; manager = m }) (record { in_flight = f; manager = stop m })
    takes :
        (f : List (NotificationTask L)) (m n : QodNotificationManager L) (t : NotificationTask L)
        (now : ℕ)
        → take_task now m ≡ (some t, n)
        → Step (record { in_flight = f; manager = m }) (record { in_flight = t ∷ f; manager = n })
    finishes :
        (f g : List (NotificationTask L)) (t : NotificationTask L) (m : QodNotificationManager L)
        (answer : ℕ × String) (jitter : ℕ → ℕ) (now : ℕ)
        → Step
            (record { in_flight = f ++ t ∷ g; manager = m })
            (record { in_flight = f ++ g; manager = finish_task answer jitter now t m })

  pub data Reach (c : NotificationConfig) : System L → Type 0 where
    starts : Reach c (record { in_flight = []; manager = init c })
    steps : {s t : System L} → Reach c s → Step s t → Reach c t
