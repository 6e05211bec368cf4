-- ===== src/Tests/Notifications.antt =====
-- Runs of the notification manager.
use phine_af.Prelude.{ℕ, ◌+◌, String, ◌≡◌, refl, true, false, none, some, [], arith}
use phine_af.Outcome.{returns}
use phine_af.Qod.Notifications.Client.{EventLib, send_notification}
use phine_af.Qod.Notifications.{
  NotificationConfig, NotificationTask, QodNotificationManager, init, get_pending_count, queue_task,
  new_task,
}
use phine_af.Qod.Notifications.Worker.{take_task, finish_task}
use phine_af.Qod.Notifications.Drain.{drain, queues-drained}
use phine_af.Qod.Notifications.Reachable.{System, Reach, starts, steps, queues, takes, finishes}
use phine_af.Qod.Notifications.Bounds.{IsBounded, reachable-IsBounded}

-- An event is the identifier of its session, and a credential the time at which it expires.
abbrev events : EventLib
events = record {
  Event = String;
  Credential = ℕ;
  session_of = λ e. some (returns e);
  is_access_token = λ c. true;
  access_token_expires_utc = λ c. some c;
}

-- The defaults.
abbrev defaults : NotificationConfig
defaults = record {
  default_timeout = 10;
  max_retry_attempts = 3;
  initial_retry_delay = 1;
  retry_backoff_multiplier = λ n. n + n;
  max_retry_delay = 30;
  max_queue_size = 10000;
  enable_async_delivery = true;
}

abbrev task : NotificationTask events
task = new_task "qod-1" "https://shop.example/events" none "qod-1" false 100

abbrev fresh : QodNotificationManager events
fresh = init defaults

abbrev waiting : QodNotificationManager events
waiting = (queue_task task 100 fresh).1

waiting-config : waiting.config.max_retry_attempts ≡ 3
unfolding queue_task init
waiting-config = refl

waiting-count : get_pending_count waiting ≡ 1
unfolding queue_task init phine_af.Qod.Notifications.update_stats
waiting-count = refl

queues-drained_example :
    get_pending_count (drain 4 (λ k. send_notification events) (λ k delay. delay) 100 waiting) ≡ 0
queues-drained_example =
    queues-drained 4 (λ k. send_notification events) (λ k delay. delay) 100 waiting
      (ground (arith, waiting-config, waiting-count))

-- The task is queued, taken, and its first attempt fails.
abbrev failed_once : System events
failed_once = record {
  in_flight = [];
  manager =
      finish_task (0, "Not implemented in this build") (λ delay. delay) 101 task
        (take_task 100 waiting).1;
}

task-taken : take_task 100 waiting ≡ (some task, (take_task 100 waiting).1)
unfolding take_task queue_task init phine_af.Qod.Notifications.update_stats
task-taken = refl

failed_once-reached : Reach defaults failed_once
failed_once-reached =
    steps
      (steps (steps starts (queues [] fresh task 100 refl))
        (takes [] waiting (take_task 100 waiting).1 task 100 task-taken))
      (finishes [] [] task (take_task 100 waiting).1 (0, "Not implemented in this build")
        (λ delay. delay) 101)

reachable-IsBounded_example : IsBounded defaults failed_once
reachable-IsBounded_example = reachable-IsBounded defaults failed_once failed_once-reached
