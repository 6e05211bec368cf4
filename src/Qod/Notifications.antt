-- ===== src/Qod/Notifications.antt =====
-- The class `QodNotificationManager` of af_core/src/qod/qod_notification_manager.cpp. The mutexes
-- guard one member each and no method locks one twice; a pass of the loop of a worker thread is one
-- step, and steps of several threads come in any order.
pub mod Client
pub mod Worker
pub mod Drain
pub mod Frame
pub mod Reachable
pub mod Bounds
pub mod Answers
use phine_af.Prelude.{
  ℕ, ◌+◌, ◌-◌, zero, suc, String, Bool, true, false, not, ◌&&◌, Option, none, some, List, [], ◌∷◌,
  ◌++◌, keep, ltb, leb, length, is_empty, if◌then◌else◌,
}
use phine_af.Map.{Map, empty, find, put, erase}
use phine_af.Outcome.{Outcome, returns, throws, undefined}
use phine_af.Ue.State.{is_nil}
use phine_af.Qod.Notifications.Client.{
  EventLib, HttpClient, validate_sink, validate_credential, is_success, failure_message,
}

-- `retry_backoff_multiplier` is the product with the factor, cut to a whole number of seconds.
pub record NotificationConfig : Type 0 where
  pub default_timeout : ℕ
  pub max_retry_attempts : ℕ
  pub initial_retry_delay : ℕ
  pub retry_backoff_multiplier : ℕ → ℕ
  pub max_retry_delay : ℕ
  pub max_queue_size : ℕ
  pub enable_async_delivery : Bool

pub record NotificationDeliveryResult : Type 0 where
  pub success : Bool
  pub http_status_code : ℕ
  pub error_message : String
  pub timestamp : ℕ

pub record SessionStats : Type 0 where
  pub total_sent : ℕ
  pub successful : ℕ
  pub failed : ℕ
  pub pending : ℕ
  pub last_update : ℕ

abbrev no_stats : SessionStats
no_stats = record { total_sent = 0; successful = 0; failed = 0; pending = 0; last_update = 0 }

-- `callback` says whether there is one.
pub record NotificationTask (L : EventLib) : Type 0 where
  pub event : L.Event
  pub sink : String
  pub credential : Option L.Credential
  pub retry_count : ℕ
  pub next_retry_time : ℕ
  pub session_id : String
  pub callback : Bool

-- The priority queue is a list in the order of its times; `called` is what callbacks were called
-- with so far.
pub record QodNotificationManager (L : EventLib) : Type 0 where
  pub config : NotificationConfig
  pub task_queue : List (NotificationTask L)
  pub retry_queue : List (NotificationTask L)
  pub session_tasks : Map (List (NotificationTask L))
  pub session_stats : Map SessionStats
  pub called : List NotificationDeliveryResult

-- The delay before a retry without the jitter: `n` more rounds of the loop.
unfoldable pub backoff : NotificationConfig → ℕ → ℕ → ℕ
backoff c zero delay = delay
backoff c (suc n) delay =
    let longer = c.retry_backoff_multiplier delay in
    let rest = backoff c n longer in
    if ltb c.max_retry_delay longer then c.max_retry_delay else rest

-- A delivery that succeeded, or one that is pending.
unfoldable pub count : Bool → ℕ → SessionStats → SessionStats
count true now x = record {
  total_sent = x.successful + 1 + x.failed;
  successful = x.successful + 1;
  failed = x.failed;
  pending = x.pending - 1;
  last_update = now;
}
count false now x = record {
  total_sent = x.successful + x.failed;
  successful = x.successful;
  failed = x.failed;
  pending = x.pending + 1;
  last_update = now;
}

module _ {L : EventLib} where
  unfoldable pub init : NotificationConfig → QodNotificationManager L
  init c = record {
    config = c;
    task_queue = [];
    retry_queue = [];
    session_tasks = empty;
    session_stats = empty;
    called = [];
  }

  abbrev pub later : NotificationTask L → NotificationTask L → Bool
  later a b = ltb b.next_retry_time a.next_retry_time

  -- `retry_queue_.push`.
  unfoldable pub push_retry :
      NotificationTask L → List (NotificationTask L) → List (NotificationTask L)
  push_retry t [] = t ∷ []
  push_retry t (u ∷ l) = let rest = push_retry t l in if later t u then u ∷ rest else t ∷ u ∷ l

  unfoldable pub calculate_next_retry : NotificationConfig → NotificationTask L → (ℕ → ℕ) → ℕ → ℕ
  unfolding backoff
  calculate_next_retry c t jitter now =
      now + jitter (backoff c (t.retry_count - 1) c.initial_retry_delay)

  abbrev pub stats_at : String → QodNotificationManager L → SessionStats
  stats_at i m = elim (find i m.session_stats) [ none ↦ no_stats | some x ↦ x ]

  unfoldable pub update_stats :
      String → Bool → ℕ → QodNotificationManager L → QodNotificationManager L
  unfolding count
  update_stats i success now m =
      if is_empty i
      then m
      else record m { session_stats = put i (count success now (stats_at i m)) m.session_stats }

  abbrev pub tasks_at : String → QodNotificationManager L → List (NotificationTask L)
  tasks_at i m = elim (find i m.session_tasks) [ none ↦ [] | some l ↦ l ]

  abbrev pub track : NotificationTask L → QodNotificationManager L → QodNotificationManager L
  track t m = if is_empty t.session_id then m else record m {
    session_tasks = put t.session_id (tasks_at t.session_id m ++ t ∷ []) m.session_tasks;
  }

  abbrev pub new_task :
      L.Event → String → Option L.Credential → String → Bool → ℕ → NotificationTask L
  new_task event sink credential i callback now = record {
    event = event;
    sink = sink;
    credential = credential;
    retry_count = 0;
    next_retry_time = now;
    session_id = i;
    callback = callback;
  }

  -- A full queue takes nothing.
  unfoldable pub queue_task :
      NotificationTask L → ℕ → QodNotificationManager L → Bool × QodNotificationManager L
  unfolding update_stats
  queue_task t now m = if leb m.config.max_queue_size (length m.task_queue) then (false, m) else (
    true,
    update_stats t.session_id false now
        (track t (record m { task_queue = m.task_queue ++ t ∷ [] })),
  )

  unfoldable pub queue_notification :
      L.Event
      → String
      → Option L.Credential
      → String
      → Bool
      → ℕ
      → QodNotificationManager L
      → Bool × QodNotificationManager L
  unfolding queue_task
  queue_notification event sink credential i callback now =
      queue_task (new_task event sink credential i callback now) now

  -- The queues keep the tasks of the session.
  unfoldable pub cancel_session_notifications :
      String → QodNotificationManager L → ℕ × QodNotificationManager L
  cancel_session_notifications i m = elim (find i m.session_tasks) [
    | none ↦ (0, m)
    | some l ↦ (length l, record m { session_tasks = erase i m.session_tasks })
  ]

  abbrev pub get_pending_count : QodNotificationManager L → ℕ
  get_pending_count m = length m.task_queue + length m.retry_queue

  abbrev pub get_session_stats : String → QodNotificationManager L → Option SessionStats
  get_session_stats i m = find i m.session_stats

  -- A day is 86400 seconds.
  unfoldable pub cleanup_old_stats : ℕ → QodNotificationManager L → QodNotificationManager L
  cleanup_old_stats now m = record m {
    session_stats = record {
      entries = keep (λ e. not (ltb (e.1.last_update + 86400) now)) m.session_stats.entries;
    };
  }

  -- The threads end, and the new tasks go; the retries stay.
  unfoldable pub stop : QodNotificationManager L → QodNotificationManager L
  stop m = record m { task_queue = [] }
