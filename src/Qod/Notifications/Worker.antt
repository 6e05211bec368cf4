-- ===== src/Qod/Notifications/Worker.antt =====
-- The loop of a worker thread and the delivery in af_core/src/qod/qod_notification_manager.cpp. The
-- queues are locked while a task is taken and while a retry is scheduled, and not in between.
use phine_af.Prelude.{
  ℕ, ◌+◌, String, Bool, true, false, not, ◌&&◌, Option, none, some, [], ◌∷◌, ◌++◌, ltb, leb,
  if◌then◌else◌,
}
use phine_af.Outcome.{Outcome, returns, throws, undefined}
use phine_af.Qod.Notifications.Client.{
  EventLib, HttpClient, validate_sink, validate_credential, is_success, failure_message,
  exception_message,
}
use phine_af.Qod.Notifications.{
  QodNotificationManager, NotificationTask, NotificationDeliveryResult, push_retry,
  calculate_next_retry, update_stats, queue_notification,
}

abbrev pub final_result : ℕ × String → ℕ → NotificationDeliveryResult
final_result (code, response) now = record {
  success = is_success code;
  http_status_code = code;
  error_message = if is_success code then "" else response;
  timestamp = now;
}

abbrev pub failure : ℕ → String → ℕ → NotificationDeliveryResult
failure code message now = record {
  success = false;
  http_status_code = code;
  error_message = message;
  timestamp = now;
}

abbrev pub accepted : ℕ → NotificationDeliveryResult
accepted now = record {
  success = true;
  http_status_code = 202;
  error_message = "";
  timestamp = now;
}

-- The status code and the response of a synchronous delivery.
abbrev sent : ℕ × String → ℕ → NotificationDeliveryResult
sent (code, response) now = record {
  success = is_success code;
  http_status_code = code;
  error_message = if is_success code then "" else failure_message code response;
  timestamp = now;
}

abbrev pub or_empty : Option (Outcome String) → Outcome String
or_empty none = returns ""
or_empty (some r) = r

module _ {L : EventLib} where
  unfoldable pub take_queued :
      QodNotificationManager L → Option (NotificationTask L) × QodNotificationManager L
  take_queued m = elim m.task_queue [
    | [] ↦ (none, m)
    | t ∷ rest ↦ (some t, record m { task_queue = rest })
  ]

  -- A retry that is due comes first.
  unfoldable pub take_task :
      ℕ → QodNotificationManager L → Option (NotificationTask L) × QodNotificationManager L
  unfolding take_queued
  take_task now m = elim m.retry_queue [
    | [] ↦ take_queued m
    | t ∷ rest ↦
        if leb t.next_retry_time now
        then (some t, record m { retry_queue = rest })
        else take_queued m
  ]

  -- The task with its count raised; its time is computed from that.
  unfoldable pub retried :
      (ℕ → ℕ) → ℕ → NotificationTask L → QodNotificationManager L → NotificationTask L
  unfolding calculate_next_retry
  retried jitter now t m =
      let counted = record t { retry_count = t.retry_count + 1 } in
      record counted { next_retry_time = calculate_next_retry m.config counted jitter now }

  abbrev pub call_back :
      Bool → NotificationDeliveryResult → QodNotificationManager L → QodNotificationManager L
  call_back false result m = m
  call_back true result m = record m { called = m.called ++ result ∷ [] }

  -- What follows the answer of the client to a task.
  unfoldable pub finish_task :
      ℕ × String
      → (ℕ → ℕ)
      → ℕ
      → NotificationTask L
      → QodNotificationManager L
      → QodNotificationManager L
  unfolding retried push_retry update_stats
  finish_task answer jitter now t m =
      if not (is_success answer.0) && ltb t.retry_count m.config.max_retry_attempts
      then record m { retry_queue = push_retry (retried jitter now t m) m.retry_queue }
      else update_stats t.session_id (is_success answer.0) now
          (call_back t.callback (final_result answer now) m)

  abbrev pub send : HttpClient L → NotificationTask L → QodNotificationManager L → ℕ × String
  send client t m = client t.sink t.event t.credential m.config.default_timeout

  unfoldable pub process_taken :
      HttpClient L
      → (ℕ → ℕ)
      → ℕ
      → Option (NotificationTask L) × QodNotificationManager L
      → QodNotificationManager L
  unfolding finish_task
  process_taken client jitter now (none, m) = m
  process_taken client jitter now (some t, m) = finish_task (send client t m) jitter now t m

  -- One pass of the loop, with no other thread in between.
  unfoldable pub worker_pass :
      HttpClient L → (ℕ → ℕ) → ℕ → QodNotificationManager L → QodNotificationManager L
  unfolding take_task process_taken
  worker_pass client jitter now m = process_taken client jitter now (take_task now m)

  -- `task.session_id` of the event, which is empty if the event has none.
  unfoldable pub deliver_to :
      L.Event
      → String
      → Option L.Credential
      → Outcome String
      → ℕ
      → QodNotificationManager L
      → Outcome NotificationDeliveryResult × QodNotificationManager L
  unfolding queue_notification
  deliver_to event sink credential (throws e) now m =
      (returns (failure 0 (exception_message e) now), m)
  deliver_to event sink credential undefined now m = (undefined, m)
  deliver_to event sink credential (returns i) now m =
      let queued = queue_notification event sink credential i false now m in
      (returns (if queued.0 then accepted now else failure 503 "Queue full" now), queued.1)

  -- Without asynchronous delivery the client is asked at once.
  unfoldable pub deliver :
      HttpClient L
      → L.Event
      → String
      → Option L.Credential
      → ℕ
      → QodNotificationManager L
      → Outcome NotificationDeliveryResult × QodNotificationManager L
  unfolding deliver_to validate_sink validate_credential
  deliver client event sink credential now m =
      if not (validate_sink sink)
      then (returns (failure 0 "Invalid sink URL" now), m)
      else if not (validate_credential L credential now)
      then (returns (failure 0 "Expired or invalid credential" now), m)
      else if m.config.enable_async_delivery
      then deliver_to event sink credential (or_empty (L.session_of event)) now m
      else (returns (sent (client sink event credential m.config.default_timeout) now), m)
