-- ===== src/Qod/Notifications/Drain.antt =====
-- The tasks of the notification manager leave its queues.
use phine_af.Prelude.{
  ℕ, ◌+◌, ◌-◌, ◌*◌, ◌≤◌, ◌<◌, zero, suc, String, Bool, ◌≡◌, refl, sym, ◌∙◌, ap, subst, true, false,
  not, ◌&&◌, Option, none, some, List, [], ◌∷◌, arith, ltb, leb, length, List-cases, Bool-cases,
  inl, inr,
}
use phine_af.Qod.Notifications.Client.{EventLib, HttpClient, is_success}
use phine_af.Qod.Notifications.{
  QodNotificationManager, NotificationTask, push_retry, update_stats, get_pending_count,
}
use phine_af.Qod.Notifications.Worker.{
  take_queued, take_task, retried, finish_task, send, process_taken, worker_pass, call_back,
  final_result,
}

module _ {L : EventLib} where
  -- The number of times that the task can still be sent, if its count is within the limit.
  abbrev pub sends_left : ℕ → NotificationTask L → ℕ
  sends_left limit t = suc (limit - t.retry_count)

  abbrev pub all_left : ℕ → List (NotificationTask L) → ℕ
  all_left limit [] = 0
  all_left limit (t ∷ l) = sends_left limit t + all_left limit l

  abbrev pub work : QodNotificationManager L → ℕ
  work m =
      all_left m.config.max_retry_attempts m.task_queue
      + all_left m.config.max_retry_attempts m.retry_queue

  left-push :
      (limit : ℕ) (t : NotificationTask L) (l : List (NotificationTask L))
      → all_left limit (push_retry t l) ≡ sends_left limit t + all_left limit l
  unfolding push_retry
  left-push limit t [] = refl
  left-push limit t (u ∷ l) = ground (arith, left-push limit t l)

  -- The times at which a worker wakes: not before the first retry is due.
  abbrev due : QodNotificationManager L → ℕ
  due m = elim m.retry_queue [ [] ↦ 0 | t ∷ l ↦ t.next_retry_time ]

  -- Whether the task is sent again.
  abbrev again : ℕ × String → NotificationTask L → QodNotificationManager L → Bool
  again answer t m = not (is_success answer.0) && ltb t.retry_count m.config.max_retry_attempts

  ended-work :
      (answer : ℕ × String) (now : ℕ) (t : NotificationTask L) (m : QodNotificationManager L)
      (b : Bool)
      → work (
          update_stats t.session_id
            (is_success answer.0)
            now
            (call_back b (final_result answer now) m))
        ≡ work m
  unfolding update_stats
  ended-work answer now t m true = ground arith
  ended-work answer now t m false = ground arith

  finish-work :
      (answer : ℕ × String) (jitter : ℕ → ℕ) (now : ℕ) (t : NotificationTask L)
      (m : QodNotificationManager L)
      → work (finish_task answer jitter now t m) < work m + sends_left m.config.max_retry_attempts t
  unfolding finish_task retried
  finish-work answer jitter now t m = elim (Bool-cases (again answer t m)) [
    | inl e ↦
        rw (finish_task, e)
          (ground (
            arith,
            e,
            left-push m.config.max_retry_attempts (retried jitter now t m) m.retry_queue,
          ))
    | inr e ↦ rw (finish_task, e) (ground (arith, ended-work answer now t m t.callback))
  ]

  finish-config :
      (answer : ℕ × String) (jitter : ℕ → ℕ) (now : ℕ) (t : NotificationTask L)
      (m : QodNotificationManager L)
      → (finish_task answer jitter now t m).config ≡ m.config
  unfolding finish_task update_stats
  finish-config answer jitter now t m = elim (Bool-cases t.callback) [
    | inl e ↦ ground (arith, e)
    | inr e ↦ ground (arith, e)
  ]

  -- What a task that is taken leaves.
  abbrev TakesFrom :
      QodNotificationManager L → Option (NotificationTask L) × QodNotificationManager L → Type 0
  TakesFrom m (none, n) = (work n ≡ 0) × (n.config ≡ m.config)
  TakesFrom m (some t, n) =
      (work n + sends_left m.config.max_retry_attempts t ≡ work m) × (n.config ≡ m.config)

  take_queued-work :
      (m : QodNotificationManager L) → m.retry_queue ≡ [] → TakesFrom m (take_queued m)
  unfolding take_queued
  take_queued-work m e = elim (List-cases m.task_queue) [
    | inl f ↦ rw (take_queued, f) (ground (arith, e, f), refl)
    | inr (t, rest, f) ↦ rw (take_queued, f) (ground (arith, e, f), refl)
  ]

  unforced :
      (now : ℕ) (m : QodNotificationManager L)
      → m.retry_queue ≡ []
      → take_task now m ≡ take_queued m
  unfolding take_task
  unforced now m e = simp (take_task, e)

  take-work : (now : ℕ) (m : QodNotificationManager L) → due m ≤ now → TakesFrom m (take_task now m)
  unfolding take_task
  take-work now m h = elim (List-cases m.retry_queue) [
    | inl e ↦ subst (TakesFrom m) (sym (unforced now m e)) (take_queued-work m e)
    | inr (t, rest, e) ↦
        let is_due : leb t.next_retry_time now ≡ true = ground (arith, h, e) in
        rw (take_task, e, is_due) (ground (arith, e), refl)
  ]

  process-work :
      (client : HttpClient L) (jitter : ℕ → ℕ) (now : ℕ) (m : QodNotificationManager L)
      (r : Option (NotificationTask L) × QodNotificationManager L)
      → TakesFrom m r
      → (work (process_taken client jitter now r) ≤ work m - 1)
        × ((process_taken client jitter now r).config ≡ m.config)
  unfolding process_taken
  process-work client jitter now m (none, n) (h, c) = (ground (arith, h), c)
  process-work client jitter now m (some t, n) (h, c) =
      let limits : n.config.max_retry_attempts ≡ m.config.max_retry_attempts =
        ap (λ x. x.max_retry_attempts) c in
      (
        ground (arith, finish-work (send client t n) jitter now t n, h, limits),
        finish-config (send client t n) jitter now t n ∙ c,
      )

  -- Passes at times at which the first retry is due, with the answers and the jitter of each pass.
  unfoldable pub drain :
      ℕ → (ℕ → HttpClient L) → (ℕ → ℕ → ℕ) → ℕ → QodNotificationManager L → QodNotificationManager L
  drain zero clients jitters now m = m
  drain (suc n) clients jitters now m =
      let wake = now + (due m - now) in
      drain n (λ k. clients (suc k)) (λ k. jitters (suc k)) wake
        (worker_pass (clients 0) (jitters 0) wake m)

  drain-work :
      (n : ℕ) (clients : ℕ → HttpClient L) (jitters : ℕ → ℕ → ℕ) (now : ℕ)
      (m : QodNotificationManager L)
      → work (drain n clients jitters now m) ≤ work m - n
  unfolding drain worker_pass
  drain-work zero clients jitters now m = ground arith
  drain-work (suc n) clients jitters now m =
      let wake = now + (due m - now) in
      let m' = worker_pass (clients 0) (jitters 0) wake m in
      let step =
        process-work (clients 0) (jitters 0) wake m (take_task wake m)
          (take-work wake m (omega arith)) in
      ground (arith, step.0, drain-work n (λ k. clients (suc k)) (λ k. jitters (suc k)) wake m')

  left-length :
      (limit : ℕ) (l : List (NotificationTask L)) → all_left limit l ≤ length l * suc limit
  left-length limit [] = ground arith
  left-length limit (t ∷ l) = ground (arith, left-length limit l)

  work-none : (m : QodNotificationManager L) → work m ≡ 0 → get_pending_count m ≡ 0
  work-none m h = elim (List-cases m.task_queue) [
    | inl e ↦ elim (List-cases m.retry_queue) [
      | inl f ↦ ground (arith, e, f)
      | inr (t, rest, f) ↦ ground (arith, h, f)
    ]
    | inr (t, rest, e) ↦ ground (arith, h, e)
  ]

  -- Passes of a worker at times at which the first retry is due empty both queues, whatever the
  -- clients answer and the jitter is: as many passes are enough as there are pending tasks, times
  -- one more than the limit of retries.
  pub queues-drained :
      (n : ℕ) (clients : ℕ → HttpClient L) (jitters : ℕ → ℕ → ℕ) (now : ℕ)
      (m : QodNotificationManager L)
      → get_pending_count m * suc m.config.max_retry_attempts ≤ n
      → get_pending_count (drain n clients jitters now m) ≡ 0
  queues-drained n clients jitters now m h =
      let limit = m.config.max_retry_attempts in
      work-none (drain n clients jitters now m) (
        ground (
          arith,
          h,
          drain-work n clients jitters now m,
          left-length limit m.task_queue,
          left-length limit m.retry_queue,
        ))
