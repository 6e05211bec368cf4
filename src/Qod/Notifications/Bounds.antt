-- ===== src/Qod/Notifications/Bounds.antt =====
-- The limits of the queues and the counts, in every state that is reached.
use phine_af.Prelude.{
  ℕ, ◌+◌, ◌≤◌, String, Bool, ◌≡◌, refl, sym, ◌∙◌, ap, not, ◌&&◌, Option, none, some, List, [], ◌∷◌,
  ◌++◌, arith, ltb, leb, length, All, subst, Option-cases, List-cases, Bool-cases, inl, inr,
}
use phine_af.Map.{find, empty}
use phine_af.All.{All-append, All-split, All-keep}
use phine_af.Qod.Notifications.Client.{EventLib, is_success}
use phine_af.Qod.Notifications.{
  NotificationConfig, QodNotificationManager, NotificationTask, push_retry, later, queue_task,
  cancel_session_notifications, cleanup_old_stats, init, stop,
}
use phine_af.Qod.Notifications.Frame.{
  IsCounted, AreCounted, queued-frame, length-snoc, queued-AreCounted, ended-frame,
  ended-AreCounted,
}
use phine_af.Qod.Notifications.Worker.{take_queued, take_task, finish_task, retried, final_result}
use phine_af.Qod.Notifications.Reachable.{
  System, Step, Reach, queues, cancels, cleans, stops, takes, finishes, starts, steps,
}

module _ {L : EventLib} where
  abbrev pub IsWithin : ℕ → NotificationTask L → Type 0
  IsWithin limit t = t.retry_count ≤ limit

  -- The limits that hold in every state, with what the statistics never count.
  pub record IsBounded (c : NotificationConfig) (s : System L) : Type 0 where
    pub config : s.manager.config ≡ c
    pub room : length s.manager.task_queue ≤ c.max_queue_size
    pub fresh : All (IsWithin 0) s.manager.task_queue
    pub within : All (IsWithin c.max_retry_attempts) s.manager.retry_queue
    pub taken : All (IsWithin c.max_retry_attempts) s.in_flight
    pub no_failures : AreCounted s.manager.session_stats

  queues-IsBounded :
      (c : NotificationConfig) (f : List (NotificationTask L)) (m : QodNotificationManager L)
      (t : NotificationTask L) (now : ℕ)
      → t.retry_count ≡ 0
      → IsBounded c (record { in_flight = f; manager = m })
      → IsBounded c (record { in_flight = f; manager = (queue_task t now m).1 })
  unfolding queue_task
  queues-IsBounded c f m t now z h =
      elim (Bool-cases (leb m.config.max_queue_size (length m.task_queue))) [
        | inl e ↦ rw (queue_task, e) h
        | inr e ↦
            let k = queued-frame t now m e in
            record {
              config = k.0 ∙ h.config;
              room = ground (
                arith,
                e,
                ap length k.1,
                length-snoc m.task_queue t,
                ap (λ x. x.max_queue_size) h.config,
              );
              fresh =
                  subst (All (IsWithin 0)) (sym k.1)
                    (All-append (IsWithin 0) m.task_queue t h.fresh (ground (arith, z)));
              within = subst (All (IsWithin c.max_retry_attempts)) (sym k.2) h.within;
              taken = h.taken;
              no_failures = queued-AreCounted t now m h.no_failures;
            }
      ]

  push-within :
      (limit : ℕ) (t : NotificationTask L) (l : List (NotificationTask L))
      → IsWithin limit t
      → All (IsWithin limit) l
      → All (IsWithin limit) (push_retry t l)
  unfolding push_retry
  push-within limit t [] p h = (p, tt)
  push-within limit t (u ∷ l) p h = elim (Bool-cases (later t u)) [
    | inl e ↦ rw e (h.0, push-within limit t l p h.1)
    | inr e ↦ rw e (p, h)
  ]

  init-IsBounded :
      (c : NotificationConfig) → IsBounded c (record { in_flight = []; manager = init {L = L} c })
  unfolding init empty
  init-IsBounded c = record {
    config = refl;
    room = omega arith;
    fresh = tt;
    within = tt;
    taken = tt;
    no_failures = tt;
  }

  cancels-IsBounded :
      (c : NotificationConfig) (f : List (NotificationTask L)) (m : QodNotificationManager L)
      (i : String)
      → IsBounded c (record { in_flight = f; manager = m })
      → IsBounded c (record { in_flight = f; manager = (cancel_session_notifications i m).1 })
  unfolding cancel_session_notifications
  cancels-IsBounded c f m i h = elim (Option-cases (find i m.session_tasks)) [
    | inl e ↦ rw (cancel_session_notifications, e) h
    | inr (l, e) ↦
        rw (cancel_session_notifications, e)
          (record {
            config = h.config;
            room = h.room;
            fresh = h.fresh;
            within = h.within;
            taken = h.taken;
            no_failures = h.no_failures;
          })
  ]

  cleans-IsBounded :
      (c : NotificationConfig) (f : List (NotificationTask L)) (m : QodNotificationManager L)
      (now : ℕ)
      → IsBounded c (record { in_flight = f; manager = m })
      → IsBounded c (record { in_flight = f; manager = cleanup_old_stats now m })
  unfolding cleanup_old_stats
  cleans-IsBounded c f m now h = record {
    config = h.config;
    room = h.room;
    fresh = h.fresh;
    within = h.within;
    taken = h.taken;
    no_failures =
        All-keep (λ e. IsCounted e.1) (λ e. not (ltb (e.1.last_update + 86400) now))
          m.session_stats.entries h.no_failures;
  }

  stops-IsBounded :
      (c : NotificationConfig) (f : List (NotificationTask L)) (m : QodNotificationManager L)
      → IsBounded c (record { in_flight = f; manager = m })
      → IsBounded c (record { in_flight = f; manager = stop m })
  unfolding stop
  stops-IsBounded c f m h = record {
    config = h.config;
    room = omega arith;
    fresh = tt;
    within = h.within;
    taken = h.taken;
    no_failures = h.no_failures;
  }

  -- Whether the task is sent again.
  abbrev again : ℕ × String → NotificationTask L → QodNotificationManager L → Bool
  again answer t m = not (is_success answer.0) && ltb t.retry_count m.config.max_retry_attempts

  finishes-IsBounded :
      (c : NotificationConfig) (f g : List (NotificationTask L)) (t : NotificationTask L)
      (m : QodNotificationManager L) (answer : ℕ × String) (jitter : ℕ → ℕ) (now : ℕ)
      → IsBounded c (record { in_flight = f ++ t ∷ g; manager = m })
      → IsBounded c (record { in_flight = f ++ g; manager = finish_task answer jitter now t m })
  unfolding finish_task
  finishes-IsBounded c f g t m answer jitter now h =
      let limits : m.config.max_retry_attempts ≡ c.max_retry_attempts =
        ap (λ x. x.max_retry_attempts) h.config in
      let (mine, others) = All-split (IsWithin c.max_retry_attempts) f g t h.taken in
      elim (Bool-cases (again answer t m)) [
        | inl e ↦
            rw (finish_task, e)
              (record {
                config = h.config;
                room = h.room;
                fresh = h.fresh;
                within =
                    push-within c.max_retry_attempts (retried jitter now t m) m.retry_queue
                      (ground (arith, e, limits)) h.within;
                taken = others;
                no_failures = h.no_failures;
              })
        | inr e ↦
            let done =
              ended-frame t.session_id (is_success answer.0) t.callback (final_result answer now)
                now m in
            rw (finish_task, e)
              (record {
                config = done.0 ∙ h.config;
                room = subst (λ l. length l ≤ c.max_queue_size) (sym done.1) h.room;
                fresh = subst (All (IsWithin 0)) (sym done.1) h.fresh;
                within = subst (All (IsWithin c.max_retry_attempts)) (sym done.2) h.within;
                taken = others;
                no_failures =
                    ended-AreCounted t.session_id (is_success answer.0) t.callback
                      (final_result answer now) now m h.no_failures;
              })
      ]

  abbrev AllowsTaken :
      NotificationConfig
      → List (NotificationTask L)
      → Option (NotificationTask L) × QodNotificationManager L
      → Type 0
  AllowsTaken c f (none, n) = Unit
  AllowsTaken c f (some t, n) = IsBounded c (record { in_flight = t ∷ f; manager = n })

  take_queued-allowed :
      (c : NotificationConfig) (f : List (NotificationTask L)) (m : QodNotificationManager L)
      → IsBounded c (record { in_flight = f; manager = m })
      → AllowsTaken c f (take_queued m)
  unfolding take_queued
  take_queued-allowed c f m h = elim (List-cases m.task_queue) [
    | inl e ↦
        let none_taken : take_queued m ≡ (none, m) = simp (take_queued, e) in
        subst (AllowsTaken c f) (sym none_taken) tt
    | inr (t, rest, e) ↦
        let first : take_queued m ≡ (some t, record m { task_queue = rest }) =
          simp (take_queued, e) in
        let (p, others) = subst (All (IsWithin 0)) e h.fresh in
        subst (AllowsTaken c f) (sym first) (record {
          config = h.config;
          room = ground (arith, ap length e, h.room);
          fresh = others;
          within = h.within;
          taken = (ground (arith, p), h.taken);
          no_failures = h.no_failures;
        })
  ]

  take-allowed :
      (c : NotificationConfig) (f : List (NotificationTask L)) (m : QodNotificationManager L)
      (now : ℕ)
      → IsBounded c (record { in_flight = f; manager = m })
      → AllowsTaken c f (take_task now m)
  unfolding take_task
  take-allowed c f m now h = elim (List-cases m.retry_queue) [
    | inl e ↦
        let queued : take_task now m ≡ take_queued m = simp (take_task, e) in
        subst (AllowsTaken c f) (sym queued) (take_queued-allowed c f m h)
    | inr (t, rest, e) ↦ elim (Bool-cases (leb t.next_retry_time now)) [
      | inl d ↦
          let first : take_task now m ≡ (some t, record m { retry_queue = rest }) =
            simp (take_task, e, d) in
          let (p, others) = subst (All (IsWithin c.max_retry_attempts)) e h.within in
          subst (AllowsTaken c f) (sym first) (record {
            config = h.config;
            room = h.room;
            fresh = h.fresh;
            within = others;
            taken = (p, h.taken);
            no_failures = h.no_failures;
          })
      | inr d ↦
          let queued : take_task now m ≡ take_queued m = simp (take_task, e, d) in
          subst (AllowsTaken c f) (sym queued) (take_queued-allowed c f m h)
    ]
  ]

  takes-IsBounded :
      (c : NotificationConfig) (f : List (NotificationTask L)) (m n : QodNotificationManager L)
      (t : NotificationTask L) (now : ℕ)
      → take_task now m ≡ (some t, n)
      → IsBounded c (record { in_flight = f; manager = m })
      → IsBounded c (record { in_flight = t ∷ f; manager = n })
  takes-IsBounded c f m n t now e h = subst (AllowsTaken c f) e (take-allowed c f m now h)

  Step-IsBounded :
      (c : NotificationConfig) (s t : System L) → Step s t → IsBounded c s → IsBounded c t
  Step-IsBounded c _ _ (queues f m t now z) h = queues-IsBounded c f m t now z h
  Step-IsBounded c _ _ (cancels f m i) h = cancels-IsBounded c f m i h
  Step-IsBounded c _ _ (cleans f m now) h = cleans-IsBounded c f m now h
  Step-IsBounded c _ _ (stops f m) h = stops-IsBounded c f m h
  Step-IsBounded c _ _ (takes f m n t now e) h = takes-IsBounded c f m n t now e h
  Step-IsBounded c _ _ (finishes f g t m answer jitter now) h =
      finishes-IsBounded c f g t m answer jitter now h

  -- In every state that calls and steps of worker threads reach in any order from a new manager, the
  -- queue of new tasks is not longer than the configured size, a task in it was not retried, a task
  -- that waits for a retry or is being sent was retried at most the configured number of times, and
  -- the statistics of every session count no failure and as many sent notifications as successes.
  pub reachable-IsBounded : (c : NotificationConfig) (s : System L) → Reach c s → IsBounded c s
  reachable-IsBounded c _ starts = init-IsBounded c
  reachable-IsBounded c t (steps {s} r x) = Step-IsBounded c s t x (reachable-IsBounded c s r)
