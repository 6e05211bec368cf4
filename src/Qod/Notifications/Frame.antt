-- ===== src/Qod/Notifications/Frame.antt =====
-- What the statistics count, and what the queues keep while they are written.
use phine_af.Prelude.{
  ℕ, suc, String, Bool, ◌≡◌, refl, sym, ap, true, false, List, [], ◌∷◌, ◌++◌, arith, leb, length,
  All, subst, is_empty, Option-cases, Bool-cases, inl, inr,
}
use phine_af.Map.{Map, find, put}
use phine_af.All.{All-replace, All-value_at}
use phine_af.Qod.Notifications.Client.{EventLib}
use phine_af.Qod.Notifications.{
  QodNotificationManager, NotificationTask, NotificationDeliveryResult, SessionStats, track, count,
  update_stats, stats_at, queue_task,
}
use phine_af.Qod.Notifications.Worker.{call_back}

-- No failure is counted.
abbrev pub IsCounted : SessionStats → Type 0
IsCounted x = (x.failed ≡ 0) × (x.total_sent ≡ x.successful)

abbrev pub AreCounted : Map SessionStats → Type 0
AreCounted m = All (λ e. IsCounted e.1) m.entries

count-IsCounted : (b : Bool) (now : ℕ) (x : SessionStats) → IsCounted x → IsCounted (count b now x)
unfolding count
count-IsCounted true now x (f, t) = (f, ground (arith, f))
count-IsCounted false now x (f, t) = (f, ground (arith, f))

module _ {L : EventLib} where
  stats_at-IsCounted :
      (i : String) (m : QodNotificationManager L)
      → AreCounted m.session_stats
      → IsCounted (stats_at i m)
  unfolding find
  stats_at-IsCounted i m h = elim (Option-cases (find i m.session_stats)) [
    | inl e ↦ rw (stats_at, e) (refl, refl)
    | inr (x, e) ↦ rw (stats_at, e) (All-value_at IsCounted i x m.session_stats.entries h e)
  ]

  pub update_stats-AreCounted :
      (i : String) (b : Bool) (now : ℕ) (m : QodNotificationManager L)
      → AreCounted m.session_stats
      → AreCounted (update_stats i b now m).session_stats
  unfolding update_stats put
  update_stats-AreCounted i b now m h = elim (Bool-cases (is_empty i)) [
    | inl e ↦ rw (update_stats, e) h
    | inr e ↦
        rw (update_stats, e)
          (All-replace IsCounted i (count b now (stats_at i m)) m.session_stats.entries
            (count-IsCounted b now (stats_at i m) (stats_at-IsCounted i m h)) h)
  ]

  -- The statistics are apart from the queues.
  pub update_stats-frame :
      (i : String) (b : Bool) (now : ℕ) (m : QodNotificationManager L)
      → ((update_stats i b now m).config ≡ m.config)
        × ((update_stats i b now m).task_queue ≡ m.task_queue)
        × ((update_stats i b now m).retry_queue ≡ m.retry_queue)
  unfolding update_stats
  update_stats-frame i b now m = (ground arith, ground arith, ground arith)

  pub queued-frame :
      (t : NotificationTask L) (now : ℕ) (m : QodNotificationManager L)
      → leb m.config.max_queue_size (length m.task_queue) ≡ false
      → ((queue_task t now m).1.config ≡ m.config)
        × ((queue_task t now m).1.task_queue ≡ m.task_queue ++ t ∷ [])
        × ((queue_task t now m).1.retry_queue ≡ m.retry_queue)
  unfolding queue_task update_stats
  queued-frame t now m e = (ground (arith, e), ground (arith, e), ground (arith, e))

  pub length-snoc :
      (l : List (NotificationTask L)) (t : NotificationTask L)
      → length (l ++ t ∷ []) ≡ suc (length l)
  length-snoc [] t = refl
  length-snoc (u ∷ l) t = ap suc (length-snoc l t)

  track-stats :
      (t : NotificationTask L) (m : QodNotificationManager L)
      → (track t m).session_stats ≡ m.session_stats
  track-stats t m = elim (Bool-cases (is_empty t.session_id)) [
    | inl e ↦ rw (track, e) refl
    | inr e ↦ rw (track, e) refl
  ]

  pub queued-AreCounted :
      (t : NotificationTask L) (now : ℕ) (m : QodNotificationManager L)
      → AreCounted m.session_stats
      → AreCounted (queue_task t now m).1.session_stats
  unfolding queue_task
  queued-AreCounted t now m h =
      elim (Bool-cases (leb m.config.max_queue_size (length m.task_queue))) [
        | inl e ↦ rw (queue_task, e) h
        | inr e ↦
            let m' : QodNotificationManager L = record m { task_queue = m.task_queue ++ t ∷ [] } in
            rw (queue_task, e)
              (update_stats-AreCounted t.session_id false now (track t m')
                (subst AreCounted (sym (track-stats t m')) h))
      ]

  -- The end of a task leaves the queues.
  pub ended-frame :
      (i : String) (b callback : Bool) (r : NotificationDeliveryResult) (now : ℕ)
      (m : QodNotificationManager L)
      → ((update_stats i b now (call_back callback r m)).config ≡ m.config)
        × ((update_stats i b now (call_back callback r m)).task_queue ≡ m.task_queue)
        × ((update_stats i b now (call_back callback r m)).retry_queue ≡ m.retry_queue)
  ended-frame i b true r now m = update_stats-frame i b now (call_back true r m)
  ended-frame i b false r now m = update_stats-frame i b now m

  pub ended-AreCounted :
      (i : String) (b callback : Bool) (r : NotificationDeliveryResult) (now : ℕ)
      (m : QodNotificationManager L)
      → AreCounted m.session_stats
      → AreCounted (update_stats i b now (call_back callback r m)).session_stats
  ended-AreCounted i b true r now m h = update_stats-AreCounted i b now (call_back true r m) h
  ended-AreCounted i b false r now m h = update_stats-AreCounted i b now m h
