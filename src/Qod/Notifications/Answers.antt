-- ===== src/Qod/Notifications/Answers.antt =====
-- What a delivery answers, and what it leaves in the queue.
use phine_af.Prelude.{
  ℕ, ◌+◌, String, Bool, ◌≡◌, refl, ap, sym, subst, ◌∙◌, true, false, ◌&&◌, Option, arith, leb,
  length, Bool-cases, inl, inr, if◌then◌else◌,
}
use phine_af.Outcome.{Outcome, returns, throws, undefined}
use phine_af.Qod.Notifications.Client.{EventLib, HttpClient, validate_sink, validate_credential}
use phine_af.Qod.Notifications.{
  QodNotificationManager, NotificationTask, NotificationDeliveryResult, queue_notification,
  queue_task, get_pending_count, new_task,
}
use phine_af.Qod.Notifications.Frame.{queued-frame, length-snoc}
use phine_af.Qod.Notifications.Worker.{deliver, deliver_to, or_empty, accepted, failure}

-- One if the flag is set.
abbrev pub one_if : Bool → ℕ
one_if true = 1
one_if false = 0

-- A delivery that reports success.
abbrev pub is_accepted : Outcome NotificationDeliveryResult → Bool
is_accepted (returns r) = r.success
is_accepted _ = false

flag : (b : Bool) (now : ℕ) → b ≡ (if b then accepted now else failure 503 "Queue full" now).success
flag true now = refl
flag false now = refl

module _ {L : EventLib} where
  queue_task-pending :
      (t : NotificationTask L) (now : ℕ) (m : QodNotificationManager L)
      → get_pending_count (queue_task t now m).1
        ≡ get_pending_count m + one_if (queue_task t now m).0
  unfolding queue_task
  queue_task-pending t now m =
      elim (Bool-cases (leb m.config.max_queue_size (length m.task_queue))) [
        | inl e ↦ rw (queue_task, e) (ground arith)
        | inr e ↦
            let k = queued-frame t now m e in
            ground (arith, e, ap length k.1, ap length k.2, length-snoc m.task_queue t)
      ]

  abbrev AddsAccepted :
      QodNotificationManager L
      → Bool
      → Outcome NotificationDeliveryResult × QodNotificationManager L
      → Type 0
  AddsAccepted m b r = get_pending_count r.1 ≡ get_pending_count m + one_if (b && is_accepted r.0)

  deliver_to-pending :
      (event : L.Event) (sink : String) (credential : Option L.Credential) (i : Outcome String)
      (now : ℕ) (m : QodNotificationManager L)
      → get_pending_count (deliver_to event sink credential i now m).1
        ≡ get_pending_count m + one_if (is_accepted (deliver_to event sink credential i now m).0)
  unfolding deliver_to queue_notification
  deliver_to-pending event sink credential (throws e) now m = ground arith
  deliver_to-pending event sink credential undefined now m = ground arith
  deliver_to-pending event sink credential (returns i) now m =
      let t = new_task event sink credential i false now in
      queue_task-pending t now m
      ∙ ap (λ b. get_pending_count m + one_if b) (flag (queue_task t now m).0 now)

  -- A delivery puts exactly one task into the queues if deliveries are asynchronous and it reports
  -- success, and none otherwise: not for a sink or a credential that is refused, for event data whose
  -- conversion throws, for a full queue, or for a synchronous delivery.
  pub deliver-pending :
      (client : HttpClient L) (event : L.Event) (sink : String) (credential : Option L.Credential)
      (now : ℕ) (m : QodNotificationManager L)
      → get_pending_count (deliver client event sink credential now m).1
        ≡ get_pending_count m
          + one_if (
              m.config.enable_async_delivery
              && is_accepted (deliver client event sink credential now m).0)
  unfolding deliver
  deliver-pending client event sink credential now m = elim (Bool-cases (validate_sink sink)) [
    | inr e ↦ rw (deliver, e) (ground arith)
    | inl e ↦ elim (Bool-cases (validate_credential L credential now)) [
      | inr f ↦ rw (deliver, e, f) (ground arith)
      | inl f ↦ elim (Bool-cases m.config.enable_async_delivery) [
        | inl g ↦
            let i = or_empty (L.session_of event) in
            let same : deliver client event sink credential now m
                ≡ deliver_to event sink credential i now m =
              simp (deliver, e, f, g) in
            subst (AddsAccepted m m.config.enable_async_delivery) (sym same) (
              subst (λ b. AddsAccepted m b (deliver_to event sink credential i now m)) (sym g)
                (deliver_to-pending event sink credential i now m))
        | inr g ↦ rw (deliver, e, f, g) (ground arith)
      ]
    ]
  ]
