-- ===== src/Wm/MessageQueue/Fifo.antt =====
-- The message ring and a queue of bounded length.
use northos.Prelude.{
  ℕ, zero, suc, ◌+◌, ◌-◌, ◌%◌, ◌≤◌, ◌<◌, ◌≡◌, refl, sym, inl, inr, ◌∙◌, ap, Bool, true, false,
  Bool-cases, List, [], ◌∷◌, ◌++◌, length, get_or, set, length-set, get_or-set_self, get_or-set_ne,
  leb, ◌==◌, if◌then◌else◌, Option, none, some, arith,
}
use northos.Wm.MessageQueue.{
  MsgBuf, msg_buf_size, init_message_queue, dispatch_message, get_message,
}

module _ {A : Type 0} where
  -- The n messages from slot i on, going round.
  pub pending_from : List A → A → ℕ → ℕ → List A
  pending_from slots other i zero = []
  pending_from slots other i (suc n) =
      get_or slots i other ∷ pending_from slots other ((i + 1) % msg_buf_size) n

  pub pending : MsgBuf A → A → List A
  pending b other = pending_from b.slots other b.front b.cnt

  pub record IsValid (b : MsgBuf A) : Type 0 where
    pub sized : length b.slots ≡ msg_buf_size
    pub front_in : b.front < msg_buf_size
    pub within : b.cnt ≤ msg_buf_size
    pub rear_at : b.rear ≡ (b.front + b.cnt) % msg_buf_size

  length-pending_from :
      (slots : List A) (other : A) (i n : ℕ) → length (pending_from slots other i n) ≡ n
  unfolding pending_from
  length-pending_from slots other i zero = refl
  length-pending_from slots other i (suc n) =
      ap suc (length-pending_from slots other ((i + 1) % msg_buf_size) n)

  -- The abstract queue: a message that finds it full is dropped.
  pub enqueue : List A → A → List A × Bool
  enqueue q x = if leb msg_buf_size (length q) then (q, false) else (q ++ x ∷ [], true)

  pub dequeue : List A → List A × Option A
  dequeue [] = ([], none)
  dequeue (x ∷ q) = (q, some x)

  set-pending_from :
      (slots : List A) (other x : A) (n i at : ℕ)
      → length slots ≡ msg_buf_size
      → i < msg_buf_size
      → n < msg_buf_size
      → at ≡ (i + n) % msg_buf_size
      → pending_from (set slots at x) other i (suc n) ≡ pending_from slots other i n ++ x ∷ []
  unfolding pending_from
  set-pending_from slots other x zero i at l h k e =
      let here : at ≡ i = omega arith in rw (here, get_or-set_self slots i x other (omega arith))
  set-pending_from slots other x (suc n) i at l h k e =
      rw (get_or-set_ne slots at i x other (omega arith)) (
        ap (λ q. get_or slots i other ∷ q)
          (set-pending_from slots other x n ((i + 1) % msg_buf_size) at l (omega arith)
            (omega arith) (omega arith)))

  -- `dispatchMessage` keeps the ring valid.
  pub dispatch_message-IsValid :
      (b : MsgBuf A) (msg : A) → IsValid b → IsValid (dispatch_message b msg).0
  unfolding dispatch_message
  dispatch_message-IsValid b msg v = ground (arith, length-set b.slots b.rear msg)

  -- `getMessage` keeps the ring valid.
  pub get_message-IsValid : (b : MsgBuf A) (other : A) → IsValid b → IsValid (get_message b other).0
  unfolding get_message
  get_message-IsValid b other v = ground arith

  -- On a valid ring `dispatchMessage` is the queue's `enqueue`: in what it returns, and in the
  -- messages that are pending afterwards.
  pub dispatch_message-enqueue :
      (b : MsgBuf A) (msg other : A)
      → IsValid b
      → let (b', sent) = dispatch_message b msg in
        (pending b' other, sent) ≡ enqueue (pending b other) msg
  unfolding dispatch_message enqueue pending
  dispatch_message-enqueue b msg other v =
      let n = length-pending_from b.slots other b.front b.cnt in
      elim (Bool-cases (leb msg_buf_size b.cnt)) [
        | inl full ↦ rw (n, full)
        | inr room ↦
            let one_more : b.cnt + 1 ≡ suc b.cnt = omega arith in
            rw (n, room, one_more)
              (ap (λ q. (q, true))
                (set-pending_from b.slots other msg b.cnt b.front b.rear v.sized v.front_in
                  (ground arith) v.rear_at))
      ]

  -- On a valid ring `getMessage` is the queue's `dequeue`: in the message that it returns, and in
  -- those that are pending afterwards.
  pub get_message-dequeue :
      (b : MsgBuf A) (other : A)
      → IsValid b
      → let (b', msg) = get_message b other in (pending b' other, msg) ≡ dequeue (pending b other)
  unfolding get_message dequeue pending pending_from
  get_message-dequeue b other v = elim (Bool-cases (b.cnt == 0)) [
    | inl bare ↦
        let e : b.cnt ≡ 0 = ground arith in
        rw bare (ap (λ q. (q, none)) (gone e) ∙ ap dequeue (sym (gone e)))
    | inr more ↦
        let e : b.cnt ≡ suc (b.cnt - 1) = ground arith in
        rw more (ap (λ n. dequeue (pending_from b.slots other b.front n)) (sym e))
  ]
    where
      gone : b.cnt ≡ 0 → pending_from b.slots other b.front b.cnt ≡ []
      gone e = ap (pending_from b.slots other b.front) e

  -- `initMessageQueue` leaves a valid, empty queue.
  pub init_message_queue-IsValid :
      (b : MsgBuf A) (other : A)
      → length b.slots ≡ msg_buf_size
      → IsValid (init_message_queue b) × (pending (init_message_queue b) other ≡ [])
  unfolding init_message_queue pending pending_from
  init_message_queue-IsValid b other h = (
    record { sized = h; front_in = omega arith; within = omega arith; rear_at = omega arith },
    refl,
  )
