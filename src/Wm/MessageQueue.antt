-- ===== src/Wm/MessageQueue.antt =====
-- `msg_buf` of include/window_manager.h with `initMessageQueue`, `dispatchMessage` and `getMessage`
-- of kernel/window_manager.c: a ring of MSG_BUF_SIZE messages. A result 0 is `true`.
pub mod Fifo
use northos.Prelude.{
  ℕ, ◌+◌, ◌-◌, ◌%◌, Bool, true, false, List, get_or, set, ltb, leb, ◌==◌, if◌then◌else◌, Option,
  none, some,
}

-- MSG_BUF_SIZE
abbrev pub msg_buf_size : ℕ
msg_buf_size = 50

pub record MsgBuf (A : Type 0) : Type 0 where
  pub slots : List A
  pub front : ℕ
  pub rear : ℕ
  pub cnt : ℕ

module _ {A : Type 0} where
  unfoldable pub init_message_queue : MsgBuf A → MsgBuf A
  init_message_queue b = record b { front = 0; rear = 0; cnt = 0 }

  unfoldable pub dispatch_message : MsgBuf A → A → MsgBuf A × Bool
  dispatch_message b msg = if leb msg_buf_size b.cnt then (b, false) else (
    record b {
      cnt = b.cnt + 1;
      slots = set b.slots b.rear msg;
      rear = if leb msg_buf_size (b.rear + 1) then 0 else b.rear + 1;
    },
    true,
  )

  -- `other` is what stands in a slot out of range: it is never read.
  unfoldable pub get_message : MsgBuf A → A → MsgBuf A × Option A
  get_message b other = if b.cnt == 0 then (b, none) else (
    record b { front = (b.front + 1) % msg_buf_size; cnt = b.cnt - 1 },
    some (get_or b.slots b.front other),
  )
