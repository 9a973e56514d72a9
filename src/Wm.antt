-- ===== src/Wm.antt =====
-- kernel/window_manager.c: windows, their order on the screen, their message queues and the mouse.
pub mod MessageQueue
pub mod WindowList
pub mod MessageType
pub mod State
pub mod Handler
pub mod Screen
mod Tests
