-- ===== src/PollLoop.antt =====
-- guest/poll_loop.py
pub mod Sink
pub mod Request
pub mod Source
pub mod EventLoop
