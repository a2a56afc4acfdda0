-- ===== src/App.antt =====
-- guest/app.py: the interpreter that keeps its state between cells.
pub mod Json
pub mod Process
pub mod Loader
pub mod Display
pub mod Interpreter
pub mod Session
pub mod Startup
