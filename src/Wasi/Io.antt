-- ===== src/Wasi/Io.antt =====
-- guest/wit_world/imports/streams.py: the errors of input and output streams.
use pycage.Prelude.{ℕ}

-- A handle of the host's `error` resource, which the guest only passes on.
abbrev pub ErrorHandle : Type 0
ErrorHandle = ℕ

pub data StreamError : Type 0 where
  last_operation_failed : ErrorHandle → StreamError
  closed : StreamError
