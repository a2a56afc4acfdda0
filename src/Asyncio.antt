-- ===== src/Asyncio.antt =====
-- What asyncio asks of an event loop, `asyncio.AbstractEventLoop`: the two loops of the guest,
-- guest/poll_loop.py and guest/componentize_py_async_support/__init__.py, each give their own
-- answers. `run_until_complete` is left to the loops themselves.
use pycage.Prelude.{ℕ, Bool, Option, List, [], ◌∷◌}
use pycage.Result.{Result, ok, err}
use pycage.Exec.{Exec, pure, lift, ◌>>=◌}

pub data Scheduling : Type 0 where
  run_forever shutdown_default_executor timer_handle_cancelled call_later call_at time : Scheduling
  call_soon_threadsafe run_in_executor set_default_executor : Scheduling

pub data Connection : Type 0 where
  getaddrinfo getnameinfo create_connection create_server sendfile start_tls : Connection
  create_unix_connection create_unix_server connect_accepted_socket : Connection
  create_datagram_endpoint connect_read_pipe connect_write_pipe : Connection
  subprocess_shell subprocess_exec : Connection

pub data Descriptor : Type 0 where
  add_reader remove_reader add_writer remove_writer : Descriptor
  sock_recv sock_recv_into sock_recvfrom sock_recvfrom_into sock_sendall sock_sendto : Descriptor
  sock_connect sock_accept sock_sendfile : Descriptor

pub data Handling : Type 0 where
  add_signal_handler remove_signal_handler set_task_factory get_task_factory : Handling
  get_exception_handler set_exception_handler default_exception_handler set_debug : Handling

-- A method, with what matters of its arguments: the handle that is made, whether a context is
-- given, whether `create_task` gets a name or a context, and the exception of a context.
pub data LoopMethod : Type 0 where
  get_debug is_running is_closed stop close shutdown_asyncgens create_future : LoopMethod
  call_exception_handler : Option ℕ → LoopMethod
  call_soon create_task : ℕ → Bool → LoopMethod
  scheduling : Scheduling → LoopMethod
  connection : Connection → LoopMethod
  descriptor : Descriptor → LoopMethod
  handling : Handling → LoopMethod

pub data Refusal : Type 0 where
  not_implemented assertion_error type_error : Refusal

-- What a call returns: a coroutine comes to its result when it is awaited.
pub data Answer : Type 0 where
  nothing future : Answer
  boolean : Bool → Answer
  handle : ℕ → Answer
  coroutine : Result (Unit {0}) Refusal → Answer

-- A call of a `def`, and of an `async def`, whose body is `raise NotImplementedError`.
abbrev pub refused : Result Answer Refusal
refused = err not_implemented

abbrev pub refused_later : Result Answer Refusal
refused_later = ok (coroutine (err not_implemented))

-- `await`: only a coroutine and a future can be awaited.
abbrev pub awaited : Answer → Result Answer Refusal
awaited (coroutine (ok _)) = ok nothing
awaited (coroutine (err e)) = err e
awaited future = ok nothing
awaited _ = err type_error

-- `loop.m(…)` and `await loop.m(…)` in a program.
pub data Use : Type 0 where
  calls awaits : LoopMethod → Use

module _ {S : Type 0} (method : LoopMethod → Exec S Refusal Answer) where
  abbrev pub one_use : Use → Exec S Refusal Answer
  one_use (calls m) = method m
  one_use (awaits m) = method m >>= λ a. lift (awaited a)

  -- The uses in their order, up to the first that raises.
  abbrev pub script : List Use → Exec S Refusal (List Answer)
  script [] = pure []
  script (u ∷ us) = one_use u >>= λ a. script us >>= λ rest. pure (a ∷ rest)
