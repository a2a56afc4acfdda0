-- ===== src/AsyncSupport/Methods.antt =====
-- guest/componentize_py_async_support/__init__.py, `class _Loop`: every method that asyncio may
-- call.
pub mod Portable
mod Examples
use pycage.Prelude.{Bool, true, false, not, Option, none}
use pycage.Result.{Result, ok, err}
use pycage.Exec.{Exec, pure, lift}
use pycage.Asyncio.{
  Scheduling, run_forever, shutdown_default_executor, timer_handle_cancelled, call_later, call_at,
  time, call_soon_threadsafe, run_in_executor, set_default_executor, Connection, getaddrinfo,
  getnameinfo, create_connection, create_server, sendfile, start_tls, create_unix_connection,
  create_unix_server, connect_accepted_socket, create_datagram_endpoint, connect_read_pipe,
  connect_write_pipe, subprocess_shell, subprocess_exec, Descriptor, add_reader, remove_reader,
  add_writer, remove_writer, sock_recv, sock_recv_into, sock_recvfrom, sock_recvfrom_into,
  sock_sendall, sock_sendto, sock_connect, sock_accept, sock_sendfile, Handling, add_signal_handler,
  remove_signal_handler, set_task_factory, get_task_factory, get_exception_handler,
  set_exception_handler, default_exception_handler, set_debug, LoopMethod, get_debug, is_running,
  is_closed, stop, close, shutdown_asyncgens, create_future, call_exception_handler, call_soon,
  create_task, scheduling, connection, descriptor, handling, Refusal, not_implemented,
  assertion_error, type_error, Answer, nothing, future, boolean, handle, coroutine, refused,
  refused_later,
}
use pycage.AsyncSupport.{FutureState, ExceptionId}
use pycage.AsyncSupport

-- `_timer_handle_cancelled` is inherited from `AbstractEventLoop`, which refuses too.
unfoldable pub scheduling_answer : Scheduling → Result Answer Refusal
scheduling_answer run_forever = refused
scheduling_answer shutdown_default_executor = refused_later
scheduling_answer timer_handle_cancelled = refused
scheduling_answer call_later = refused
scheduling_answer call_at = refused
scheduling_answer time = refused
scheduling_answer call_soon_threadsafe = refused
scheduling_answer run_in_executor = refused
scheduling_answer set_default_executor = refused

unfoldable pub connection_answer : Connection → Result Answer Refusal
connection_answer getaddrinfo = refused_later
connection_answer getnameinfo = refused_later
connection_answer create_connection = refused_later
connection_answer create_server = refused_later
connection_answer sendfile = refused_later
connection_answer start_tls = refused_later
connection_answer create_unix_connection = refused_later
connection_answer create_unix_server = refused_later
connection_answer connect_accepted_socket = refused_later
connection_answer create_datagram_endpoint = refused_later
connection_answer connect_read_pipe = refused_later
connection_answer connect_write_pipe = refused_later
connection_answer subprocess_shell = refused_later
connection_answer subprocess_exec = refused_later

unfoldable pub descriptor_answer : Descriptor → Result Answer Refusal
descriptor_answer add_reader = refused
descriptor_answer remove_reader = refused
descriptor_answer add_writer = refused
descriptor_answer remove_writer = refused
descriptor_answer sock_recv = refused_later
descriptor_answer sock_recv_into = refused_later
descriptor_answer sock_recvfrom = refused_later
descriptor_answer sock_recvfrom_into = refused_later
descriptor_answer sock_sendall = refused_later
descriptor_answer sock_sendto = refused_later
descriptor_answer sock_connect = refused_later
descriptor_answer sock_accept = refused_later
descriptor_answer sock_sendfile = refused_later

unfoldable pub handling_answer : Handling → Result Answer Refusal
handling_answer add_signal_handler = refused
handling_answer remove_signal_handler = refused
handling_answer set_task_factory = refused
handling_answer get_task_factory = refused
handling_answer get_exception_handler = refused
handling_answer set_exception_handler = refused
handling_answer default_exception_handler = refused
handling_answer set_debug = refused

-- `_Loop`, beside the state of the call that the current context belongs to.
pub record Loop : Type 0 where
  pub running : Bool
  pub exception : Option ExceptionId
  pub tasks : FutureState

-- `_Loop()`, with the state of the context that uses it.
abbrev pub init : FutureState → Loop
init s = record { running = false; exception = none; tasks = s }

-- The setup of the module marks its loop as running.
abbrev pub set_up : FutureState → Loop
set_up s = record (init s) { running = true }

-- `_set_future_state`, in the context of a call.
abbrev pub set_future_state : FutureState → Loop → Loop
set_future_state s l = record l { tasks = s }

-- The methods for a loop that runs, so without `run_until_complete`, which raises
-- `NotImplementedError`. `call_soon` refuses a call that gives no context; asyncio's `Task` gives it
-- one. The contexts are those in which `_set_future_state` was called: of another one, `call_soon`
-- raises a `KeyError`.
unfoldable pub method : LoopMethod → Exec Loop Refusal Answer
unfolding scheduling_answer connection_answer descriptor_answer handling_answer
    AsyncSupport.call_soon
method get_debug l = (ok (boolean false), l)
method is_running l = (ok (boolean l.running), l)
method is_closed l = (ok (boolean (not l.running)), l)
method stop l = (ok nothing, record l { running = false })
method close l = (ok nothing, record l { running = false })
method shutdown_asyncgens l = (ok (coroutine (ok tt)), l)
method create_future l = (ok future, l)
method (call_exception_handler e) l = (ok nothing, record l { exception = e })
method (call_soon h true) l = (ok (handle h), record l { tasks = AsyncSupport.call_soon h l.tasks })
method (call_soon h false) l = (err assertion_error, l)
method (create_task h keywords) l =
    (ok future, record l { tasks = AsyncSupport.call_soon h l.tasks })
method (scheduling m) l = (scheduling_answer m, l)
method (connection m) l = (connection_answer m, l)
method (descriptor m) l = (descriptor_answer m, l)
method (handling m) l = (handling_answer m, l)
