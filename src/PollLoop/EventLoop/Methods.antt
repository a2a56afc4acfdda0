-- ===== src/PollLoop/EventLoop/Methods.antt =====
-- guest/poll_loop.py, `class PollLoop`: every method that asyncio may call.
use pycage.Prelude.{true, false}
use pycage.Result.{Result, ok, err}
use pycage.Exec.{Exec}
use pycage.Asyncio.{
  Scheduling, run_forever, shutdown_default_executor, timer_handle_cancelled, call_later, call_at,
  time, call_soon_threadsafe, run_in_executor, set_default_executor, Connection, getaddrinfo,
  getnameinfo, create_connection, create_server, sendfile, start_tls, create_unix_connection,
  create_unix_server, connect_accepted_socket, create_datagram_endpoint, connect_read_pipe,
  connect_write_pipe, subprocess_shell, subprocess_exec, Descriptor, add_reader, remove_reader,
  add_writer, remove_writer, sock_recv, sock_recv_into, sock_recvfrom, sock_recvfrom_into,
  sock_sendall, sock_sendto, sock_connect, sock_accept, sock_sendfile, Handling, add_signal_handler,
  remove_signal_handler, set_task_factory, get_task_factory, get_exception_handler,
  set_exception_handler, default_exception_handler, set_debug, LoopMethod, get_debug, is_running,
  is_closed, stop, close, shutdown_asyncgens, create_future, call_exception_handler, call_soon,
  create_task, scheduling, connection, descriptor, handling, Refusal, type_error, Answer, nothing,
  future, boolean, handle, refused, refused_later,
}
use pycage.PollLoop.EventLoop.{PollLoop}
use pycage.PollLoop.EventLoop

unfoldable pub scheduling_answer : Scheduling → Result Answer Refusal
scheduling_answer run_forever = refused
scheduling_answer shutdown_default_executor = refused_later
scheduling_answer timer_handle_cancelled = refused
scheduling_answer call_later = refused
scheduling_answer call_at = refused
scheduling_answer time = refused
scheduling_answer call_soon_threadsafe = refused
scheduling_answer run_in_executor = refused
scheduling_answer set_default_executor = refused

unfoldable pub connection_answer : Connection → Result Answer Refusal
connection_answer getaddrinfo = refused_later
connection_answer getnameinfo = refused_later
connection_answer create_connection = refused_later
connection_answer create_server = refused_later
connection_answer sendfile = refused_later
connection_answer start_tls = refused_later
connection_answer create_unix_connection = refused_later
connection_answer create_unix_server = refused_later
connection_answer connect_accepted_socket = refused_later
connection_answer create_datagram_endpoint = refused_later
connection_answer connect_read_pipe = refused_later
connection_answer connect_write_pipe = refused_later
connection_answer subprocess_shell = refused_later
connection_answer subprocess_exec = refused_later

unfoldable pub descriptor_answer : Descriptor → Result Answer Refusal
descriptor_answer add_reader = refused
descriptor_answer remove_reader = refused
descriptor_answer add_writer = refused
descriptor_answer remove_writer = refused
descriptor_answer sock_recv = refused_later
descriptor_answer sock_recv_into = refused_later
descriptor_answer sock_recvfrom = refused_later
descriptor_answer sock_recvfrom_into = refused_later
descriptor_answer sock_sendall = refused_later
descriptor_answer sock_sendto = refused_later
descriptor_answer sock_connect = refused_later
descriptor_answer sock_accept = refused_later
descriptor_answer sock_sendfile = refused_later

unfoldable pub handling_answer : Handling → Result Answer Refusal
handling_answer add_signal_handler = refused
handling_answer remove_signal_handler = refused
handling_answer set_task_factory = refused
handling_answer get_task_factory = refused
handling_answer get_exception_handler = refused
handling_answer set_exception_handler = refused
handling_answer default_exception_handler = refused
handling_answer set_debug = refused

-- `create_task` takes a coroutine only; asyncio's `Task` hands its first step to `call_soon`.
unfoldable pub method : LoopMethod → Exec PollLoop Refusal Answer
unfolding scheduling_answer connection_answer descriptor_answer handling_answer EventLoop.call_soon
    EventLoop.stop EventLoop.call_exception_handler EventLoop.is_closed
method get_debug l = (ok (boolean false), l)
method is_running l = (ok (boolean l.running), l)
method is_closed l = (ok (boolean (EventLoop.is_closed l)), l)
method stop l = (ok nothing, EventLoop.stop l)
method close l = (ok nothing, EventLoop.stop l)
method shutdown_asyncgens l = (ok nothing, l)
method create_future l = (ok future, l)
method (call_exception_handler e) l = (ok nothing, EventLoop.call_exception_handler e l)
method (call_soon h context) l = (ok (handle h), EventLoop.call_soon h l)
method (create_task h false) l = (ok future, EventLoop.call_soon h l)
method (create_task h true) l = (err type_error, l)
method (scheduling m) l = (scheduling_answer m, l)
method (connection m) l = (connection_answer m, l)
method (descriptor m) l = (descriptor_answer m, l)
method (handling m) l = (handling_answer m, l)
