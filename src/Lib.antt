-- ===== src/Lib.antt =====
-- The guest of pycage: a Python interpreter that runs as a WebAssembly component and keeps its
-- state between cells.
--
-- The parts, and how they meet. `guest/app.py` exports the interpreter: it runs a cell,
-- installs modules, runs pip and resets. Before each cell it installs the adapter of
-- `guest/pycage_http.py`, an HTTP client over the host's `wasi:http`.
-- `guest/componentize_py_async_support` serves exports that are coroutines: the host calls
-- `first_poll` and then `callback`, and tasks wait for subtasks, streams and futures.
-- `guest/poll_loop.py` is an event loop over `wasi:io/poll` with a reader and a writer of HTTP
-- bodies.
--
-- Which file models which part:
--   Prelude, Exec, Loop   shared: native numbers and lists, Python statements, `while True` on fuel
--   Result                guest/componentize_py_types.py
--   Wasi                  the data types of guest/wit_world/imports/types.py and streams.py
--   Asyncio               what asyncio asks of an event loop; both loops answer it, in their Methods
--   PollLoop              guest/poll_loop.py: Sink (`Sink`), Source (`Stream`), Request (`send`),
--                         EventLoop (`PollLoop`)
--   AsyncSupport          guest/componentize_py_async_support/__init__.py: the loop over the tasks
--                         of a call, Wrappers (`_return_result`, `_wrap_spawned`), and Calls
--                         (several calls in flight over one `_loop`)
--   Streams, Futures      guest/componentize_py_async_support/streams.py and futures.py
--   Http                  guest/pycage_http.py: Host (the data, and the host's calls), Text
--                         (`Response.text`), Adapter (requests)
--   App                   guest/app.py: Json (the values of `json`), Process (the state and what
--                         CPython does), Loader (`_WheelLoader`), Display (`_execute`, `_display`),
--                         Interpreter (`CodeInterpreter`), Session (its methods, one after the
--                         other), Startup (what the import of the module sets)
--   Agent                 examples/e2b-python/agent.py: a client that drives a local server
-- An object with fields is a record, with the source's names; a method is a function of the
-- record, in the source's order of statements. Statements that may raise are in `Exec`: what
-- was written before a raise stays written. A module below a part that is named for a property
-- has the proof of it. A child module named Examples has the tests and the concrete runs.
--
-- Parameters: the host and `componentize_py_runtime`, `asyncio`, CPython (`ast`, `exec`,
-- `eval`, `json`), pip, the file system and E2B's SDK are records of functions over their own state. What
-- a theorem relies on is a record of laws, which states documented behaviour. Each is filled by
-- a concrete host among the examples.
--
-- Bounds: `while True` runs on fuel, and each theorem on such a loop says how much is enough:
-- for a writer or a reader a multiple of the bytes that are left, for a scheduler the steps
-- that its tasks have left, for a call of an export the awaits that its coroutines have left.
-- The chunks of a payload are cut on fuel, the payload's own length.
-- Numbers of handles and bytes are natural numbers: Python's do not wrap.
--
-- Not modelled: the stubs of `guest/wit_world`, which the host replaces, and the Go host,
-- another program. A user program that does not end is outside the model: `exec` and `eval` return
-- or raise. A read or a write of a stream or a future that blocks suspends its coroutine for good,
-- since `callback` takes no event of it: the model has the state at the `await`. Nor is the
-- cancellation of a task while it is suspended modelled.
pub mod Prelude
pub mod Result
pub mod Exec
pub mod Loop
pub mod Asyncio
pub mod Wasi
pub mod PollLoop
pub mod AsyncSupport
pub mod Streams
pub mod Futures
pub mod Http
pub mod App
pub mod Agent
