-- ===== src/App/Session.antt =====
-- guest/app.py: a process serves requests one after the other.
pub mod Registry
mod Examples
use pycage.Prelude.{String, List, [], ◌∷◌}
use pycage.App.Process.{Process, Python, Run}
use pycage.App.Interpreter.{run_code, install_modules, pip_install, reset}

-- The methods of `CodeInterpreter`, with their arguments.
pub data Request : Type 0 where
  runs installs pips : String → Request
  resets : Request

module _ {V W X E O : Type 0} (python : Python V W X E O) where
  unfoldable pub serve : Request → Run V W X String
  serve (runs code) = run_code python code
  serve (installs modules) = install_modules python modules
  serve (pips arguments) = pip_install python arguments
  serve resets = reset python

  -- An exception of a request goes to the host, and the process serves on.
  unfoldable pub serve_all : List Request → Process V W → Process V W
  serve_all [] s = s
  serve_all (r ∷ rs) s = serve_all rs (serve r s).1
