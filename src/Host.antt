-- ===== src/Host.antt =====
-- What the daemon asks of the host: the file system, child processes and the control socket. None
-- of it is in the repository, so it is a parameter: a state and operations on it.
use dockerwall.Base.{ℕ, Bool, Option, List}
use dockerwall.Text.{Text}
use dockerwall.Result.{Prog}

-- `std::fs::Metadata`
pub record Metadata : Type 0 where
  pub is_file : Bool
  pub uid : ℕ
  pub mode : ℕ

-- `std::process::Output`, its streams decoded by `String::from_utf8_lossy`.
pub record Output : Type 0 where
  pub success : Bool
  pub stdout : Text
  pub stderr : Text

pub record Host : Type 1 where
  pub World : Type 0
  -- `tokio::fs::metadata`; an error is `none`.
  pub metadata : Text → World → Option Metadata
  -- A child process with these arguments and this input, run to its end.
  pub run : Text → List Text → Text → Prog World Output
  -- `read_to_string`
  pub read_file : Text → World → Option Text
  -- One request on the control socket, and the first line of the response.
  pub request : Text → Prog World Text
  -- `Command::spawn` of the daemon itself, which goes on running.
  pub spawn_daemon : Prog World (Unit {0})
  -- `sleep`
  pub sleep : ℕ → World → World
