-- ===== src/Logger.antt =====
-- source/common/Logger.cc. The log file is its content so far; the time stamps are arguments.
pub mod Lines
mod Tests
use dreamboat_rpc.Prelude.{ℕ, List, [], ◌∷◌, ◌++◌, Bool, true, false}
use dreamboat_rpc.Run.{Run, ok, faults, ◌>>=◌}
use dreamboat_rpc.Format.{Arg, snprintf}

abbrev pub max_line : ℕ
max_line = 10240

-- `logfile`: a null pointer, a file that is open, a file that was closed.
pub data Logfile : Type 0 where
  null closed : Logfile
  opened : List ℕ → Logfile

-- start_log, by what fopen gives; mode "w+" empties the file.
unfoldable pub start_log : Bool → Logfile
start_log true = opened []
start_log false = Logfile.null

abbrev pub bracketed : List ℕ → List ℕ
bracketed timestamp = b'[' ∷ timestamp ++ b']' ∷ b' ' ∷ []

-- log_internal, which log_dev and log_err call with no arguments.
unfoldable pub log_internal : List ℕ → List ℕ → Logfile → Run Logfile
log_internal timestamp format Logfile.null = ok Logfile.null
log_internal timestamp format Logfile.closed = faults
log_internal timestamp format (opened content) = do
  buffer ← snprintf max_line format []
  ok (opened (content ++ bracketed timestamp ++ buffer))

unfoldable pub log_with : List ℕ → List ℕ → List ℕ → List Arg → Logfile → Run Logfile
unfolding log_internal
log_with prefix timestamp format args Logfile.null = ok Logfile.null
log_with prefix timestamp format args Logfile.closed = faults
log_with prefix timestamp format args (opened content) = do
  buffer ← snprintf max_line format args
  log_internal timestamp (prefix ++ buffer) (opened content)

abbrev pub debug : List ℕ
debug = b'D' ∷ b'e' ∷ b'b' ∷ b'u' ∷ b'g' ∷ b':' ∷ b' ' ∷ []

abbrev pub error : List ℕ
error = b'E' ∷ b'r' ∷ b'r' ∷ b'o' ∷ b'r' ∷ b':' ∷ b' ' ∷ []

unfoldable pub log_dev : List ℕ → List ℕ → List Arg → Logfile → Run Logfile
unfolding log_with
log_dev = log_with debug

unfoldable pub log_err : List ℕ → List ℕ → List Arg → Logfile → Run Logfile
unfolding log_with
log_err = log_with error

-- stop_log: fclose of a null pointer, or of a file that was closed, is undefined behaviour.
unfoldable pub stop_log : Logfile → Run Logfile
stop_log Logfile.null = faults
stop_log Logfile.closed = faults
stop_log (opened content) = ok Logfile.closed
