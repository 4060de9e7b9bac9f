-- ===== src/Logger/Tests.antt =====
-- The line that RpcRequestHandler::HandleReadEvent logs for a service that is not registered.
use dreamboat_rpc.Prelude.{◌≡◌, refl, false, List, [], ◌∷◌, ◌++◌, ℕ, arith}
use dreamboat_rpc.Run.{faults}
use dreamboat_rpc.Format.{text}
use dreamboat_rpc.Logger.{opened, log_dev, stop_log, start_log}
use dreamboat_rpc.Logger.Lines.{log_dev-percent}

abbrev before : List ℕ
before =
    b'W' ∷ b'a' ∷ b'r' ∷ b'n' ∷ b'i' ∷ b'n' ∷ b'g' ∷ b'!' ∷ b' ' ∷ b'S' ∷ b'e' ∷ b'r' ∷ b'v' ∷ b'i'
    ∷ b'c' ∷ b'e' ∷ b' ' ∷ b'[' ∷ []

abbrev after : List ℕ
after = b']' ∷ b' ' ∷ b'n' ∷ b'o' ∷ b't' ∷ b' ' ∷ b'f' ∷ b'o' ∷ b'u' ∷ b'n' ∷ b'd' ∷ 10 ∷ []

-- A service by the name of "%n".
log_dev-percent_example :
    log_dev (b'0' ∷ []) (before ++ b'%' ∷ b's' ∷ after) (text (b'%' ∷ b'n' ∷ []) ∷ []) (opened [])
    ≡ faults
log_dev-percent_example =
    log_dev-percent (b'0' ∷ []) before after [] [] [] b'n' (ground arith) (ground arith) tt
      (ground arith) (omega arith)

-- A server whose log file could not be opened.
stop_log-null : stop_log (start_log false) ≡ faults
unfolding stop_log start_log
stop_log-null = refl
