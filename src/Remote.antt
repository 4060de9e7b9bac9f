-- ===== src/Remote.antt =====
-- One remote call from end to end, over the client and the server: CallRPCAsync, the client's write
-- event, the server's read and write events, and the client's read event, in this order, with the
-- bytes of each send received whole.
pub mod Service
pub mod Delivery
pub mod KeyValue
pub mod Blocking
pub mod Proxies
pub mod Tests
use dreamboat_rpc.Prelude.{ℕ, List, [], ◌∷◌, Bool, true, take, drop}
use dreamboat_rpc.Run.{Run, ok, faults, ◌>>=◌}
use dreamboat_rpc.Packet.{RpcMessage, RpcResult, sizeof_header, sizeof_result}
use dreamboat_rpc.Params.{Codec}
use dreamboat_rpc.Server.{Recv, received, sent, Server, handle_request_event}
use dreamboat_rpc.Client.{Callback, Client, World, max_buffer, call_rpc_async, handle_read_event}

-- The last packet that went out.
abbrev last_sent : {A : Type 0} → List A → Run A
last_sent [] = faults
last_sent (x ∷ rest) = ok x

module _ {Service App : Type 0} (handle : Service → RpcMessage → App → Run (RpcResult × App)) where
  -- The server's part: the packet in, the result out.
  unfoldable pub serve_packet : List ℕ → ℕ → Server Service App → Run (List ℕ × Server Service App)
  serve_packet packet fd s = do
    let head = received (take sizeof_header packet)
    s₁ ← handle_request_event handle head (received (drop sizeof_header packet)) fd s
    s₂ ← dreamboat_rpc.Server.handle_write_event (sent sizeof_result) fd s₁
    (to, answer) ← last_sent s₂.outbox
    ok (answer, s₂)

  -- The events of both sides from a call on.
  unfoldable pub answer_call :
      {S : Type 0} → ℕ → World S × Server Service App → Run (World S × Server Service App)
  unfolding serve_packet
  answer_call fd (w₁, s) = do
    c ← dreamboat_rpc.Client.handle_write_event (sent max_buffer) w₁.client.connfd w₁.client
    packet ← last_sent c.outbox
    (answer, s') ← serve_packet packet fd s
    w₂ ← handle_read_event (received answer) (record w₁ { client = c })
    ok (w₂, s')

module _ {S P Service App : Type 0} (codec : Codec P) (padding : ℕ) (name : List ℕ) (param : P)
    (callback : Callback S) (handle : Service → RpcMessage → App → Run (RpcResult × App)) where
  unfoldable pub remote_call : ℕ → World S × Server Service App → Run (World S × Server Service App)
  unfolding answer_call
  remote_call fd (w, s) = do
    w₁ ← call_rpc_async codec true padding name param callback w
    answer_call handle fd (w₁, s)
