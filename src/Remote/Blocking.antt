-- ===== src/Remote/Blocking.antt =====
-- CallRPC of include/common/RpcServiceBase.hh: a call whose callback fills a promise, and get() of its
-- future. The state of the application is the promise.
use dreamboat_rpc.Prelude.{
  ℕ, ◌<◌, ◌^◌, ◌≡◌, ◌⊎◌, inl, inr, refl, List, [], Bool, true, false, Option, none, some, length,
}
use dreamboat_rpc.Run.{Run, ok, ◌>>=◌, aborts, Returns, returns, Returns-map}
use dreamboat_rpc.Packet.{RpcMessage, RpcResult, max_rpc_return_value}
use dreamboat_rpc.Params.{Codec}
use dreamboat_rpc.Kv.{handle_rpc}
use dreamboat_rpc.Events.{max_file_descriptors}
use dreamboat_rpc.Guid.{Guid, get_guid}
use dreamboat_rpc.Server.{Server, lookup}
use dreamboat_rpc.Client.{
  World, max_requests, callback_function, call_rpc_async, invoke_with, async_invoke,
}
use dreamboat_rpc.Client.Calls
use dreamboat_rpc.Client.Requests.{CanSend, make_request-request}
use dreamboat_rpc.Remote.{remote_call, answer_call}
use dreamboat_rpc.Remote.Service.{CanReturn}
use dreamboat_rpc.Remote.Delivery.{remote_call-Returns}

-- set_value of a promise throws if it has a value.
unfoldable pub set_value : {T : Type 0} → T → Option T → Run (Option T)
set_value ret none = ok (some ret)
set_value ret (some old) = aborts

-- CallRPC up to get(), which returns when the promise has a value.
unfoldable pub call_rpc :
    {P T : Type 0}
    → Codec P
    → Codec T
    → Bool
    → ℕ
    → List ℕ
    → P
    → World (Option T)
    → Run (World (Option T))
unfolding set_value
call_rpc codec rsp_codec attached padding name param w =
    call_rpc_async codec attached padding name param (callback_function rsp_codec set_value)
      (record w { app = none })

-- The promise is no part of the client.
emptied : {T : Type 0} (w : World (Option T)) → Calls.Inv w → Calls.Inv (record w { app = none })
emptied w i = record {
  guid = i.guid;
  slots = i.slots;
  filled = i.filled;
  transport = i.transport;
  initialized = i.initialized;
}

module _ {P T App Service : Type 0} (codec : Codec P) (rsp_codec : Codec T)
    (f : P → App → Run (T × App)) (res : RpcResult)
    (handle : Service → RpcMessage → App → Run (RpcResult × App)) (name : List ℕ)
    (service : Service)
    (is_rpc : (m : RpcMessage) (a : App)
      → handle service m a ≡ handle_rpc codec rsp_codec f res m a)
    (size : length res.return_buffer ≡ max_rpc_return_value) where
  -- CallRPC with an id below 1024, from a client in order with no other request waiting, to a
  -- registered service whose Handle is HandleRPC of `f`, where `f` returns, on a connection below
  -- descriptor 65536 with no result waiting, where name, parameter and answer fit and have no zero
  -- byte: after the events of the call the promise holds the answer of `f` for that parameter, and
  -- the client is in order.
  pub call_rpc-answered :
      (padding id fd : ℕ) (param : P) (s : Server Service App) (app : App) (rsp : T)
      → (w : World (Option T)) (g : Guid) → CanSend codec name param
      → padding < 2 ^ 24
      → lookup name s.dictionary ≡ some service
      → fd < max_file_descriptors
      → f param s.app ≡ ok (rsp, app)
      → CanReturn rsp_codec rsp
      → s.pipe fd ≡ []
      → Calls.Inv w
      → get_guid w.guid ≡ ok (some id, g)
      → id < max_requests
      → w.client.pending_requests ≡ []
      → Returns
          (λ (w', s'). (w'.app ≡ some rsp) × Calls.Inv w')
          (call_rpc codec rsp_codec true padding name param w >>= λ w₁.
            answer_call handle fd (w₁, s))
  unfolding call_rpc remote_call set_value
  call_rpc-answered padding id fd param s app rsp w g v small found fits gives back idle i given
        below quiet =
      Returns-map
        (remote_call-Returns codec rsp_codec f res handle name service is_rpc size padding id fd
          param v small s app rsp found fits gives back idle (record w { app = none }) g set_value
          (some rsp) (emptied w i) given below quiet refl)
        λ (w', s') (i', seen, freed, done, none_left). (seen, i')

-- The promise stays empty, and nothing is sent.
pub call_rpc-hangs :
    {P T : Type 0} (codec : Codec P) (rsp_codec : Codec T) (attached : Bool) (padding : ℕ)
    → (name : List ℕ) (param : P) (w : World (Option T)) (r : Option ℕ) (g : Guid)
    → CanSend codec name param
    → get_guid w.guid ≡ ok (r, g)
    → (r ≡ none) ⊎ (attached ≡ false)
    → Returns
        (λ w'. (w'.app ≡ none) × (w'.guid ≡ g) × (w'.client ≡ w.client))
        (call_rpc codec rsp_codec attached padding name param w)
unfolding call_rpc call_rpc_async invoke_with async_invoke
call_rpc-hangs codec rsp_codec attached padding name param w none g v given why =
    rw given (returns (refl, refl, refl))
call_rpc-hangs codec rsp_codec attached padding name param w (some id) g v given why =
    let off = detached why in
    rw (given, make_request-request codec padding id name param v, off) (returns (refl, refl, refl))
  where
    detached : {id : ℕ} {b : Bool} → (some id ≡ none) ⊎ (b ≡ false) → b ≡ false
    detached (inl e) = cc
    detached (inr e) = e
