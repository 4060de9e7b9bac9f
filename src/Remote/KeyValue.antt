-- ===== src/Remote/KeyValue.antt =====
-- The key-value service across the connection: SetValue by a remote call.
use dreamboat_rpc.Prelude.{ℕ, ◌<◌, ◌^◌, ◌≡◌, refl, sym, ◌∙◌, subst, List, [], Option, some, length}
use dreamboat_rpc.Run.{Run, ok, Returns, Returns-map, Returns-inv}
use dreamboat_rpc.Packet.{RpcResult, max_rpc_return_value}
use dreamboat_rpc.Params.{Codec}
use dreamboat_rpc.Events.{max_file_descriptors}
use dreamboat_rpc.Guid.{Guid, get_guid}
use dreamboat_rpc.Server.{Server, lookup}
use dreamboat_rpc.Client.{World, max_requests, callback_function}
use dreamboat_rpc.Client.Calls
use dreamboat_rpc.Client.Requests.{CanSend}
use dreamboat_rpc.Kv.{
  GetValueReq, GetValueRsp, SetValueReq, SetValueRsp, Service, setter, Dicts, handle,
  set_value_internal,
}
use dreamboat_rpc.Kv.Buckets.{HasBucket}
use dreamboat_rpc.Kv.Store.{Names, Implements, stored, code_of, set_value_internal-Implements}
use dreamboat_rpc.Remote.{remote_call}
use dreamboat_rpc.Remote.Service.{CanReturn}
use dreamboat_rpc.Remote.Delivery.{remote_call-Returns}

-- A callback that keeps the code.
abbrev pub keep_code : SetValueRsp → ℕ → Run ℕ
keep_code rsp before = ok rsp.code

module _ (get_req : Codec GetValueReq) (get_rsp : Codec GetValueRsp) (set_req : Codec SetValueReq)
    (set_rsp : Codec SetValueRsp) (res : RpcResult)
    (size : length res.return_buffer ≡ max_rpc_return_value)
    (back : (old : Option (List ℕ)) → CanReturn set_rsp (record { code = code_of old }))
    (called : List ℕ) where
  -- A remote SetValue, from a client in order with no other request waiting and a call id below
  -- 1024, on a connection below descriptor 65536 with no result waiting, of an id that has a
  -- bucket, where the service's name and the wire forms of request and answer fit their buffers
  -- and have no zero byte: the service then holds the map with the new name, the caller has seen 1
  -- if the id had a name before and 2 if not, and the client is in order for the next call.
  pub set_value_remotely :
      (padding id fd : ℕ) (req : SetValueReq) (w : World ℕ) (g : Guid)
      → (s : Server Service Dicts) (names : Names) → CanSend set_req called req
      → padding < 2 ^ 24
      → lookup called s.dictionary ≡ some setter
      → fd < max_file_descriptors
      → s.pipe fd ≡ []
      → Calls.Inv w
      → get_guid w.guid ≡ ok (some id, g)
      → id < max_requests
      → w.client.pending_requests ≡ []
      → Implements s.app names
      → HasBucket req.id
      → Returns
          (λ (w', s').
            Calls.Inv w'
            × (w'.app ≡ code_of (names req.id))
            × Implements s'.app (stored names req.id req.name))
          (remote_call set_req padding called req
            (callback_function set_rsp keep_code)
            (handle get_req get_rsp set_req set_rsp res)
            fd
            (w, s))
  unfolding handle
  set_value_remotely padding id fd req w g s names v small found fits idle i given below quiet holds
        bucket =
      let ((rsp, dicts), ran, (code, after)) =
        Returns-inv (set_value_internal-Implements req.id req.name s.app names holds bucket) in
      let answer =
        subst (λ c. CanReturn set_rsp (record { code = c })) (sym code) (back (names req.id)) in
      Returns-map
        (remote_call-Returns set_req set_rsp set_value_internal res
          (handle get_req get_rsp set_req set_rsp res) called setter (λ m a. refl) size padding id
          fd req v small s dicts rsp found fits ran answer idle w g keep_code rsp.code i given below
          quiet refl)
        λ (w', s') (i', seen, freed, app, empty). (
          i',
          seen ∙ code,
          subst (λ d. Implements d (stored names req.id req.name)) (sym app) after,
        )
