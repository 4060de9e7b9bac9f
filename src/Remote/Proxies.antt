-- ===== src/Remote/Proxies.antt =====
-- source/apps/kv/KVClient.cc: the client's two proxies of the key-value service. What the client prints
-- is the state of its application.
use dreamboat_rpc.Prelude.{
  ℕ, ◌<◌, ◌^◌, ◌≡◌, refl, sym, ap, ◌∙◌, subst, List, [], ◌∷◌, ◌++◌, Bool, true, Option, some,
  length,
}
use dreamboat_rpc.Run.{Run, ok, ◌>>=◌, Returns, Returns-map}
use dreamboat_rpc.Memory.{c_str}
use dreamboat_rpc.Memory.Laws.{IsText, c_str-append}
use dreamboat_rpc.Packet.{RpcResult, max_rpc_return_value}
use dreamboat_rpc.Params.{Codec}
use dreamboat_rpc.Format.{int, text, int_text, convert, format}
use dreamboat_rpc.Events.{max_file_descriptors}
use dreamboat_rpc.Guid.{Guid, get_guid}
use dreamboat_rpc.Server.{Server, lookup}
use dreamboat_rpc.Client.{World, max_requests, callback_function, call_rpc_async}
use dreamboat_rpc.Client.Calls
use dreamboat_rpc.Client.Requests.{CanSend}
use dreamboat_rpc.Kv.{
  GetValueReq, GetValueRsp, SetValueReq, SetValueRsp, Service, getter, Dicts, handle, get_value,
}
use dreamboat_rpc.Kv.Buckets.{HasBucket}
use dreamboat_rpc.Kv.Store.{Names, Implements, told, found-told, get_value_internal-Implements}
use dreamboat_rpc.Remote.{remote_call, answer_call}
use dreamboat_rpc.Remote.Service.{CanReturn}
use dreamboat_rpc.Remote.Delivery.{remote_call-Returns}
use dreamboat_rpc.Remote.Blocking.{call_rpc}

-- ServiceName of the two proxies
abbrev pub kv_getter : List ℕ
kv_getter = b'K' ∷ b'V' ∷ b'G' ∷ b'e' ∷ b't' ∷ b't' ∷ b'e' ∷ b'r' ∷ []

abbrev pub kv_setter : List ℕ
kv_setter = b'K' ∷ b'V' ∷ b'S' ∷ b'e' ∷ b't' ∷ b't' ∷ b'e' ∷ b'r' ∷ []

-- "GetValue(%d) from server: %s\n" in its three parts
abbrev pub get_value_of : List ℕ
get_value_of = b'G' ∷ b'e' ∷ b't' ∷ b'V' ∷ b'a' ∷ b'l' ∷ b'u' ∷ b'e' ∷ b'(' ∷ []

abbrev pub from_server : List ℕ
from_server =
    b')' ∷ b' ' ∷ b'f' ∷ b'r' ∷ b'o' ∷ b'm' ∷ b' ' ∷ b's' ∷ b'e' ∷ b'r' ∷ b'v' ∷ b'e' ∷ b'r' ∷ b':'
    ∷ b' ' ∷ []

abbrev pub newline : List ℕ
newline = 10 ∷ []

-- The callback of GetValue.
unfoldable pub print_value : ℕ → GetValueRsp → List ℕ → Run (List ℕ)
print_value id s out = do
  name ← c_str (s.name ++ 0 ∷ [])
  line ←
      format (get_value_of ++ b'%' ∷ b'd' ∷ (from_server ++ b'%' ∷ b's' ∷ newline))
        (int id ∷ text name ∷ [])
  ok (out ++ line)

-- KVGetterProxy::GetValue. What it returns is empty.
unfoldable pub get_value_proxy :
    Codec GetValueReq
    → Codec GetValueRsp
    → Bool
    → ℕ
    → GetValueReq
    → World (List ℕ)
    → Run (World (List ℕ))
unfolding print_value
get_value_proxy get_req get_rsp attached padding req w =
    call_rpc_async get_req attached padding kv_getter req
      (callback_function get_rsp (print_value req.id)) w

-- KVSetterProxy::SetValue, up to the wait for the answer.
unfoldable pub set_value_proxy :
    Codec SetValueReq
    → Codec SetValueRsp
    → Bool
    → ℕ
    → SetValueReq
    → World (Option SetValueRsp)
    → Run (World (Option SetValueRsp))
unfolding call_rpc
set_value_proxy set_req set_rsp attached padding req w =
    call_rpc set_req set_rsp attached padding kv_setter req w

abbrev pub value_line : ℕ → List ℕ → List ℕ
value_line id name = get_value_of ++ (int_text id ++ (from_server ++ (name ++ newline)))

value_line-format :
    (id : ℕ) (name : List ℕ)
    → format
        (get_value_of ++ b'%' ∷ b'd' ∷ (from_server ++ b'%' ∷ b's' ∷ newline))
        (int id ∷ text name ∷ [])
      ≡ ok (value_line id name)
unfolding format convert
value_line-format id name = refl

-- The callback prints the name it is given.
print_value-line :
    (id : ℕ) (name out : List ℕ)
    → IsText name
    → print_value id (record { name = name }) out ≡ ok (out ++ value_line id name)
unfolding print_value
print_value-line id name out v = rw (c_str-append name [] v, value_line-format id name)

module _ (get_req : Codec GetValueReq) (get_rsp : Codec GetValueRsp) (set_req : Codec SetValueReq)
    (set_rsp : Codec SetValueRsp) (res : RpcResult)
    (size : length res.return_buffer ≡ max_rpc_return_value) where
  -- GetValue of the client's proxy, of an id that has a bucket, with a call id below 1024, from a
  -- client in order with no other request waiting, to a server that holds a map and has the
  -- service registered, on a connection below descriptor 65536 with no result waiting, where
  -- request and answer fit and their wire forms and the name have no zero byte: after the events
  -- of the call the client has printed one line with the id and the name that the map has, or "not
  -- found"; the server holds the same map, and the client is in order.
  pub get_value_proxy-prints :
      (padding id fd : ℕ) (req : GetValueReq) (w : World (List ℕ)) (g : Guid)
      → (s : Server Service Dicts) (names : Names) → CanSend get_req kv_getter req
      → CanReturn get_rsp (record { name = told (names req.id) })
      → IsText (told (names req.id))
      → padding < 2 ^ 24
      → lookup kv_getter s.dictionary ≡ some getter
      → fd < max_file_descriptors
      → s.pipe fd ≡ []
      → Calls.Inv w
      → get_guid w.guid ≡ ok (some id, g)
      → id < max_requests
      → w.client.pending_requests ≡ []
      → Implements s.app names
      → HasBucket req.id
      → Returns
          (λ (w', s').
            Calls.Inv w'
            × (w'.app ≡ w.app ++ value_line req.id (told (names req.id)))
            × Implements s'.app names)
          (get_value_proxy get_req get_rsp true padding req w >>= λ w₁.
            answer_call (handle get_req get_rsp set_req set_rsp res) fd (w₁, s))
  unfolding handle get_value get_value_proxy remote_call
  get_value_proxy-prints padding id fd req w g s names v back plain small called fits idle i given
        below quiet holds bucket =
      let rsp : GetValueRsp = record { name = told (names req.id) } in
      let gives : get_value req s.app ≡ ok (rsp, s.app) =
        ap (λ r. r >>= λ x. ok (x, s.app))
          (get_value_internal-Implements req.id s.app names holds bucket
            ∙ ap ok (found-told (names req.id))) in
      Returns-map
        (remote_call-Returns get_req get_rsp get_value res
          (handle get_req get_rsp set_req set_rsp res) kv_getter getter (λ m a. refl) size padding
          id fd req v small s s.app rsp called fits gives back idle w g (print_value req.id)
          (w.app ++ value_line req.id rsp.name) i given below quiet
          (print_value-line req.id rsp.name w.app plain))
        λ (w', s') (i', seen, freed, app, empty).
          (i', seen, subst (λ d. Implements d names) (sym app) holds)
