-- ===== src/Kv.antt =====
-- source/apps/kv/KVService.cc, KVServer.cc and the HandleRPC macro of include/common/RpcServiceBase.hh:
-- the key-value service in its five buckets, and its two services.
-- A std::map is an association list. The bucket's mutex makes each operation one step.
pub mod Buckets
pub mod Store
pub mod History
mod Tests
use dreamboat_rpc.Prelude.{
  ℕ, zero, suc, ◌+◌, ◌-◌, ◌/◌, ◌%◌, ◌^◌, List, [], ◌∷◌, Bool, true, false, ◌==◌, ltb, if◌then◌else◌,
  Option, none, some, get_elem?, set, replicate,
}
use dreamboat_rpc.Run.{Run, ok, ◌>>=◌, or_fault}
use dreamboat_rpc.Memory.{to_size}
use dreamboat_rpc.Packet.{RpcMessage, RpcResult}
use dreamboat_rpc.Params.{Codec, parse_proto_struct, to_rpc_result}

abbrev pub num_name_dictionary_buckets : ℕ
num_name_dictionary_buckets = 5

abbrev pub not_found : List ℕ
not_found = b'n' ∷ b'o' ∷ b't' ∷ b' ' ∷ b'f' ∷ b'o' ∷ b'u' ∷ b'n' ∷ b'd' ∷ []

-- The messages of KVService.proto: an id is the pattern of an int32, a name its bytes.
pub record GetValueReq : Type 0 where
  pub id : ℕ

pub record GetValueRsp : Type 0 where
  pub name : List ℕ

pub record SetValueReq : Type 0 where
  pub id : ℕ
  pub name : List ℕ

pub record SetValueRsp : Type 0 where
  pub code : ℕ

abbrev pub Dict : Type 0
Dict = List (ℕ × List ℕ)

-- `dicts` of KVServiceBase
abbrev pub Dicts : Type 0
Dicts = List Dict

abbrev pub no_names : Dicts
no_names = replicate num_name_dictionary_buckets []

-- Division and remainder of an `int` round towards zero.
unfoldable pub get_allotted_bucket : ℕ → ℕ
get_allotted_bucket k =
    if ltb k (2 ^ 31)
    then k / 2000 % 5
    else let m = (2 ^ 32 - k) / 2000 % 5 in if m == 0 then 0 else 2 ^ 32 - m

-- find, and the two ways in which operator[] and the iterator store.
unfoldable pub find : Dict → ℕ → Option (List ℕ)
find [] id = none
find ((k, v) ∷ d) id = if k == id then some v else find d id

unfoldable pub overwrite : Dict → ℕ → List ℕ → Dict
overwrite [] id name = []
overwrite ((k, v) ∷ d) id name =
    let rest = overwrite d id name in if k == id then (k, name) ∷ d else (k, v) ∷ rest

unfoldable pub found : Option (List ℕ) → GetValueRsp
found none = record { name = not_found }
found (some name) = record { name = name }

unfoldable pub updated : Option (List ℕ) → Dict → ℕ → List ℕ → SetValueRsp × Dict
updated none d id name = (record { code = 2 }, (id, name) ∷ d)
updated (some old) d id name = (record { code = 1 }, overwrite d id name)

-- An index outside of the array is undefined behaviour.
unfoldable pub get_value_internal : GetValueReq → Dicts → Run GetValueRsp
get_value_internal req dicts = do
  d ← or_fault (get_elem? dicts (to_size (get_allotted_bucket req.id)))
  ok (found (find d req.id))

unfoldable pub set_value_internal : SetValueReq → Dicts → Run (SetValueRsp × Dicts)
set_value_internal req dicts = do
  let index = to_size (get_allotted_bucket req.id)
  d ← or_fault (get_elem? dicts index)
  let (rsp, d') = updated (find d req.id) d req.id req.name
  ok (rsp, set dicts index d')

-- HandleRPC: `res` is what the uninitialised result holds.
unfoldable pub handle_rpc :
    {Req Rsp App : Type 0}
    → Codec Req
    → Codec Rsp
    → (Req → App → Run (Rsp × App))
    → RpcResult
    → RpcMessage
    → App
    → Run (RpcResult × App)
handle_rpc req_codec rsp_codec f res context app = do
  req ← parse_proto_struct req_codec context.body.parameters
  (rsp, app') ← f req app
  result ← to_rpc_result rsp_codec res rsp
  ok (result, app')

pub data Service : Type 0 where
  getter setter : Service

-- KVGetterImpl::GetValue, which changes nothing.
unfoldable pub get_value : GetValueReq → Dicts → Run (GetValueRsp × Dicts)
get_value req dicts = do rsp ← get_value_internal req dicts; ok (rsp, dicts)

module _ (get_req : Codec GetValueReq) (get_rsp : Codec GetValueRsp) (set_req : Codec SetValueReq)
    (set_rsp : Codec SetValueRsp) (res : RpcResult) where
  -- KVGetterImpl::Handle and KVSetterImpl::Handle
  unfoldable pub handle : Service → RpcMessage → Dicts → Run (RpcResult × Dicts)
  unfolding get_value
  handle getter = handle_rpc get_req get_rsp get_value res
  handle setter = handle_rpc set_req set_rsp set_value_internal res
