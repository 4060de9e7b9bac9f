-- ===== src/Remote/Service.antt =====
-- The server's half of a call: a request that the client makes is answered under its id with what
-- the service gives for its parameter.
use mathlib.Core.List.{append_assoc}
use dreamboat_rpc.Prelude.{
  ℕ, ◌+◌, ◌<◌, ◌^◌, ◌≡◌, refl, ap, ◌∙◌, subst, List, [], ◌∷◌, ◌++◌, true, arith, some, length, take,
  drop, replicate, take-append,
}
use dreamboat_rpc.Run.{Run, ok, Returns, returns, Returns-bind, Returns-map, Returns-inv}
use dreamboat_rpc.Memory.{c_str}
use dreamboat_rpc.Memory.Laws.{IsText, c_str-append}
use dreamboat_rpc.Packet.{
  RpcMessage, RpcResult, IsResult, header_bytes, max_rpc_params_size, max_rpc_return_value,
}
use dreamboat_rpc.Params.{Codec, parse_proto_struct}
use dreamboat_rpc.Params.RoundTrip.{text_size}
use dreamboat_rpc.Params.Struct.{parse_proto_struct-text, to_rpc_result-sizes}
use dreamboat_rpc.Kv.{handle_rpc}
use dreamboat_rpc.Events.{max_file_descriptors}
use dreamboat_rpc.Server.{Server, received, lookup, handle_request_event}
use dreamboat_rpc.Server.Requests.{Served, message_of, handle_request_event-serves}
use dreamboat_rpc.Client.Requests.{CanSend, request, request-IsMessage}

-- An answer that fits the result buffer.
pub record CanReturn {T : Type 0} (codec : Codec T) (rsp : T) : Type 0 where
  pub text : IsText (codec.serialize_as_string rsp)
  pub fits : length (codec.serialize_as_string rsp) < 479

-- A result that the client parses as `rsp`.
pub record Answers {T : Type 0} (codec : Codec T) (rsp : T) (id : ℕ) (r : RpcResult) : Type 0 where
  pub seqno : r.seqno ≡ id
  pub sized : IsResult r
  pub parsed : parse_proto_struct codec r.return_buffer ≡ ok rsp

module _ {P T App : Type 0} (codec : Codec P) (rsp_codec : Codec T) (f : P → App → Run (T × App))
    (res : RpcResult) where
  -- HandleRPC parses the parameter, calls the service's function, and packs what it returns.
  pub handle_rpc-answers :
      (param : P) (rest : List ℕ) (m : RpcMessage) (a app : App) (rsp : T)
      → m.body.parameters ≡ codec.serialize_as_string param ++ 0 ∷ rest
      → IsText (codec.serialize_as_string param)
      → length (codec.serialize_as_string param) < 4096
      → f param a ≡ ok (rsp, app)
      → CanReturn rsp_codec rsp
      → length res.return_buffer ≡ max_rpc_return_value
      → Returns
          (λ (r, app').
            (app' ≡ app)
            × (parse_proto_struct rsp_codec r.return_buffer ≡ ok rsp)
            × (length r.return_buffer ≡ max_rpc_return_value))
          (handle_rpc codec rsp_codec f res m a)
  unfolding handle_rpc
  handle_rpc-answers param rest m a app rsp body t small gives v size =
      let parsed = parse_proto_struct-text codec (codec.serialize_as_string param) rest t small in
      rw (body, parsed, codec.parse-serialize param, gives)
        (Returns-bind ((to_rpc_result-sizes rsp_codec res rsp v.text size).0 v.fits)
          λ r (p, l). returns (refl, p, l))

  module _ {Service : Type 0} (handle : Service → RpcMessage → App → Run (RpcResult × App))
      (name : List ℕ) (service : Service)
      (is_rpc : (m : RpcMessage) (a : App)
        → handle service m a ≡ handle_rpc codec rsp_codec f res m a) where
    pub request-Served :
        (padding id fd : ℕ) (param : P) (s : Server Service App) (app : App) (rsp : T)
        → CanSend codec name param
        → padding < 2 ^ 24
        → id < 2 ^ 32
        → lookup name s.dictionary ≡ some service
        → fd < max_file_descriptors
        → f param s.app ≡ ok (rsp, app)
        → CanReturn rsp_codec rsp
        → length res.return_buffer ≡ max_rpc_return_value
        → let m = request codec true padding id name param in
          Returns
            (λ s'. (r : RpcResult) × Answers rsp_codec rsp id r × Served fd true r app s s')
            (handle_request_event handle
              (received (header_bytes m.header))
              (received (take m.header.body_length m.body.parameters))
              fd
              s)
    request-Served padding id fd param s app rsp v small low found fits gives back size =
        let m = request codec true padding id name param in
        let wire = codec.serialize_as_string param in
        let body = wire ++ 0 ∷ [] in
        let ok_m = request-IsMessage codec padding id name param v true small low in
        let taken : take m.header.body_length m.body.parameters ≡ body =
          take-append (length wire + 1) body _ (text_size wire) in
        let called_by : c_str m.header.servicename ≡ ok name =
          ap c_str (append_assoc name (0 ∷ []) _) ∙ c_str-append name _ v.named in
        let full : (message_of m.header body).body.parameters
            ≡ wire ++ 0 ∷ drop (length body) (replicate max_rpc_params_size 0) =
          append_assoc wire (0 ∷ []) _ in
        let ((r, app'), called, (same, parsed, long)) = Returns-inv (
          handle_rpc-answers param _ (message_of m.header body) s.app app rsp full v.text
            (omega (arith, v.fits)) gives back size) in
        let handled = is_rpc (message_of m.header body) s.app ∙ called in
        rw taken (
          Returns-map
            (handle_request_event-serves handle m.header body name service fd s r app' ok_m.header
              refl refl (text_size wire) (omega (arith, v.fits)) called_by found fits handled)
            λ s' served. (
              record r { seqno = id },
              record {
                seqno = refl;
                sized = record { seqno = low; return_buffer = long };
                parsed = parsed;
              },
              subst (λ a. Served fd true (record r { seqno = id }) a s s') same served,
            ))
