-- ===== src/Client/Requests.antt =====
-- The request that CallRPCAsync makes.
use dreamboat_rpc.Prelude.{
  ℕ, ◌+◌, ◌≤◌, ◌<◌, ◌^◌, ◌≡◌, List, [], ◌∷◌, ◌++◌, Bool, false, arith, length, drop, replicate,
  length-append, length-drop,
}
use dreamboat_rpc.Run.{ok}
use dreamboat_rpc.Memory.Laws.{IsText, strcpy_front}
use dreamboat_rpc.Packet.{
  RpcMessage, IsMessage, max_rpc_name_size, max_rpc_params_size, rpc_magic_number, rpc_version,
}
use dreamboat_rpc.Params.{Codec}
use dreamboat_rpc.Params.RoundTrip.{text_size}
use dreamboat_rpc.Params.Struct.{pack_proto_struct-before_zero, before_zero, before_zero-of_text}
use dreamboat_rpc.Client.{make_request}

-- What a call may send: a service name and a wire form that fit, with no zero byte.
pub record CanSend {P : Type 0} (codec : Codec P) (name : List ℕ) (param : P) : Type 0 where
  pub named : IsText name
  pub name_fits : length name < max_rpc_name_size
  pub text : IsText (codec.serialize_as_string param)
  pub fits : length (codec.serialize_as_string param) < max_rpc_params_size

-- The request as it is laid out.
abbrev pub request : {P : Type 0} → Codec P → Bool → ℕ → ℕ → List ℕ → P → RpcMessage
request codec needed padding id name param =
    let wire = codec.serialize_as_string param in
    record {
      header = record {
        magic = rpc_magic_number;
        version = rpc_version;
        need_return = needed;
        padding = padding;
        seqno = id;
        body_length = length wire + 1;
        servicename = name ++ 0 ∷ [] ++ drop (length name + 1) (replicate max_rpc_name_size 0);
      };
      body = record {
        parameters = wire ++ 0 ∷ [] ++ drop (length wire + 1) (replicate max_rpc_params_size 0);
      };
    }

length-padded :
    (s buf : List ℕ)
    → length s < length buf
    → length (s ++ 0 ∷ [] ++ drop (length s + 1) buf) ≡ length buf
length-padded s buf h = omega (
  arith,
  length-append (s ++ 0 ∷ []) (drop (length s + 1) buf),
  text_size s,
  length-drop (length s + 1) buf,
)

module _ {P : Type 0} (codec : Codec P) (padding id : ℕ) (name : List ℕ) (param : P)
    (v : CanSend codec name param) where
  pub make_request-request :
      make_request codec padding id name param ≡ ok (request codec false padding id name param)
  unfolding make_request
  make_request-request =
      let wire = codec.serialize_as_string param in
      let whole = before_zero-of_text wire v.text in
      let names : List ℕ = replicate max_rpc_name_size 0 in
      let params : List ℕ = replicate max_rpc_params_size 0 in
      let room : length name + 1 ≤ length names = omega (arith, v.name_fits) in
      let space : length (before_zero wire) + 1 ≤ length params =
        rw whole (omega (arith, v.fits)) in
      let packed = rw whole at (pack_proto_struct-before_zero codec params param space) in
      rw (strcpy_front names name [] v.named room, packed)

  pub request-IsMessage :
      (needed : Bool)
      → padding < 2 ^ 24
      → id < 2 ^ 32
      → IsMessage (request codec needed padding id name param)
  request-IsMessage needed p q = record {
    header = record {
      magic = omega arith;
      version = omega arith;
      padding = p;
      seqno = q;
      body_length = omega (arith, v.fits);
      servicename = length-padded name (replicate max_rpc_name_size 0) v.name_fits;
    };
    parameters =
        length-padded (codec.serialize_as_string param) (replicate max_rpc_params_size 0) v.fits;
  }
