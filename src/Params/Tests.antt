-- ===== src/Params/Tests.antt =====
-- Parameters in a buffer. The codec here stands for a message that is its own wire form.
use dreamboat_rpc.Prelude.{
  ℕ, ◌<◌, ◌≡◌, refl, List, [], ◌∷◌, ◌++◌, arith, length, take, map, replicate,
}
use dreamboat_rpc.Run.{ok, aborts, faults, ◌>>=◌, Returns}
use dreamboat_rpc.Packet.{RpcResult, max_rpc_return_value}
use dreamboat_rpc.Params.{
  Param, int_param, string_param, Codec, pack_params, parse_params, pack_proto_struct,
  parse_proto_struct, to_rpc_result,
}
use dreamboat_rpc.Params.RoundTrip.{wire, wires, slots, parse_params-pack_params}
use dreamboat_rpc.Params.Struct.{proto_struct_cut, to_rpc_result-sizes}

abbrev pub bytes_codec : Codec (List ℕ)
bytes_codec = record {
  serialize_as_string = λ s. s;
  parse_from_string = λ s. s;
  parse-serialize = λ s. refl;
}

abbrev pair : List Param
pair = int_param 513 ∷ string_param (b'h' ∷ b'i' ∷ []) ∷ []

abbrev small : List ℕ
small = replicate 8 9

parse_params-pack_params_example :
    (pack_params pair small >>= λ (n, buf). parse_params (buf ++ 1 ∷ []) (slots pair))
    ≡ ok (map wire pair)
unfolding wires
parse_params-pack_params_example =
    parse_params-pack_params pair small (1 ∷ []) (tt, ((ground arith, (ground arith, tt)), tt))
      (omega arith) (omega arith)

-- The byte behind the zero is lost.
proto_struct_cut_example :
    (pack_proto_struct bytes_codec small (5 ∷ 0 ∷ 6 ∷ []) >>= λ (n, buf).
    parse_proto_struct bytes_codec (take n buf ++ []))
    ≡ ok (5 ∷ [])
proto_struct_cut_example =
    proto_struct_cut bytes_codec small [] (5 ∷ 0 ∷ 6 ∷ []) (omega arith) (omega arith)

abbrev result : RpcResult
result = record { seqno = 0; return_buffer = replicate 480 0 }

to_rpc_result-sizes_example :
    let a : List ℕ = 5 ∷ [] in
    (length a < 479
      → Returns
          (λ r.
            (parse_proto_struct bytes_codec r.return_buffer ≡ ok a)
            × (length r.return_buffer ≡ max_rpc_return_value))
          (to_rpc_result bytes_codec result a))
    × (length a ≡ 479 → to_rpc_result bytes_codec result a ≡ aborts)
    × (479 < length a → to_rpc_result bytes_codec result a ≡ faults)
to_rpc_result-sizes_example =
    to_rpc_result-sizes bytes_codec result (5 ∷ []) (ground arith, tt) refl
