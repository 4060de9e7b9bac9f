-- ===== src/Packet/Tests.antt =====
-- A packet on the wire and back.
use dreamboat_rpc.Prelude.{ℕ, ◌≡◌, refl, List, [], ◌∷◌, ◌++◌, arith, length, take, drop, replicate}
use dreamboat_rpc.Run.{ok, Returns}
use dreamboat_rpc.Packet.{
  RpcMessage, IsMessage, new_message, serialize_message, deserialize_message,
}
use dreamboat_rpc.Packet.RoundTrip.{
  packet_bytes, serialize_message-packet_bytes, deserialize_message-packet_bytes,
}

abbrev ping : RpcMessage
ping =
    let m = new_message 0 in record m { header = record (m.header) { seqno = 7; body_length = 2 } }

ping-IsMessage : IsMessage ping
ping-IsMessage = record {
  header = record {
    magic = omega arith;
    version = omega arith;
    padding = omega arith;
    seqno = omega arith;
    body_length = omega arith;
    servicename = refl;
  };
  parameters = refl;
}

abbrev blank : List ℕ
blank = replicate 1024 0

serialize_message-packet_bytes_example :
    Returns
      (λ (n, buf). (n ≡ 50) × (take n buf ≡ packet_bytes ping) × (length buf ≡ length blank))
      (serialize_message ping blank)
serialize_message-packet_bytes_example =
    serialize_message-packet_bytes ping ping-IsMessage (omega arith) blank (omega arith)

deserialize_message-packet_bytes_example :
    deserialize_message (packet_bytes ping ++ 9 ∷ []) (new_message 0)
    ≡ ok (
      50,
      record {
        header = ping.header;
        body = record {
          parameters = take 2 ping.body.parameters ++ drop 2 (new_message 0).body.parameters;
        };
      },
    )
deserialize_message-packet_bytes_example =
    deserialize_message-packet_bytes ping ping-IsMessage (omega arith) (9 ∷ []) (new_message 0) refl
