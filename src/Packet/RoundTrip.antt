-- ===== src/Packet/RoundTrip.antt =====
-- What a peer reads out of a packet is what was put in.
use dreamboat_rpc.Prelude.{
  ℕ, ◌+◌, ◌*◌, ◌≤◌, ◌≡◌, refl, List, ◌++◌, Bool, true, false, not, arith, ◌==◌, length, take, drop,
  at, length-append, length-take, length-drop, take-append, drop-append,
}
use mathlib.Core.List.{append_assoc}
use dreamboat_rpc.Run.{ok, Returns, returns}
use dreamboat_rpc.Memory.{get_u16, get_u32, to_size, add_int}
use dreamboat_rpc.Memory.Laws.{take-all, load-ok, load-append, store-ok, length-store}
use dreamboat_rpc.Packet.{
  RpcHeader, RpcMessage, RpcResult, bool_byte, max_rpc_return_value, header_bytes, header_of,
  result_bytes, result_of, serialize_message, deserialize_message, IsHeader, IsMessage, IsResult,
  sizeof_header, sizeof_result, max_rpc_name_size, max_rpc_params_size,
}

pub length-header_bytes : (h : RpcHeader) → IsHeader h → length (header_bytes h) ≡ sizeof_header
unfolding header_bytes
length-header_bytes h v = omega arith

need_return_bit : (b : Bool) → not (bool_byte b == 0) ≡ b
need_return_bit true = refl
need_return_bit false = refl

-- A header is read back from its bytes.
pub header_of-header_bytes : (h : RpcHeader) → IsHeader h → header_of (header_bytes h) ≡ h
unfolding header_of header_bytes
header_of-header_bytes h v =
    let magic : get_u16 (header_bytes h) 0 ≡ h.magic = omega (arith, v.magic) in
    let version : get_u16 (header_bytes h) 2 ≡ h.version = omega (arith, v.version) in
    let need_return = need_return_bit h.need_return in
    let padding : at (header_bytes h) 5
          + 256 * at (header_bytes h) 6
          + 65536 * at (header_bytes h) 7
        ≡ h.padding =
      omega (arith, v.padding) in
    let seqno : get_u32 (header_bytes h) 8 ≡ h.seqno = omega (arith, v.seqno) in
    let body_length : get_u32 (header_bytes h) 12 ≡ h.body_length = omega (arith, v.body_length) in
    let servicename = take-all max_rpc_name_size h.servicename v.servicename in
    λ i. record {
      magic = magic i;
      version = version i;
      need_return = need_return i;
      padding = padding i;
      seqno = seqno i;
      body_length = body_length i;
      servicename = servicename i;
    }

pub length-result_bytes : (r : RpcResult) → IsResult r → length (result_bytes r) ≡ sizeof_result
unfolding result_bytes
length-result_bytes r v = omega arith

-- A result whose fields fit is read back from its bytes.
pub result_of-result_bytes : (r : RpcResult) → IsResult r → result_of (result_bytes r) ≡ r
unfolding result_of result_bytes
result_of-result_bytes r v =
    let seqno : get_u32 (result_bytes r) 0 ≡ r.seqno = omega (arith, v.seqno) in
    let buffer = take-all max_rpc_return_value r.return_buffer v.return_buffer in
    λ i. record { seqno = seqno i; return_buffer = buffer i }

-- The bytes of a packet: the header, and as much of the body as the header says.
abbrev pub packet_bytes : RpcMessage → List ℕ
packet_bytes m = header_bytes m.header ++ take m.header.body_length m.body.parameters

module _ (m : RpcMessage) (v : IsMessage m)
    (short : m.header.body_length ≤ max_rpc_params_size) where
  abbrev count : ℕ
  count = sizeof_header + m.header.body_length

  length-part : length (take m.header.body_length m.body.parameters) ≡ m.header.body_length
  length-part = length-take m.header.body_length m.body.parameters (omega (arith, v.parameters))

  pub length-packet_bytes : length (packet_bytes m) ≡ count
  length-packet_bytes = omega (
    arith,
    length-append (header_bytes m.header) (take m.header.body_length m.body.parameters),
    length-header_bytes m.header v.header,
    length-part,
  )

  size : to_size m.header.body_length ≡ m.header.body_length
  size = ground arith

  wrapped : add_int sizeof_header m.header.body_length ≡ count
  wrapped = omega arith

  -- For a message whose fields fit their types and whose body length is at most 480, Serialize
  -- writes the header and that much of the body at the front of a buffer of at least 528 bytes,
  -- and returns the size of both.
  pub serialize_message-packet_bytes :
      (out : List ℕ)
      → sizeof_header + max_rpc_params_size ≤ length out
      → Returns
          (λ (n, buf). (n ≡ count) × (take n buf ≡ packet_bytes m) × (length buf ≡ length out))
          (serialize_message m out)
  unfolding serialize_message
  serialize_message-packet_bytes out room =
      let head = header_bytes m.header in
      let long = length-header_bytes m.header v.header in
      let first = store-ok out 0 head (omega (arith, long)) in
      let kept = length-store out 0 head (omega (arith, long)) in
      let part = take m.header.body_length m.body.parameters in
      let loaded = load-ok m.header.body_length m.body.parameters (omega (arith, v.parameters)) in
      let rest = drop (0 + length head) out in
      let second = store-ok (head ++ rest) sizeof_header part (omega (arith, kept, length-part)) in
      let front = take-append sizeof_header head rest long in
      rw (first, size, loaded, second, front, wrapped)
        (returns (
          refl,
          take-append count (packet_bytes m) _ length-packet_bytes,
          omega (
            arith,
            length-part,
            long,
            kept,
            length-packet_bytes,
            length-append (packet_bytes m) (drop (sizeof_header + length part) (head ++ rest)),
            length-drop (sizeof_header + length part) (head ++ rest),
          ),
        ))

  -- For a message whose fields fit their types and whose body length is at most 480, Deserialize
  -- reads the header and the body back from any input that begins with its packet; the rest of the
  -- target's body stays.
  pub deserialize_message-packet_bytes :
      (rest : List ℕ) (out : RpcMessage)
      → length out.body.parameters ≡ max_rpc_params_size
      → deserialize_message (packet_bytes m ++ rest) out
        ≡ ok (
          count,
          record {
            header = m.header;
            body = record {
              parameters =
                  take m.header.body_length m.body.parameters
                  ++ drop m.header.body_length out.body.parameters;
            };
          },
        )
  unfolding deserialize_message
  deserialize_message-packet_bytes rest out room =
      let head = header_bytes m.header in
      let part = take m.header.body_length m.body.parameters in
      let long = length-header_bytes m.header v.header in
      let target = out.body.parameters in
      let end : 0 + length part ≡ m.header.body_length = omega (arith, length-part) in
      rw (
        append_assoc head part rest,
        load-append head (part ++ rest) sizeof_header long,
        header_of-header_bytes m.header v.header,
        drop-append sizeof_header head (part ++ rest) long,
        size,
        load-append part rest m.header.body_length length-part,
        store-ok target 0 part (omega (arith, length-part)),
        wrapped,
        end,
      )
