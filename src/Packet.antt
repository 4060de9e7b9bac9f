-- ===== src/Packet.antt =====
-- include/common/RpcTypes.hh and source/serialization/Serializer.cc: the packet layout on x86-64,
-- little-endian, with 3 bytes of padding behind `need_return`, and the message serializer.
pub mod RoundTrip
mod Tests
use dreamboat_rpc.Prelude.{
  ℕ, zero, suc, ◌+◌, ◌*◌, ◌/◌, ◌%◌, ◌^◌, ◌≤◌, ◌<◌, List, [], ◌∷◌, ◌++◌, Bool, true, false, not,
  ◌==◌, ◌≡◌, if◌then◌else◌, length, take, drop, at, replicate,
}
use dreamboat_rpc.Run.{Run, ok, ◌>>=◌}
use dreamboat_rpc.Memory.{load, store, put_u16, put_u32, get_u16, get_u32, to_size, add_int}

abbrev pub rpc_magic_number : ℕ
rpc_magic_number = 0xabcd

abbrev pub rpc_version : ℕ
rpc_version = 1

abbrev pub max_rpc_name_size : ℕ
max_rpc_name_size = 32

abbrev pub max_rpc_params_size : ℕ
max_rpc_params_size = 480

abbrev pub max_rpc_return_value : ℕ
max_rpc_return_value = 480

-- `padding` is the 24 bits that the compiler leaves between `need_return` and `seqno`.
pub record RpcHeader : Type 0 where
  pub magic : ℕ
  pub version : ℕ
  pub need_return : Bool
  pub padding : ℕ
  pub seqno : ℕ
  pub body_length : ℕ
  pub servicename : List ℕ

pub record RpcBody : Type 0 where
  pub parameters : List ℕ

pub record RpcMessage : Type 0 where
  pub header : RpcHeader
  pub body : RpcBody

pub record RpcResult : Type 0 where
  pub seqno : ℕ
  pub return_buffer : List ℕ

-- The constructor of RpcMessage; the padding is what the memory held.
abbrev pub new_message : ℕ → RpcMessage
new_message padding = record {
  header = record {
    magic = rpc_magic_number;
    version = rpc_version;
    need_return = false;
    padding = padding;
    seqno = 0;
    body_length = 0;
    servicename = replicate max_rpc_name_size 0;
  };
  body = record { parameters = replicate max_rpc_params_size 0 };
}

abbrev pub sizeof_header : ℕ
sizeof_header = 48

abbrev pub sizeof_result : ℕ
sizeof_result = 484

abbrev pub bool_byte : Bool → ℕ
bool_byte true = 1
bool_byte false = 0

-- The bytes of a header in memory, and the header that bytes stand for.
unfoldable pub header_bytes : RpcHeader → List ℕ
header_bytes h =
    (h.magic % 256)
      ∷ (h.magic / 256 % 256)
      ∷ (h.version % 256)
      ∷ (h.version / 256 % 256)
      ∷ bool_byte h.need_return
      ∷ (h.padding % 256)
      ∷ (h.padding / 256 % 256)
      ∷ (h.padding / 65536 % 256)
      ∷ put_u32 h.seqno
    ++ put_u32 h.body_length
    ++ h.servicename

unfoldable pub header_of : List ℕ → RpcHeader
header_of b = record {
  magic = get_u16 b 0;
  version = get_u16 b 2;
  need_return = not (at b 4 == 0);
  padding = at b 5 + 256 * at b 6 + 65536 * at b 7;
  seqno = get_u32 b 8;
  body_length = get_u32 b 12;
  servicename = take max_rpc_name_size (drop 16 b);
}

unfoldable pub result_bytes : RpcResult → List ℕ
result_bytes r = put_u32 r.seqno ++ r.return_buffer

unfoldable pub result_of : List ℕ → RpcResult
result_of b = record { seqno = get_u32 b 0; return_buffer = take max_rpc_return_value (drop 4 b) }

-- Serializer::Serialize and Deserialize of a message; the count of bytes comes with the target.
unfoldable pub serialize_message : RpcMessage → List ℕ → Run (ℕ × List ℕ)
serialize_message m out = do
  out₁ ← store out 0 (header_bytes m.header)
  part ← load (to_size m.header.body_length) m.body.parameters
  out₂ ← store out₁ sizeof_header part
  ok (add_int sizeof_header m.header.body_length, out₂)

unfoldable pub deserialize_message : List ℕ → RpcMessage → Run (ℕ × RpcMessage)
deserialize_message input out = do
  head ← load sizeof_header input
  let header = header_of head
  part ← load (to_size header.body_length) (drop sizeof_header input)
  body ← store out.body.parameters 0 part
  ok (
    add_int sizeof_header header.body_length,
    record { header = header; body = record { parameters = body } },
  )

-- Field values that fit the types, and arrays of their sizes.
pub record IsHeader (h : RpcHeader) : Type 0 where
  pub magic : h.magic < 2 ^ 16
  pub version : h.version < 2 ^ 16
  pub padding : h.padding < 2 ^ 24
  pub seqno : h.seqno < 2 ^ 32
  pub body_length : h.body_length < 2 ^ 32
  pub servicename : length h.servicename ≡ max_rpc_name_size

pub record IsMessage (m : RpcMessage) : Type 0 where
  pub header : IsHeader m.header
  pub parameters : length m.body.parameters ≡ max_rpc_params_size

pub record IsResult (r : RpcResult) : Type 0 where
  pub seqno : r.seqno < 2 ^ 32
  pub return_buffer : length r.return_buffer ≡ max_rpc_return_value
