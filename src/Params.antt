-- ===== src/Params.antt =====
-- source/serialization/Serializer.cc (values), include/common/RpcUtils.hh and source/common/RpcUtils.cc:
-- packing of values and of protobuf messages into parameter buffers.
-- An overload of PackParam is a constructor of Param; a variadic call is a list.
pub mod RoundTrip
pub mod Struct
pub mod Tests
use dreamboat_rpc.Prelude.{
  ℕ, zero, suc, ◌+◌, ◌<◌, ◌≡◌, List, [], ◌∷◌, ◌++◌, Bool, ◌==◌, ltb, if◌then◌else◌, length, take,
  drop, replicate,
}
use dreamboat_rpc.Run.{Run, ok, aborts, faults, ◌>>=◌}
use dreamboat_rpc.Memory.{load, store, strcpy, c_str, str_eq, put_u32, minus_one}
use dreamboat_rpc.Packet.{RpcResult, max_rpc_return_value}

abbrev pub int_type : List ℕ
int_type = b'i' ∷ b'n' ∷ b't' ∷ []

abbrev pub float_type : List ℕ
float_type = b'f' ∷ b'l' ∷ b'o' ∷ b'a' ∷ b't' ∷ []

abbrev pub string_type : List ℕ
string_type = b's' ∷ b't' ∷ b'r' ∷ b'i' ∷ b'n' ∷ b'g' ∷ []

-- The branches of both directions: memcpy of sizeof(int) or sizeof(float), and strcpy with strlen.
unfoldable pub copy_word : List ℕ → List ℕ → Run (ℕ × List ℕ)
copy_word input out = do b ← load 4 input; out' ← store out 0 b; ok (4, out')

unfoldable pub copy_text : List ℕ → List ℕ → Run (ℕ × List ℕ)
copy_text input out = do out' ← strcpy out 0 input; s ← c_str input; ok (length s + 1, out')

-- Serializer::Serialize of the memory at `In`: what it returns, and the target.
unfoldable pub serialize : List ℕ → List ℕ → List ℕ → Run (ℕ × List ℕ)
serialize input out type =
    if str_eq type int_type
    then copy_word input out
    else if str_eq type float_type
    then copy_word input out
    else if str_eq type string_type
    then copy_text input out
    else ok (minus_one, out)

unfoldable pub deserialize : List ℕ → List ℕ → List ℕ → Run (ℕ × List ℕ)
deserialize input out type =
    if str_eq type int_type
    then copy_word input out
    else if str_eq type float_type
    then copy_word input out
    else if str_eq type string_type
    then copy_text input out
    else ok (minus_one, out)

-- `int`, `float` (its bits), `const char*` (the memory it points to) and std::string.
pub data Param : Type 0 where
  int_param float_param : ℕ → Param
  chars_param string_param : List ℕ → Param

unfoldable pub pack_param : Param → List ℕ → Run (ℕ × List ℕ)
unfolding serialize
pack_param (int_param x) out = serialize (put_u32 x) out int_type
pack_param (float_param x) out = serialize (put_u32 x) out float_type
pack_param (chars_param s) out = serialize s out string_type
pack_param (string_param s) out = serialize (s ++ 0 ∷ []) out string_type

unfoldable pub pack_params : List Param → List ℕ → Run (ℕ × List ℕ)
pack_params [] out = ok (0, out)
pack_params (p ∷ ps) out = do
  (offset, out') ← pack_param p out
  (count, rest) ← pack_params ps (drop offset out')
  ok (offset + count, take offset out' ++ rest)

-- ParseParam: each type with the memory at its `Out`. After an unknown type the next value would
-- be read in front of the buffer.
unfoldable pub parse_params : List ℕ → List (List ℕ × List ℕ) → Run (List (List ℕ))
parse_params input [] = ok []
parse_params input ((type, out) ∷ slots) = do
  (offset, out') ← deserialize input out type
  rest ← if offset == minus_one then faults else parse_params (drop offset input) slots
  ok (out' ∷ rest)

-- What the program uses of a protobuf message type: its wire form, and the message that
-- ParseFromString leaves. The law is protobuf's own.
pub record Codec (A : Type 0) : Type 0 where
  pub serialize_as_string : A → List ℕ
  pub parse_from_string : List ℕ → A
  pub parse-serialize : (a : A) → parse_from_string (serialize_as_string a) ≡ a

-- `char data[4096]`: it holds anything at first, and strcpy ends what is read of it.
unfoldable pub scratch : List ℕ
scratch = replicate 4096 0

module _ {A : Type 0} (codec : Codec A) where
  unfoldable pub pack_proto_struct : List ℕ → A → Run (ℕ × List ℕ)
  unfolding pack_param
  pack_proto_struct out a = pack_param (string_param (codec.serialize_as_string a)) out

  unfoldable pub parse_proto_struct : List ℕ → Run A
  unfolding deserialize
  parse_proto_struct input = do
    (_, buf) ← deserialize input scratch string_type
    s ← c_str buf
    ok (codec.parse_from_string s)

  -- `res` is what the uninitialised local holds.
  unfoldable pub to_rpc_result : RpcResult → A → Run RpcResult
  to_rpc_result res output = do
    (size, buf) ← pack_proto_struct res.return_buffer output
    if ltb size max_rpc_return_value then ok (record res { return_buffer = buf }) else aborts
