-- ===== src/Params/Struct.antt =====
-- Protobuf messages through the parameter buffers: what arrives, what is cut off, and what a result
-- that does not fit does.
use mathlib.Core.List.{append_assoc}
use dreamboat_rpc.Prelude.{
  ℕ, zero, suc, ◌+◌, ◌≤◌, ◌<◌, ◌≡◌, refl, ap, ◌∙◌, List, [], ◌∷◌, ◌++◌, arith, length, take, drop,
  length-append, length-drop, take-append, length-replicate, lt→ltb, le→ltb,
}
use dreamboat_rpc.Run.{ok, aborts, faults, ◌>>=◌, Returns, returns}
use dreamboat_rpc.Memory.{strcpy, c_str, str_eq}
use dreamboat_rpc.Memory.Laws.{IsText, c_str-append, store_front, strcpy_front, store-faults}
use dreamboat_rpc.Params.RoundTrip.{text_size}
use dreamboat_rpc.Packet.{RpcResult, max_rpc_return_value}
use dreamboat_rpc.Params.{
  copy_text, Codec, scratch, pack_proto_struct, parse_proto_struct, to_rpc_result,
}

-- The bytes in front of the first zero byte.
abbrev pub before_zero : List ℕ → List ℕ
before_zero [] = []
before_zero (zero ∷ s) = []
before_zero (suc b ∷ s) = suc b ∷ before_zero s

before_zero-IsText : (s : List ℕ) → IsText (before_zero s)
before_zero-IsText [] = tt
before_zero-IsText (zero ∷ s) = tt
before_zero-IsText (suc b ∷ s) = (ground arith, before_zero-IsText s)

pub before_zero-of_text : (s : List ℕ) → IsText s → before_zero s ≡ s
before_zero-of_text [] t = refl
before_zero-of_text (zero ∷ s) t = absurd (t.0 refl)
before_zero-of_text (suc b ∷ s) t = ap (◌∷◌ (suc b)) (before_zero-of_text s t.1)

c_str-before_zero : (s : List ℕ) → c_str (s ++ 0 ∷ []) ≡ ok (before_zero s)
unfolding c_str
c_str-before_zero [] = refl
c_str-before_zero (zero ∷ s) = refl
c_str-before_zero (suc b ∷ s) = ground (arith, c_str-before_zero s)

length-scratch : length scratch ≡ 4096
unfolding scratch
length-scratch = length-replicate {A = ℕ} 4096 0

module _ {A : Type 0} (codec : Codec A) where
  open codec use {serialize_as_string, parse_from_string, parse-serialize}

  abbrev sent : A → List ℕ
  sent a = before_zero (serialize_as_string a)

  -- PackProtoStruct writes the wire form up to its first zero byte, and one more zero byte.
  pub pack_proto_struct-before_zero :
      (out : List ℕ) (a : A)
      → length (sent a) + 1 ≤ length out
      → pack_proto_struct codec out a
        ≡ ok (length (sent a) + 1, sent a ++ 0 ∷ [] ++ drop (length (sent a) + 1) out)
  unfolding pack_proto_struct copy_text str_eq strcpy
  pack_proto_struct-before_zero out a h =
      let size = text_size (sent a) in
      rw (
        c_str-before_zero (serialize_as_string a),
        store_front out (sent a ++ 0 ∷ []) (omega (arith, size)),
        size,
      )

  -- Where the wire form up to its first zero byte, and one byte more, do not fit the buffer,
  -- PackProtoStruct writes past its end.
  pub pack_proto_struct-faults :
      (out : List ℕ) (a : A)
      → length out < length (sent a) + 1
      → pack_proto_struct codec out a ≡ faults
  unfolding pack_proto_struct copy_text str_eq strcpy
  pack_proto_struct-faults out a h = rw (
    c_str-before_zero (serialize_as_string a),
    store-faults out 0 (sent a ++ 0 ∷ []) (omega (arith, text_size (sent a))),
  )

  -- ParseProtoStruct of a text and a zero byte, with anything behind.
  pub parse_proto_struct-text :
      (s rest : List ℕ)
      → IsText s
      → length s < 4096
      → parse_proto_struct codec (s ++ 0 ∷ rest) ≡ ok (parse_from_string s)
  unfolding parse_proto_struct copy_text str_eq
  parse_proto_struct-text s rest t h =
      let room : length s + 1 ≤ length scratch = omega (arith, length-scratch) in
      rw (
        strcpy_front scratch s rest t room,
        c_str-append s rest t,
        append_assoc s (0 ∷ []) (drop (length s + 1) scratch),
        c_str-append s (drop (length s + 1) scratch) t,
      )

  -- A message is cut off at the first zero byte of its wire form: where the bytes in front of it
  -- fit the buffer and the scratch of the receiver, the receiver parses just these.
  pub proto_struct_cut :
      (out rest : List ℕ) (a : A)
      → length (sent a) + 1 ≤ length out
      → length (sent a) < 4096
      → (pack_proto_struct codec out a >>= λ (n, buf).
          parse_proto_struct codec (take n buf ++ rest))
        ≡ ok (parse_from_string (sent a))
  proto_struct_cut out rest a room small = rw (
    pack_proto_struct-before_zero out a room,
    take-append (length (sent a) + 1) (sent a ++ 0 ∷ []) (drop (length (sent a) + 1) out)
        (text_size (sent a)),
    append_assoc (sent a) (0 ∷ []) rest,
    parse_proto_struct-text (sent a) rest (before_zero-IsText (serialize_as_string a)) small,
  )

  -- A message whose wire form has no zero byte, fits the buffer with one more byte, and is shorter
  -- than 4096 bytes arrives whole, with anything behind it.
  pub proto_struct_arrives :
      (out rest : List ℕ) (a : A)
      → IsText (serialize_as_string a)
      → length (serialize_as_string a) + 1 ≤ length out
      → length (serialize_as_string a) < 4096
      → (pack_proto_struct codec out a >>= λ (n, buf).
          parse_proto_struct codec (take n buf ++ rest))
        ≡ ok a
  proto_struct_arrives out rest a t room small =
      let whole = before_zero-of_text (serialize_as_string a) t in
      proto_struct_cut out rest a (rw whole room) (rw whole small)
      ∙ ap ok (ap parse_from_string whole ∙ parse-serialize a)

  -- ToRpcResult of a message without a zero byte in its wire form: a wire form of up to 478 bytes
  -- is a result that parses back to the message; one of 479 bytes fails the assertion; a longer
  -- one has overflowed the buffer before the assertion.
  pub to_rpc_result-sizes :
      (res : RpcResult) (a : A)
      → IsText (serialize_as_string a)
      → length res.return_buffer ≡ max_rpc_return_value
      → (length (serialize_as_string a) < 479
          → Returns
              (λ r.
                (parse_proto_struct codec r.return_buffer ≡ ok a)
                × (length r.return_buffer ≡ max_rpc_return_value))
              (to_rpc_result codec res a))
        × (length (serialize_as_string a) ≡ 479 → to_rpc_result codec res a ≡ aborts)
        × (479 < length (serialize_as_string a) → to_rpc_result codec res a ≡ faults)
  unfolding to_rpc_result
  to_rpc_result-sizes res a t size = (
    λ short.
        let n = length (serialize_as_string a) in
        rw (packed (omega arith), lt→ltb (n + 1) max_rpc_return_value (omega arith))
          (returns (
            rw append_assoc (
                parse_proto_struct-text (serialize_as_string a) _ t (omega arith)
                ∙ ap ok (parse-serialize a)),
            fits (omega arith),
          )),
    λ edge. rw (
      packed (omega arith),
      le→ltb (length (serialize_as_string a) + 1) max_rpc_return_value (omega arith),
    ),
    λ long. rw (pack_proto_struct-faults res.return_buffer a (rw whole (omega arith))),
  )
    where
      whole : sent a ≡ serialize_as_string a
      whole = before_zero-of_text (serialize_as_string a) t

      packed :
          length (serialize_as_string a) + 1 ≤ length res.return_buffer
          → pack_proto_struct codec res.return_buffer a
            ≡ ok (
              length (serialize_as_string a) + 1,
              serialize_as_string a
                  ++ 0 ∷ []
                  ++ drop (length (serialize_as_string a) + 1) res.return_buffer,
            )
      packed room = rw whole at (pack_proto_struct-before_zero res.return_buffer a (rw whole room))

      fits :
          length (serialize_as_string a) + 1 ≤ length res.return_buffer
          → length (
              serialize_as_string a
              ++ 0 ∷ []
              ++ drop (length (serialize_as_string a) + 1) res.return_buffer)
            ≡ max_rpc_return_value
      fits room = omega (
        arith,
        length-append (serialize_as_string a ++ 0 ∷ [])
            (drop (length (serialize_as_string a) + 1) res.return_buffer),
        text_size (serialize_as_string a),
        length-drop (length (serialize_as_string a) + 1) res.return_buffer,
      )
