-- ===== src/Params/RoundTrip.antt =====
-- Parameters come back from the buffer that they were packed into.
use mathlib.Core.List.{append_assoc, append-nil}
use dreamboat_rpc.Prelude.{
  ℕ, ◌+◌, ◌≤◌, ◌<◌, ◌≡◌, refl, ◌∙◌, List, [], ◌∷◌, ◌++◌, map, false, arith, ◌==◌, length, drop,
  replicate, length-append, length-drop, take-append, drop-append, length-replicate, drop-drop,
  drop-all,
}
use dreamboat_rpc.Run.{ok, ◌>>=◌}
use dreamboat_rpc.Memory.{str_eq, put_u32, minus_one}
use dreamboat_rpc.Memory.Laws.{IsText, load-append, c_str-append, store_front, strcpy_front}
use dreamboat_rpc.Params.{
  Param, int_param, float_param, chars_param, string_param, int_type, float_type, string_type,
  copy_word, copy_text, deserialize, pack_param, pack_params, parse_params,
}

-- What a parameter is on the wire, and its type.
abbrev pub wire : Param → List ℕ
wire (int_param x) = put_u32 x
wire (float_param x) = put_u32 x
wire (chars_param s) = s
wire (string_param s) = s ++ 0 ∷ []

abbrev pub type_of : Param → List ℕ
type_of (int_param x) = int_type
type_of (float_param x) = float_type
type_of (chars_param s) = string_type
type_of (string_param s) = string_type

-- Texts have no zero byte but the one at their end.
abbrev pub IsParam : Param → Type 0
IsParam (int_param x) = Unit {0}
IsParam (float_param x) = Unit {0}
IsParam (chars_param s) = (t : List ℕ) × (s ≡ t ++ 0 ∷ []) × IsText t
IsParam (string_param s) = IsText s

-- The string case, for a text that ends where it says.
pub text_size : (s : List ℕ) → length (s ++ 0 ∷ []) ≡ length s + 1
text_size s = length-append s (0 ∷ []) ∙ omega arith

word_front :
    (x : ℕ) (rest out : List ℕ)
    → 4 ≤ length out
    → copy_word (put_u32 x ++ rest) out ≡ ok (4, put_u32 x ++ drop 4 out)
unfolding copy_word
word_front x rest out h = rw (load-append (put_u32 x) rest 4 refl, store_front out (put_u32 x) h)

text_front :
    (s rest out : List ℕ)
    → IsText s
    → length (s ++ 0 ∷ []) ≤ length out
    → copy_text (s ++ 0 ∷ [] ++ rest) out
      ≡ ok (length (s ++ 0 ∷ []), s ++ 0 ∷ [] ++ drop (length (s ++ 0 ∷ [])) out)
unfolding copy_text
text_front s rest out t h = rw (
  append_assoc s (0 ∷ []) rest,
  text_size s,
  strcpy_front out s rest t (omega (arith, text_size s)),
  c_str-append s rest t,
)

-- A parameter in front of anything is read back as its wire form.
pub deserialize-wire :
    (p : Param) (rest out : List ℕ)
    → IsParam p
    → length (wire p) ≤ length out
    → deserialize (wire p ++ rest) out (type_of p)
      ≡ ok (length (wire p), wire p ++ drop (length (wire p)) out)
unfolding deserialize str_eq
deserialize-wire (int_param x) rest out v h = word_front x rest out h
deserialize-wire (float_param x) rest out v h = word_front x rest out h
deserialize-wire (chars_param s) rest out (t, e, v) h = rw e (text_front t rest out v (rw e at h))
deserialize-wire (string_param s) rest out v h = text_front s rest out v h

-- A parameter is packed as its wire form.
pub pack_param-wire :
    (p : Param) (out : List ℕ)
    → IsParam p
    → length (wire p) ≤ length out
    → pack_param p out ≡ ok (length (wire p), wire p ++ drop (length (wire p)) out)
unfolding pack_param str_eq
pack_param-wire (int_param x) out v h = word_front x [] out h
pack_param-wire (float_param x) out v h = word_front x [] out h
pack_param-wire (chars_param s) out (t, e, v) h =
    rw e (rw (append-nil (t ++ 0 ∷ [])) at (text_front t [] out v (rw e at h)))
pack_param-wire (string_param s) out v h =
    rw (append-nil (s ++ 0 ∷ [])) at (text_front s [] out v h)

-- The wire form of a variadic call.
unfoldable pub wires : List Param → List ℕ
wires [] = []
wires (p ∷ ps) = wire p ++ wires ps

abbrev pub AreParams : List Param → Type 0
AreParams [] = Unit {0}
AreParams (p ∷ ps) = IsParam p × AreParams ps

-- PackParam of values that fit the buffer together, and whose texts have no zero byte but the
-- last, writes their wire forms one behind the other at its front, and returns their length.
pub pack_params-wires :
    (ps : List Param) (out : List ℕ)
    → AreParams ps
    → length (wires ps) ≤ length out
    → pack_params ps out ≡ ok (length (wires ps), wires ps ++ drop (length (wires ps)) out)
unfolding pack_params wires
pack_params-wires [] out v h = refl
pack_params-wires (p ∷ ps) out v h =
    let n = length (wire p) in
    let rest = drop n out in
    let whole = length-append (wire p) (wires ps) in
    rw (
      pack_param-wire p out v.0 (omega (arith, whole)),
      take-append n (wire p) rest refl,
      drop-append n (wire p) rest refl,
      pack_params-wires ps rest v.1 (omega (arith, whole, length-drop n out)),
      whole,
      drop-drop n (length (wires ps)) out,
      append_assoc,
    )

-- Memory of the right sizes for the values.
abbrev pub slots : List Param → List (List ℕ × List ℕ)
slots = map (λ p. (type_of p, replicate (length (wire p)) 0))

-- ParseParam, called with the types of parameters whose texts have no zero byte but the last, and
-- memory of their sizes, gives their wire forms back in order, with anything behind them in the
-- buffer.
pub parse_params-wires :
    (ps : List Param) (rest : List ℕ)
    → AreParams ps
    → length (wires ps) < minus_one
    → parse_params (wires ps ++ rest) (slots ps) ≡ ok (map wire ps)
unfolding parse_params wires
parse_params-wires [] rest v h = refl
parse_params-wires (p ∷ ps) rest v h =
    let n = length (wire p) in
    let blank : List ℕ = replicate n 0 in
    let whole = length-append (wire p) (wires ps) in
    let size : length blank ≡ n = length-replicate n 0 in
    let fits : length (wire p) ≤ length blank = omega arith in
    let exact : drop n blank ≡ [] = drop-all n blank size in
    let known : (n == minus_one) ≡ false = ground (arith, whole) in
    rw (
      append_assoc (wire p) (wires ps) rest,
      deserialize-wire p (wires ps ++ rest) blank v.0 fits,
      known,
      drop-append n (wire p) (wires ps ++ rest) refl,
      parse_params-wires ps rest v.1 (omega (arith, whole)),
      exact,
      append-nil,
    )

-- Parameters that fit the buffer together, and whose texts have no zero byte but the last, come
-- back: ParseParam, called with their types and memory of their sizes on what PackParam has
-- written, and anything behind it, gives the value of each, in order, as its bytes.
pub parse_params-pack_params :
    (ps : List Param) (out rest : List ℕ)
    → AreParams ps
    → length (wires ps) ≤ length out
    → length (wires ps) < minus_one
    → (pack_params ps out >>= λ (n, buf). parse_params (buf ++ rest) (slots ps)) ≡ ok (map wire ps)
parse_params-pack_params ps out rest v fits small = rw (
  pack_params-wires ps out v fits,
  append_assoc (wires ps) (drop (length (wires ps)) out) rest,
  parse_params-wires ps (drop (length (wires ps)) out ++ rest) v small,
)
