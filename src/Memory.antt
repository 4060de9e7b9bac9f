-- ===== src/Memory.antt =====
-- What the code does with raw memory: memcpy and strcpy between buffers of known sizes, strlen,
-- strcmp, and little-endian `int` and `short`. An access past the end of a buffer faults.
-- A byte is a number below 256, and an `int` its 32-bit pattern, so -1 is `minus_one`.
pub mod Laws
use dreamboat_rpc.Prelude.{
  ℕ, zero, suc, ◌+◌, ◌-◌, ◌*◌, ◌/◌, ◌%◌, ◌^◌, List, [], ◌∷◌, ◌++◌, Bool, true, false, ◌&&◌, leb,
  ltb, ◌==◌, if◌then◌else◌, length, take, drop, at,
}
use dreamboat_rpc.Run.{Run, ok, faults, ◌>>=◌}

abbrev pub minus_one : ℕ
minus_one = 2 ^ 32 - 1

-- An `int` given where a `size_t` is wanted: a negative one becomes huge.
abbrev pub to_size : ℕ → ℕ
to_size x = if ltb x (2 ^ 31) then x else x + (2 ^ 64 - 2 ^ 32)

-- `int` addition of a count of bytes.
abbrev pub add_int : ℕ → ℕ → ℕ
add_int a b = (a + b) % 2 ^ 32

-- memcpy of `n` bytes out of a buffer, and of bytes to an offset of a buffer.
unfoldable pub load : ℕ → List ℕ → Run (List ℕ)
load n buf = if leb n (length buf) then ok (take n buf) else faults

unfoldable pub store : List ℕ → ℕ → List ℕ → Run (List ℕ)
store buf off bytes =
    if leb (off + length bytes) (length buf)
    then ok (take off buf ++ bytes ++ drop (off + length bytes) buf)
    else faults

-- The text up to the first zero byte; a buffer without one is read past its end.
unfoldable pub c_str : List ℕ → Run (List ℕ)
c_str [] = faults
c_str (b ∷ buf) = let rest = c_str buf >>= λ s. ok (b ∷ s) in if b == 0 then ok [] else rest

-- strcpy, for a source that ends in a zero byte.
unfoldable pub strcpy : List ℕ → ℕ → List ℕ → Run (List ℕ)
unfolding store
strcpy buf off source = do s ← c_str source; store buf off (s ++ 0 ∷ [])

-- strcmp(a, b) == 0, and equality of std::strings
unfoldable pub str_eq : List ℕ → List ℕ → Bool
str_eq [] [] = true
str_eq (a ∷ s) (b ∷ t) = a == b && str_eq s t
str_eq _ _ = false

abbrev pub put_u16 : ℕ → List ℕ
put_u16 x = (x % 256) ∷ (x / 256 % 256) ∷ []

abbrev pub put_u32 : ℕ → List ℕ
put_u32 x = (x % 256) ∷ (x / 256 % 256) ∷ (x / 65536 % 256) ∷ (x / 16777216 % 256) ∷ []

abbrev pub get_u16 : List ℕ → ℕ → ℕ
get_u16 buf i = at buf i + 256 * at buf (i + 1)

abbrev pub get_u32 : List ℕ → ℕ → ℕ
get_u32 buf i = at buf i + 256 * at buf (i + 1) + 65536 * at buf (i + 2) + 16777216 * at buf (i + 3)
