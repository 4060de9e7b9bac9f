-- ===== src/Format.antt =====
-- The formatted printing of the C library, with the conversions that the program uses: %d, %s and %%.
-- For source/common/Logger.cc, source/server/ServiceReporter.cc, source/client/ServiceDiscoverer.cc.
pub mod Plain
pub mod Decimal
mod Tests
use dreamboat_rpc.Prelude.{
  ℕ, zero, suc, ◌+◌, ◌-◌, ◌/◌, ◌%◌, ◌^◌, List, [], ◌∷◌, ◌++◌, ◌==◌, ltb, if◌then◌else◌, take,
}
use dreamboat_rpc.Run.{Run, ok, faults, ◌>>=◌}

-- The digits of a number below 10 ^ fuel.
unfoldable pub decimal : ℕ → ℕ → List ℕ
decimal zero n = []
decimal (suc fuel) n =
    let rest = decimal fuel (n / 10) in
    if ltb n 10 then (b'0' + n) ∷ [] else rest ++ (b'0' + n % 10) ∷ []

-- An int has ten digits at most.
unfoldable pub int_text : ℕ → List ℕ
int_text n = if ltb n (2 ^ 31) then decimal 10 n else b'-' ∷ decimal 10 (2 ^ 32 - n)

pub data Arg : Type 0 where
  int : ℕ → Arg
  text : List ℕ → Arg

-- A conversion without an argument of its kind, or an unknown one, is undefined behaviour.
unfoldable pub convert : ℕ → List Arg → (List Arg → Run (List ℕ)) → Run (List ℕ)
convert c [] next = if c == b'%' then (next [] >>= λ out. ok (c ∷ out)) else faults
convert c (int n ∷ args) next =
    if c == b'%'
    then (next (int n ∷ args) >>= λ out. ok (c ∷ out))
    else if c == b'd'
    then (next args >>= λ out. ok (int_text n ++ out))
    else faults
convert c (text s ∷ args) next =
    if c == b'%'
    then (next (text s ∷ args) >>= λ out. ok (c ∷ out))
    else if c == b's'
    then (next args >>= λ out. ok (s ++ out))
    else faults

unfoldable pub format : List ℕ → List Arg → Run (List ℕ)
unfolding convert
format [] args = ok []
format (b ∷ []) args = if b == b'%' then faults else ok (b ∷ [])
format (b ∷ c ∷ f) args =
    let plain = format (c ∷ f) args in
    let after : List Arg → Run (List ℕ) = λ rest. format f rest in
    if b == b'%' then convert c args after else (plain >>= λ out. ok (b ∷ out))

-- snprintf into a buffer of `size` bytes, the last one for the zero byte.
unfoldable pub snprintf : ℕ → List ℕ → List Arg → Run (List ℕ)
unfolding format
snprintf size f args = do out ← format f args; ok (take (size - 1) out)
