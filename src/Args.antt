-- ===== src/Args.antt =====
-- source/common/ArgsParser.cc: options of the command line. An argument is its bytes up to the zero
-- byte, and argv[0] is the name of the program.
pub mod First
mod Tests
use dreamboat_rpc.Prelude.{
  ℕ, zero, suc, ◌+◌, ◌-◌, ◌*◌, ◌^◌, List, [], ◌∷◌, Bool, true, false, ◌&&◌, ◌||◌, ltb, leb, ◌==◌,
  if◌then◌else◌, Option, none, some, length, drop,
}
use dreamboat_rpc.Run.{Run, ok, faults, ◌>>=◌}
use dreamboat_rpc.Memory.{minus_one}

-- strncmp(argv[i], flag, strlen(flag)) == 0
unfoldable pub starts_with : List ℕ → List ℕ → Bool
starts_with s [] = true
starts_with [] (b ∷ flag) = false
starts_with (a ∷ s) (b ∷ flag) = a == b && starts_with s flag

-- The loops of both functions, from argv[i] on: the value behind the flag.
unfoldable pub find_flag : List (List ℕ) → List ℕ → Option (List ℕ)
find_flag [] flag = none
find_flag (arg ∷ args) flag =
    if starts_with arg flag then some (drop (length flag) arg) else find_flag args flag

-- `none` is the null pointer.
unfoldable pub parse_str : List (List ℕ) → List ℕ → Option (List ℕ)
parse_str [] flag = none
parse_str (program ∷ args) flag = find_flag args flag

abbrev pub is_digit : ℕ → Bool
is_digit b = leb b'0' b && leb b b'9'

-- atoi: white space, a sign, and digits; a value that is no `int` is undefined behaviour.
unfoldable pub digits : ℕ → List ℕ → ℕ
digits value [] = value
digits value (b ∷ s) =
    let rest = digits (value * 10 + (b - b'0')) s in if is_digit b then rest else value

unfoldable pub signed : List ℕ → Run ℕ
signed [] = ok 0
signed (b ∷ s) =
    let value = digits 0 (if b == b'-' || b == b'+' then s else b ∷ s) in
    if b == b'-'
    then (if leb value (2 ^ 31) then ok (if value == 0 then 0 else 2 ^ 32 - value) else faults)
    else if ltb value (2 ^ 31)
    then ok value
    else faults

unfoldable pub atoi : List ℕ → Run ℕ
atoi [] = signed []
atoi (b ∷ s) =
    let rest = atoi s in if b == 32 || (leb 9 b && leb b 13) then rest else signed (b ∷ s)

-- -1 if there is no such option.
unfoldable pub int_or_none : Option (List ℕ) → Run ℕ
int_or_none none = ok minus_one
int_or_none (some value) = atoi value

unfoldable pub parse_int : List (List ℕ) → List ℕ → Run ℕ
parse_int [] flag = ok minus_one
parse_int (program ∷ args) flag = int_or_none (find_flag args flag)
