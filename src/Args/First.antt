-- ===== src/Args/First.antt =====
-- Which argument an option is read from.
use dreamboat_rpc.Prelude.{
  ℕ, ◌≡◌, refl, List, [], ◌∷◌, ◌++◌, true, false, arith, none, some, length, drop-append,
}
use dreamboat_rpc.Args.{starts_with, find_flag, parse_str}

-- No argument of these has the flag in front.
abbrev pub Lack : List (List ℕ) → List ℕ → Type 0
Lack [] flag = Unit {0}
Lack (arg ∷ args) flag = (starts_with arg flag ≡ false) × Lack args flag

starts_with-concat : (flag value : List ℕ) → starts_with (flag ++ value) flag ≡ true
unfolding starts_with
starts_with-concat [] value = refl
starts_with-concat (b ∷ flag) value = ground (arith, starts_with-concat flag value)

find_flag-Lack :
    (args : List (List ℕ)) (flag : List ℕ) → Lack args flag → find_flag args flag ≡ none
unfolding find_flag
find_flag-Lack [] flag l = refl
find_flag-Lack (arg ∷ args) flag (lacks, l) = rw lacks (find_flag-Lack args flag l)

find_flag-first :
    (before after : List (List ℕ)) (flag value : List ℕ)
    → Lack before flag
    → find_flag (before ++ (flag ++ value) ∷ after) flag ≡ some value
unfolding find_flag
find_flag-first [] after flag value l =
    rw (starts_with-concat flag value, drop-append (length flag) flag value refl)
find_flag-first (arg ∷ before) after flag value (lacks, l) =
    rw lacks (find_flag-first before after flag value l)

-- Behind arguments none of which begins with the flag, the first that does gives the option's
-- value, what follows the flag in it; without one the option is absent. The name of the program is
-- passed over.
pub parse_str-first :
    (program : List ℕ) (before after : List (List ℕ)) (flag value : List ℕ)
    → Lack before flag
    → (parse_str (program ∷ before ++ (flag ++ value) ∷ after) flag ≡ some value)
      × (parse_str (program ∷ before) flag ≡ none)
unfolding parse_str
parse_str-first program before after flag value l =
    (find_flag-first before after flag value l, find_flag-Lack before flag l)
