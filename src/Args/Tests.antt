-- ===== src/Args/Tests.antt =====
-- Options of a command line.
use dreamboat_rpc.Prelude.{ℕ, ◌≡◌, refl, List, [], ◌∷◌}
use dreamboat_rpc.Run.{ok}
use dreamboat_rpc.Args.{starts_with, find_flag, parse_int, int_or_none, atoi, signed, digits}

abbrev ip_flag : List ℕ
ip_flag = b'i' ∷ b'=' ∷ []

abbrev server : List ℕ
server = b's' ∷ []

abbrev port : List ℕ
port = b'p' ∷ b'=' ∷ b'8' ∷ b'0' ∷ []

port_value : parse_int (server ∷ port ∷ []) (b'p' ∷ b'=' ∷ []) ≡ ok 80
unfolding parse_int find_flag starts_with int_or_none atoi signed digits
port_value = refl
