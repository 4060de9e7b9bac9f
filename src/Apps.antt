-- ===== src/Apps.antt =====
-- source/apps/Server.cc and source/apps/Client.cc: the options of the two programs, and the requests of the
-- client. `rand k` is what the k-th call of std::rand gives.
pub mod Start
pub mod Load
pub mod Cipher
pub mod Serve
mod Tests
use dreamboat_rpc.Prelude.{
  ℕ, zero, suc, ◌+◌, ◌-◌, ◌%◌, List, [], ◌∷◌, ◌++◌, map, Bool, true, false, ◌==◌, ◌&&◌, ◌||◌, ltb,
  leb, if◌then◌else◌, Option, none, some,
}
use dreamboat_rpc.Run.{Run, ok, aborts, out_of_fuel, ◌>>=◌, or_fault}
use dreamboat_rpc.Memory.{minus_one}
use dreamboat_rpc.Args.{parse_str, parse_int}
use dreamboat_rpc.Kv.{GetValueReq, SetValueReq}

abbrev pub namesvr_ip_flag : List ℕ
namesvr_ip_flag =
    b'-' ∷ b'n' ∷ b'a' ∷ b'm' ∷ b'e' ∷ b's' ∷ b'v' ∷ b'r' ∷ b'_' ∷ b'i' ∷ b'p' ∷ b'=' ∷ []

abbrev pub namesvr_port_flag : List ℕ
namesvr_port_flag =
    b'-' ∷ b'n' ∷ b'a' ∷ b'm' ∷ b'e' ∷ b's' ∷ b'v' ∷ b'r' ∷ b'_' ∷ b'p' ∷ b'o' ∷ b'r' ∷ b't' ∷ b'='
    ∷ []

abbrev pub ip_flag : List ℕ
ip_flag = b'-' ∷ b'i' ∷ b'p' ∷ b'=' ∷ []

abbrev pub port_flag : List ℕ
port_flag = b'-' ∷ b'p' ∷ b'o' ∷ b'r' ∷ b't' ∷ b'=' ∷ []

abbrev pub log_flag : List ℕ
log_flag = b'-' ∷ b'l' ∷ b'o' ∷ b'g' ∷ b'=' ∷ []

abbrev pub localhost : List ℕ
localhost = b'l' ∷ b'o' ∷ b'c' ∷ b'a' ∷ b'l' ∷ b'h' ∷ b'o' ∷ b's' ∷ b't' ∷ []

abbrev pub server_log : List ℕ
server_log = b's' ∷ b'e' ∷ b'r' ∷ b'v' ∷ b'e' ∷ b'r' ∷ b'.' ∷ b'l' ∷ b'o' ∷ b'g' ∷ []

abbrev pub log_directory : List ℕ
log_directory = b'l' ∷ b'o' ∷ b'g' ∷ b'/' ∷ []

-- RpcServer::Options
pub record ServerOptions : Type 0 where
  pub namesvr_ip_addr : List ℕ
  pub namesvr_port : ℕ
  pub ip_addr : List ℕ
  pub port : ℕ
  pub log_path : List ℕ

abbrev pub or_else : Option (List ℕ) → List ℕ → List ℕ
or_else none default = default
or_else (some value) default = value

-- GetOptions of the server: the string of a null pointer is undefined behaviour.
unfoldable pub server_options : List (List ℕ) → Run ServerOptions
server_options argv = do
  let namesvr_ip = parse_str argv namesvr_ip_flag
  namesvr_port ← parse_int argv namesvr_port_flag
  let ip = parse_str argv ip_flag
  port ← parse_int argv port_flag
  let log_path = parse_str argv log_flag
  namesvr_ip_addr ← or_fault namesvr_ip
  ok (record {
    namesvr_ip_addr = namesvr_ip_addr;
    namesvr_port = namesvr_port;
    ip_addr = or_else ip localhost;
    port = if port == minus_one then 8888 else port;
    log_path = log_directory ++ or_else log_path server_log;
  })

-- GetOptions of the client: without an address or a port it prints its usage and ends.
unfoldable pub client_address : Option (List ℕ) → ℕ → Run (List ℕ × ℕ)
client_address none port = aborts
client_address (some ip) port = if port == minus_one then aborts else ok (ip, port)

unfoldable pub client_options : List (List ℕ) → Run (List ℕ × ℕ)
unfolding client_address
client_options argv = do
  port ← parse_int argv port_flag
  client_address (parse_str argv ip_flag) port

-- The values of `i` in the loops of crazy_read and crazy_write, from the k-th call of rand on.
unfoldable pub crazy_ids : ℕ → (ℕ → ℕ) → ℕ → ℕ → Run (List ℕ)
crazy_ids zero rand k i = out_of_fuel
crazy_ids (suc fuel) rand k i =
    let rest = crazy_ids fuel rand (k + 1) (i + rand k % 100) in
    if ltb i 10000 then (rest >>= λ ids. ok (i ∷ ids)) else ok []

-- The text of the i-th request: small letters move on in the alphabet.
unfoldable pub shifted : ℕ → ℕ → ℕ
shifted i ch = if leb b'a' ch && leb ch b'z' then b'a' + (ch + i - b'a') % 26 else ch

unfoldable pub coded : ℕ → List ℕ → List ℕ
unfolding shifted
coded i [] = []
coded i (ch ∷ s) = shifted i ch ∷ coded i s

abbrev pub russia : List ℕ
russia =
    b'I' ∷ b' ' ∷ b'c' ∷ b'a' ∷ b'n' ∷ b' ' ∷ b's' ∷ b'e' ∷ b'e' ∷ b' ' ∷ b'R' ∷ b'u' ∷ b's' ∷ b's'
    ∷ b'i' ∷ b'a' ∷ b' ' ∷ b'f' ∷ b'r' ∷ b'o' ∷ b'm' ∷ b' ' ∷ b'm' ∷ b'y' ∷ b' ' ∷ b'h' ∷ b'o'
    ∷ b'u' ∷ b's' ∷ b'e' ∷ b'!' ∷ []

unfoldable pub crazy_read : ℕ → (ℕ → ℕ) → Run (List GetValueReq)
unfolding crazy_ids
crazy_read fuel rand = do ids ← crazy_ids fuel rand 0 0; ok (map (λ i. record { id = i }) ids)

unfoldable pub crazy_write : ℕ → (ℕ → ℕ) → Run (List SetValueReq)
unfolding crazy_ids coded
crazy_write fuel rand = do
  ids ← crazy_ids fuel rand 0 0
  ok (map (λ i. record { id = i; name = coded i russia }) ids)
