-- ===== src/Apps/Start.antt =====
-- What the programs take from their command lines.
use dreamboat_rpc.Prelude.{
  ℕ, ◌≡◌, ◌≢◌, refl, List, ◌++◌, true, false, ◌==◌, if◌then◌else◌, Option, none, some, arith,
}
use dreamboat_rpc.Run.{ok, aborts, faults}
use dreamboat_rpc.Memory.{minus_one}
use dreamboat_rpc.Args.{parse_str, parse_int}
use dreamboat_rpc.Apps.{
  server_options, client_options, client_address, or_else, namesvr_ip_flag, namesvr_port_flag,
  ip_flag, port_flag, log_flag, localhost, server_log, log_directory,
}

-- The server's options.
pub server_options-defaults :
    (argv : List (List ℕ)) (namesvr_port port : ℕ)
    → parse_int argv namesvr_port_flag ≡ ok namesvr_port
    → parse_int argv port_flag ≡ ok port
    → (parse_str argv namesvr_ip_flag ≡ none → server_options argv ≡ faults)
      × ((namesvr_ip : List ℕ)
          → parse_str argv namesvr_ip_flag ≡ some namesvr_ip
          → server_options argv
            ≡ ok (record {
              namesvr_ip_addr = namesvr_ip;
              namesvr_port = namesvr_port;
              ip_addr = or_else (parse_str argv ip_flag) localhost;
              port = if port == minus_one then 8888 else port;
              log_path = log_directory ++ or_else (parse_str argv log_flag) server_log;
            }))
unfolding server_options
server_options-defaults argv namesvr_port port e f =
    (λ absent. rw (e, f, absent), λ namesvr_ip there. rw (e, f, there))

no_port : (ip : Option (List ℕ)) (port : ℕ) → port ≡ minus_one → client_address ip port ≡ aborts
unfolding client_address
no_port none port e = refl
no_port (some ip) port e = let same : (port == minus_one) ≡ true = ground arith in rw same

-- The client's.
pub client_options-both :
    (argv : List (List ℕ)) (port : ℕ)
    → parse_int argv port_flag ≡ ok port
    → (parse_str argv ip_flag ≡ none → client_options argv ≡ aborts)
      × (port ≡ minus_one → client_options argv ≡ aborts)
      × ((ip : List ℕ)
          → parse_str argv ip_flag ≡ some ip
          → port ≢ minus_one
          → client_options argv ≡ ok (ip, port))
unfolding client_options client_address
client_options-both argv port e = (
  λ absent. rw (e, absent),
  λ same. rw e (no_port (parse_str argv ip_flag) port same),
  λ ip there ne. let other : (port == minus_one) ≡ false = ground arith in rw (e, there, other),
)
