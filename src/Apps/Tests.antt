-- ===== src/Apps/Tests.antt =====
-- Command lines, and calls of rand.
use dreamboat_rpc.Prelude.{ℕ, ◌≡◌, refl, List, [], ◌∷◌, ◌++◌, true, false, arith, replicate}
use dreamboat_rpc.Run.{Run, ok, aborts, Returns}
use dreamboat_rpc.Memory.{minus_one}
use dreamboat_rpc.Packet.{RpcMessage, RpcResult}
use dreamboat_rpc.Args.{
  parse_str, parse_int, find_flag, starts_with, int_or_none, atoi, signed, digits,
}
use dreamboat_rpc.Kv.{Service, Dicts, handle}
use dreamboat_rpc.Logger.{start_log}
use dreamboat_rpc.NameService.{Answer}
use dreamboat_rpc.Remote.Tests.{id_codec, name_codec, set_codec, code_codec}
use dreamboat_rpc.Apps.{
  crazy_ids, ServerOptions, server_options, localhost, server_log, log_directory,
}
use dreamboat_rpc.Apps.Serve.{Serves, serve_main, serve_main-Serves}

-- ./server -namesvr_ip=n -port=80
abbrev command : List (List ℕ)
command =
    (b's' ∷ [])
    ∷ (b'-' ∷ b'n' ∷ b'a' ∷ b'm' ∷ b'e' ∷ b's' ∷ b'v' ∷ b'r' ∷ b'_' ∷ b'i' ∷ b'p' ∷ b'=' ∷ b'n'
        ∷ [])
    ∷ (b'-' ∷ b'p' ∷ b'o' ∷ b'r' ∷ b't' ∷ b'=' ∷ b'8' ∷ b'0' ∷ [])
    ∷ []

three : crazy_ids 5 (λ n. 3) 0 9993 ≡ ok (9993 ∷ 9996 ∷ 9999 ∷ [])
unfolding crazy_ids
three = refl

abbrev options : ServerOptions
options = record {
  namesvr_ip_addr = b'n' ∷ [];
  namesvr_port = minus_one;
  ip_addr = localhost;
  port = 80;
  log_path = log_directory ++ server_log;
}

options_lem : server_options command ≡ ok options
unfolding server_options parse_str parse_int find_flag starts_with int_or_none atoi signed digits
options_lem = refl

-- A name service that is not there.
abbrev unanswered : Answer
unanswered = record { handle = true; performed = false; code = 0; response_data = [] }

abbrev blank : RpcResult
blank = record { seqno = 0; return_buffer = replicate 480 0 }

abbrev handle_all : Service → RpcMessage → Dicts → Run (RpcResult × Dicts)
handle_all = handle id_codec name_codec set_codec code_codec blank

abbrev accepted_beat : ℕ × ℕ × Answer
accepted_beat = (1, 2, record { handle = true; performed = true; code = 200; response_data = [] })

serve_main-Serves_example :
    (true ≡ true
      → Returns
          (λ (log, s, c). (log ≡ start_log true) × Serves handle_all s)
          (serve_main (λ fields. []) command true unanswered unanswered (accepted_beat ∷ []) 0 3))
    × (true ≡ false
        → serve_main (λ fields. []) command true unanswered unanswered (accepted_beat ∷ []) 0 3
          ≡ aborts)
serve_main-Serves_example =
    serve_main-Serves (λ fields. []) handle_all command options true unanswered unanswered
      (accepted_beat ∷ []) 0 3 options_lem (omega arith)
