-- ===== src/NameService/Tests.antt =====
-- A name service that knows one server, and JSON values that are lists of entries.
use dreamboat_rpc.Prelude.{ℕ, ◌≡◌, refl, List, [], ◌∷◌, true, false, arith, map, some}
use dreamboat_rpc.Run.{ok, aborts, Returns}
use dreamboat_rpc.Client.{Client, connect_to}
use dreamboat_rpc.Client.Calls
use dreamboat_rpc.Guid.{fresh}
use dreamboat_rpc.Client.Tests.{good}
use dreamboat_rpc.NameService.{
  Curl, Answer, Options, DiscoveredResult, JsonReader, read_elements, register_myself, heartbeats,
  make_rpc_client,
}
use dreamboat_rpc.NameService.Reports.{
  Reported, registration, beats, register_myself-Reported, heartbeats-ends,
}
use dreamboat_rpc.NameService.Discovery.{Names, question, make_rpc_client-first}

abbrev server : DiscoveredResult
server = record { ip = b'h' ∷ []; port = 80 }

abbrev entries : JsonReader (List DiscoveredResult)
entries = record {
  parse = λ bytes. some (server ∷ []);
  elements = λ v. some (map (λ d. d ∷ []) v);
  string_at = λ v key. elim v [ [] ↦ aborts | d ∷ ds ↦ ok d.ip ];
  int_at = λ v key. elim v [ [] ↦ aborts | d ∷ ds ↦ ok d.port ];
}

abbrev fine : Answer
fine = record { handle = true; performed = true; code = 200; response_data = [] }

abbrev away : Answer
away = record { handle = true; performed = false; code = 0; response_data = [] }

abbrev untouched : Curl
untouched = record { requests = []; handles = 0 }

abbrev names : Options
names = record { callee = []; svr_ip = b'n' ∷ []; svr_port = 53 }

abbrev named : Options
named = record names { callee = b'K' ∷ [] }

connect_to-good : connect_to good ≡ 3
unfolding connect_to
connect_to-good = refl

server-Names : Names entries fine server
unfolding read_elements
server-Names = record {
  root = server ∷ [];
  array = (server ∷ []) ∷ [];
  others = [];
  taken = refl;
  parsed = refl;
  listed = refl;
  values = refl;
}

make_rpc_client-first_example :
    Returns
      (λ (client, o', c').
        (found : Client ℕ) × (client ≡ some found)
        × Calls.Inv (record { guid = fresh; client = found; app = 0 })
        × (found.connfd ≡ connect_to good)
        × (o' ≡ named)
        × (c'.requests ≡ question named (b'K' ∷ []) ∷ [])
        × (c'.handles ≡ 0))
      (make_rpc_client entries (λ ip port. good) (b'K' ∷ []) fine (names, untouched))
make_rpc_client-first_example =
    make_rpc_client-first entries (λ ip port. good) (b'K' ∷ []) fine names untouched 0 server
      server-Names (omega (arith, connect_to-good))

-- A registration that does not reach the name service.
register_myself-Reported_example :
    Returns
      (λ (success, c').
        Reported true false
          (registration (λ fields. []) names (b'h' ∷ []) 80 (b'K' ∷ []))
          1
          untouched
          success
          c')
      (register_myself (λ fields. []) names (b'h' ∷ []) 80 (b'K' ∷ []) away untouched)
register_myself-Reported_example =
    register_myself-Reported (λ fields. []) names (b'h' ∷ []) 80 (b'K' ∷ []) away untouched

heartbeats-ends_example :
    (true ≡ true
      → Returns
          (λ c'.
            (c'.requests
              ≡ beats (λ fields. []) names (b'h' ∷ []) 80 ((1, 2, fine) ∷ (3, 4, fine) ∷ []) [])
            × (c'.handles ≡ 0))
          (heartbeats
            (λ fields. [])
            names
            (b'h' ∷ [])
            80
            ((1, 2, fine) ∷ (3, 4, fine) ∷ [])
            untouched))
    × (true ≡ false
        → heartbeats
            (λ fields. [])
            names
            (b'h' ∷ [])
            80
            ((1, 2, fine) ∷ (3, 4, fine) ∷ [])
            untouched
          ≡ aborts)
heartbeats-ends_example =
    heartbeats-ends (λ fields. []) names (b'h' ∷ []) 80 ((1, 2, fine) ∷ (3, 4, fine) ∷ []) untouched
