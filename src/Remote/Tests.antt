-- ===== src/Remote/Tests.antt =====
-- A remote call between the client and the server of the other tests: a service that counts its
-- calls and gives its parameter back.
use dreamboat_rpc.Prelude.{
  Option, none, some, ℕ, ◌+◌, ◌≡◌, refl, List, [], ◌∷◌, ◌++◌, true, false, arith, none, replicate,
}
use dreamboat_rpc.Run.{Run, ok, ◌>>=◌, Returns, Returns-at}
use dreamboat_rpc.Memory.{str_eq}
use dreamboat_rpc.Packet.{RpcMessage, RpcResult}
use dreamboat_rpc.Params.Tests.{bytes_codec}
use dreamboat_rpc.Kv.{
  handle_rpc, GetValueReq, GetValueRsp, SetValueReq, SetValueRsp, Service, getter, setter, Dicts,
  no_names, handle, set_value_internal, get_allotted_bucket, find, updated,
}
use dreamboat_rpc.Kv.Buckets.{get_allotted_bucket-HasBucket}
use dreamboat_rpc.Kv.Store.{
  Implements, stored, code_of, no_names-Implements, Names, set_value_internal-Implements,
}
use dreamboat_rpc.Params.{Codec}
use dreamboat_rpc.Client.Requests.{CanSend}
use dreamboat_rpc.Remote.KeyValue.{keep_code, set_value_remotely}
use dreamboat_rpc.Poller.{new_poller, add_event, flags_in}
use dreamboat_rpc.Guid.{fresh, get_guid}
use dreamboat_rpc.Guid.Live.{IsLive}
use dreamboat_rpc.Server.{Server, lookup}
use dreamboat_rpc.Client.{World, new_client, initialize, connect_to, callback_function}
use dreamboat_rpc.Client.Start.{initialize-starts}
use dreamboat_rpc.Remote.Blocking.{call_rpc, call_rpc-answered}
use dreamboat_rpc.Client.Calls
use dreamboat_rpc.Client.Tests.{good, connect_to-good, quiet, quiet-Inv, echo-CanSend}
use dreamboat_rpc.Remote.{remote_call, answer_call}
use dreamboat_rpc.Remote.Service.{CanReturn}
use dreamboat_rpc.Remote.Proxies.{kv_getter, get_value_proxy, value_line, get_value_proxy-prints}
use dreamboat_rpc.Remote.Delivery.{remote_call-Returns}

abbrev counted : List ℕ → ℕ → Run (List ℕ × ℕ)
counted q n = ok (q, n + 1)

abbrev blank : RpcResult
blank = record { seqno = 0; return_buffer = replicate 480 0 }

abbrev counting : Unit {0} → RpcMessage → ℕ → Run (RpcResult × ℕ)
counting u = handle_rpc bytes_codec bytes_codec counted blank

abbrev listening : Server (Unit {0}) ℕ
listening = record {
  dictionary = (b'e' ∷ [], tt) ∷ [];
  pipe = λ fd. [];
  app = 0;
  poller = new_poller false;
  table = λ i. none;
  listenfd = 3;
  outbox = [];
}

five-CanReturn : CanReturn bytes_codec (5 ∷ [])
five-CanReturn = record { text = (ground arith, tt); fits = omega arith }

abbrev seen : List ℕ → ℕ → Run ℕ
seen rsp n = ok (n + 10)

remote_call-Returns_example :
    Returns
      (λ (w', s').
        Calls.Inv w' × (w'.app ≡ 10) × (¬ IsLive w'.guid 1) × (s'.app ≡ 1) × (s'.pipe 5 ≡ []))
      (remote_call bytes_codec 0
        (b'e' ∷ [])
        (5 ∷ [])
        (callback_function bytes_codec seen)
        counting
        5
        (quiet, listening))
unfolding get_guid lookup str_eq
remote_call-Returns_example =
    remote_call-Returns bytes_codec bytes_codec counted blank counting (b'e' ∷ []) tt (λ m a. refl)
      refl 0 1 5 (5 ∷ []) echo-CanSend (omega arith) listening 1 (5 ∷ []) refl (omega arith) refl
      five-CanReturn refl quiet (record { heap = []; bound = 1 }) seen 10 quiet-Inv refl
      (omega arith) refl refl

-- Codecs that stand for those of the four messages: an id or a code in front of a name.
abbrev pub id_codec : Codec GetValueReq
id_codec = record {
  serialize_as_string = λ q. q.id ∷ [];
  parse_from_string = elim [ [] ↦ record { id = 0 } | b ∷ s ↦ record { id = b } ];
  parse-serialize = λ q. refl;
}

abbrev pub name_codec : Codec GetValueRsp
name_codec = record {
  serialize_as_string = λ q. q.name;
  parse_from_string = λ s. record { name = s };
  parse-serialize = λ q. refl;
}

abbrev pub set_codec : Codec SetValueReq
set_codec = record {
  serialize_as_string = λ q. q.id ∷ q.name;
  parse_from_string = elim [
    | [] ↦ record { id = 0; name = [] }
    | b ∷ s ↦ record { id = b; name = s }
  ];
  parse-serialize = λ q. refl;
}

abbrev pub code_codec : Codec SetValueRsp
code_codec = record {
  serialize_as_string = λ q. q.code ∷ [];
  parse_from_string = elim [ [] ↦ record { code = 0 } | b ∷ s ↦ record { code = b } ];
  parse-serialize = λ q. refl;
}

code-CanReturn : (old : Option (List ℕ)) → CanReturn code_codec (record { code = code_of old })
code-CanReturn none = record { text = (ground arith, tt); fits = omega arith }
code-CanReturn (some name) = record { text = (ground arith, tt); fits = omega arith }

abbrev naming : SetValueReq
naming = record { id = 5; name = 7 ∷ [] }

naming-CanSend : CanSend set_codec (b'e' ∷ []) naming
naming-CanSend = record {
  named = (ground arith, tt);
  name_fits = omega arith;
  text = (ground arith, (ground arith, tt));
  fits = omega arith;
}

abbrev storing : Server Service Dicts
storing = record {
  dictionary = (b'e' ∷ [], setter) ∷ [];
  pipe = λ fd. [];
  app = no_names;
  poller = new_poller false;
  table = λ i. none;
  listenfd = 3;
  outbox = [];
}

set_value_remotely_example :
    Returns
      (λ (w', s'). Calls.Inv w' × (w'.app ≡ 2) × Implements s'.app (stored (λ id. none) 5 (7 ∷ [])))
      (remote_call set_codec 0
        (b'e' ∷ [])
        naming
        (callback_function code_codec keep_code)
        (handle id_codec name_codec set_codec code_codec blank)
        5
        (quiet, storing))
unfolding get_guid lookup str_eq
set_value_remotely_example =
    set_value_remotely id_codec name_codec set_codec code_codec blank refl code-CanReturn
      (b'e' ∷ []) 0 1 5 naming quiet (record { heap = []; bound = 1 }) storing (λ id. none)
      naming-CanSend (omega arith) refl (omega arith) refl quiet-Inv refl (omega arith) refl
      no_names-Implements (get_allotted_bucket-HasBucket 5 (omega arith))

-- CallRPC of the echo service.
abbrev promised : World (Option (List ℕ))
promised = record {
  guid = fresh;
  client = record new_client {
    connfd = 3;
    poller = add_event (new_poller false) 3 flags_in;
    initialized = true;
  };
  app = none;
}

promised-Inv : Calls.Inv promised
unfolding initialize connect_to
promised-Inv = Returns-at (initialize-starts good none (omega (arith, connect_to-good))) refl

call_rpc-answered_example :
    Returns
      (λ (w', s'). (w'.app ≡ some (5 ∷ [])) × Calls.Inv w')
      (call_rpc bytes_codec bytes_codec true 0 (b'e' ∷ []) (5 ∷ []) promised >>= λ w₁.
        answer_call counting 5 (w₁, listening))
unfolding get_guid lookup str_eq
call_rpc-answered_example =
    call_rpc-answered bytes_codec bytes_codec counted blank counting (b'e' ∷ []) tt (λ m a. refl)
      refl 0 1 5 (5 ∷ []) listening 1 (5 ∷ []) promised (record { heap = []; bound = 1 })
      echo-CanSend (omega arith) refl (omega arith) refl five-CanReturn refl promised-Inv refl
      (omega arith) refl

-- KVGetterProxy::GetValue of an id that has a name.
abbrev printing : World (List ℕ)
printing = record {
  guid = fresh;
  client = record new_client {
    connfd = 3;
    poller = add_event (new_poller false) 3 flags_in;
    initialized = true;
  };
  app = [];
}

printing-Inv : Calls.Inv printing
unfolding initialize connect_to
printing-Inv = Returns-at (initialize-starts good [] (omega (arith, connect_to-good))) refl

-- The map with one name, and a server that holds it.
abbrev ann : List ℕ
ann = b'a' ∷ b'n' ∷ []

abbrev named : Names
named = stored (λ id. none) 5 ann

abbrev naming_dicts : Dicts
naming_dicts = ((5, ann) ∷ []) ∷ [] ∷ [] ∷ [] ∷ [] ∷ []

naming_dicts-Implements : Implements naming_dicts named
unfolding set_value_internal get_allotted_bucket find updated
naming_dicts-Implements =
    (Returns-at
      (set_value_internal-Implements 5 ann no_names (λ id. none) no_names-Implements
        (get_allotted_bucket-HasBucket 5 (omega arith)))
      refl).1

abbrev serving : Server Service Dicts
serving = record storing { dictionary = (kv_getter, getter) ∷ []; app = naming_dicts }

abbrev asking : GetValueReq
asking = record { id = 5 }

asking-CanSend : CanSend id_codec kv_getter asking
asking-CanSend = record {
  named = ground arith;
  name_fits = omega arith;
  text = (ground arith, tt);
  fits = omega arith;
}

ann-CanReturn : CanReturn name_codec (record { name = ann })
ann-CanReturn = record { text = ground arith; fits = omega arith }

get_value_proxy-prints_example :
    Returns
      (λ (w', s'). Calls.Inv w' × (w'.app ≡ [] ++ value_line 5 ann) × Implements s'.app named)
      (get_value_proxy id_codec name_codec true 0 asking printing >>= λ w₁.
        answer_call (handle id_codec name_codec set_codec code_codec blank) 5 (w₁, serving))
unfolding get_guid lookup str_eq
get_value_proxy-prints_example =
    get_value_proxy-prints id_codec name_codec set_codec code_codec blank refl 0 1 5 asking printing
      (record { heap = []; bound = 1 }) serving named asking-CanSend ann-CanReturn (ground arith)
      (omega arith) refl (omega arith) refl printing-Inv refl (omega arith) refl
      naming_dicts-Implements (get_allotted_bucket-HasBucket 5 (omega arith))
