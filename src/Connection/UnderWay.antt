-- ===== src/Connection/UnderWay.antt =====
-- What is under way on a connection: the requests that wait or travel, and the results. The invariant.
use mathlib.Core.List.{append_assoc}
use dreamboat_rpc.Prelude.{
  ℕ, ◌+◌, ◌≤◌, ◌<◌, ◌^◌, ◌≡◌, refl, ap, ◌∙◌, List, [], ◌∷◌, ◌++◌, map, true, not, arith, Option,
  some, length, take, drop, replicate, get_elem?, take-append,
}
use dreamboat_rpc.Run.{Run, ok}
use dreamboat_rpc.Memory.{c_str}
use dreamboat_rpc.Memory.Laws.{c_str-append}
use dreamboat_rpc.Packet.{
  RpcMessage, RpcResult, IsMessage, IsResult, rpc_magic_number, rpc_version, max_rpc_params_size,
  result_bytes,
}
use dreamboat_rpc.Packet.RoundTrip.{packet_bytes}
use dreamboat_rpc.Params.{Codec}
use dreamboat_rpc.Params.RoundTrip.{text_size}
use dreamboat_rpc.Server.{Server, lookup, is_nil}
use dreamboat_rpc.Server.Loop.{armed}
use dreamboat_rpc.Poller.{Flags}
use dreamboat_rpc.Server.Requests.{message_of}
use dreamboat_rpc.Client.{Callback, max_requests}
use dreamboat_rpc.Client.Calls
use dreamboat_rpc.Client.Requests.{CanSend, request, request-IsMessage}
use dreamboat_rpc.Connection.{Asked, Connection}
use dreamboat_rpc.Connection.Lists.{All, Distinct}

-- A request as the client makes it: the server makes the same message of its packet.
pub record IsCall (m : RpcMessage) : Type 0 where
  pub message : IsMessage m
  pub short : m.header.body_length ≤ max_rpc_params_size
  pub magic : m.header.magic ≡ rpc_magic_number
  pub version : m.header.version ≡ rpc_version
  pub needed : m.header.need_return ≡ true
  pub name : List ℕ
  pub named : c_str m.header.servicename ≡ ok name
  pub whole : message_of m.header (take m.header.body_length m.body.parameters) ≡ m

pub request-IsCall :
    {P : Type 0} (codec : Codec P) (padding id : ℕ) (name : List ℕ) (param : P)
    → CanSend codec name param
    → padding < 2 ^ 24
    → id < 2 ^ 32
    → IsCall (request codec true padding id name param)
request-IsCall codec padding id name param v small low =
    let m = request codec true padding id name param in
    let wire = codec.serialize_as_string param in
    let body = wire ++ 0 ∷ [] in
    let zeros : List ℕ = replicate max_rpc_params_size 0 in
    let taken : take m.header.body_length m.body.parameters ≡ body =
      take-append (length wire + 1) body _ (text_size wire) in
    record {
      message = request-IsMessage codec padding id name param v true small low;
      short = omega (arith, v.fits);
      magic = refl;
      version = refl;
      needed = refl;
      name = name;
      named = ap c_str (append_assoc name (0 ∷ []) _) ∙ c_str-append name _ v.named;
      whole =
          ap (message_of m.header) taken
          ∙ ap
              (λ n. record {
                header = m.header;
                body = record { parameters = body ++ drop n zeros };
              })
              (text_size wire);
    }

-- A request or a result under way.
pub data Token : Type 0 where
  asking : RpcMessage → Token
  answering : RpcResult → Token

abbrev pub seqno_of : Token → ℕ
seqno_of (asking m) = m.header.seqno
seqno_of (answering r) = r.seqno

-- The bytes of requests, and of results, one behind the other.
abbrev pub packets : List RpcMessage → List ℕ
packets [] = []
packets (m ∷ ms) = packet_bytes m ++ packets ms

abbrev pub answers : List RpcResult → List ℕ
answers [] = []
answers (r ∷ rs) = result_bytes r ++ answers rs

-- The results that travel and wait, and the requests that travel and wait: the oldest call first.
abbrev pub under_way :
    List RpcResult → List RpcResult → List RpcMessage → List RpcMessage → List Token
under_way results queue requests pending =
    map answering results ++ (map answering queue ++ (map asking requests ++ map asking pending))

-- The callback of a call waits under its id.
pub record Waits {S : Type 0} (asked : ℕ → Option (Asked S)) (slots : List (Option (Callback S)))
    (m : RpcMessage) : Type 0 where
  pub callback : Callback S
  pub below : m.header.seqno < max_requests
  pub known : asked m.header.seqno ≡ some (record { message = m; callback = callback })
  pub waiting : get_elem? slots m.header.seqno ≡ some (some callback)

abbrev pub Arming : {Service App : Type 0} → ℕ → Server Service App → Type 0
Arming fd s =
    (f : Flags)
    → armed s.poller.calls fd ≡ some f
    → (f.input ≡ true) × (f.output ≡ not (is_nil (s.pipe fd))) × (f.oneshot ≡ true)

module _ {Service App : Type 0} (handle : Service → RpcMessage → App → Run (RpcResult × App))
    (dictionary : List (List ℕ × Service)) where
  -- The result is what the service that the request names gave for that request.
  pub record Given (m : RpcMessage) (r : RpcResult) : Type 0 where
    pub name : List ℕ
    pub service : Service
    pub before : App
    pub after : App
    pub result : RpcResult
    pub named : c_str m.header.servicename ≡ ok name
    pub found : lookup name dictionary ≡ some service
    pub handled : handle service m before ≡ ok (result, after)
    pub same : r ≡ record result { seqno = m.header.seqno }

  module _ {S : Type 0} where
    abbrev pub Fine : (ℕ → Option (Asked S)) → List (Option (Callback S)) → Token → Type 0
    Fine asked slots (asking m) = IsCall m × Waits asked slots m
    Fine asked slots (answering r) = IsResult r × (m : RpcMessage) × Waits asked slots m × Given m r

    -- All that is under way is in order, and no id occurs twice.
    abbrev pub Sound : (ℕ → Option (Asked S)) → List (Option (Callback S)) → List Token → Type 0
    Sound asked slots ts = All (Fine asked slots) ts × Distinct (map seqno_of ts)

    pub record Inv (fd : ℕ) (c : Connection S Service App) : Type 0 where
      pub world : Calls.Inv c.world
      pub dictionary_lem : c.server.dictionary ≡ dictionary
      pub requests : List RpcMessage
      pub results : List RpcResult
      pub inbound : c.to_server ≡ packets requests
      pub outbound : c.to_client ≡ answers results
      -- If the server gets an event of the descriptor, it gets one, of its input, or output while results wait.
      pub arming : Arming fd c.server
      pub sound :
          Sound c.asked c.world.client.callbacks
            (under_way results (c.server.pipe fd) requests c.world.client.pending_requests)
