-- ===== src/NameService/Discovery.antt =====
-- Which server a client finds.
use dreamboat_rpc.Prelude.{
  ℕ, ◌<◌, ◌≡◌, refl, ◌∙◌, List, [], ◌∷◌, ◌++◌, Bool, true, false, ◌==◌, ◌&&◌, not, arith,
  if◌then◌else◌, Option, none, some, take,
}
use dreamboat_rpc.Run.{ok, Returns, Returns-inv, Returns-at, returns, Returns-bind}
use dreamboat_rpc.Format.{int, text, convert, format, snprintf, int_text}
use dreamboat_rpc.Client.{Client, Connected, new_client, connect_to}
use dreamboat_rpc.Client.Calls
use dreamboat_rpc.Guid.{fresh}
use dreamboat_rpc.Client.Start.{initialize-starts}
use dreamboat_rpc.Client.Interest.{initialize-Inv}
use dreamboat_rpc.NameService.{
  Request, get, Curl, Answer, Options, DiscoveredResult, JsonReader, no_options, discover_url,
  requested, cleaned_up, read_elements, read_array, read_root, request_service_list, first_result,
  discover_server, get_rpc_client, make_rpc_client,
}
use dreamboat_rpc.NameService.Reports.{accepted}

abbrev discover_path : List ℕ
discover_path =
    b'/' ∷ b'd' ∷ b'i' ∷ b's' ∷ b'c' ∷ b'o' ∷ b'v' ∷ b'e' ∷ b'r' ∷ b'?' ∷ b'c' ∷ b'a' ∷ b'l' ∷ b'l'
    ∷ b'e' ∷ b'e' ∷ b'=' ∷ []

-- "http://ip:port/discover?callee=" and the callee, in a buffer of 200 bytes.
abbrev url_of : Options → List ℕ → List ℕ
url_of o callee = take 199 (
    b'h'
    ∷ b't'
    ∷ b't'
    ∷ b'p'
    ∷ b':'
    ∷ b'/'
    ∷ b'/'
    ∷ (o.svr_ip ++ (b':' ∷ (int_text o.svr_port ++ (discover_path ++ (callee ++ []))))))

abbrev pub question : Options → List ℕ → Request
question o callee = get (url_of o callee)

discover_url_lem :
    (o : Options) (callee : List ℕ)
    → snprintf 200 discover_url (text o.svr_ip ∷ int o.svr_port ∷ text callee ∷ [])
      ≡ ok (url_of o callee)
unfolding snprintf format convert
discover_url_lem o callee = refl

-- The branches in front of the response.
taken_branch :
    {B : Type 0} (h p k : Bool) (early late response : B)
    → h && (p && k) ≡ true
    → (if not h then early else if not p then late else if not k then late else response) ≡ response
taken_branch true true true early late response e = refl
taken_branch true true false early late response e = cc
taken_branch true false k early late response e = cc
taken_branch false p k early late response e = cc

refused_branch :
    {B : Type 0} (h p k : Bool) (v w : Curl) (f : Curl → B) (response : B)
    → h && (p && k) ≡ false
    → (if not h then f v else if not p then f w else if not k then f w else response)
      ≡ f (if h then w else v)
refused_branch true true true v w f response e = cc
refused_branch true true false v w f response e = refl
refused_branch true false k v w f response e = refl
refused_branch false p k v w f response e = refl

module _ {Value : Type 0} (reader : JsonReader Value) (a : Answer) where
  -- Nothing in the answer names a server.
  pub data Unnamed : Type 0 where
    refused : accepted a ≡ false → Unnamed
    unparsed : accepted a ≡ true → reader.parse a.response_data ≡ none → Unnamed
    no_array :
        (root : Value)
        → accepted a ≡ true
        → reader.parse a.response_data ≡ some root
        → reader.elements root ≡ none
        → Unnamed
    empty :
        (root : Value)
        → accepted a ≡ true
        → reader.parse a.response_data ≡ some root
        → reader.elements root ≡ some []
        → Unnamed

  -- The first entry of the answer.
  pub record Names (d : DiscoveredResult) : Type 0 where
    pub root : Value
    pub array : List Value
    pub others : List DiscoveredResult
    pub taken : accepted a ≡ true
    pub parsed : reader.parse a.response_data ≡ some root
    pub listed : reader.elements root ≡ some array
    pub values : read_elements reader array ≡ ok (d ∷ others)

module _ {Value : Type 0} (reader : JsonReader Value) (o : Options) (callee : List ℕ) (a : Answer)
    (c : Curl) where
  abbrev asked : Curl
  asked = requested (question o callee) c

  list-taken :
      accepted a ≡ true
      → request_service_list reader o callee a c
        ≡ read_root reader (reader.parse a.response_data) asked
  unfolding request_service_list
  list-taken e = rw (discover_url_lem o callee) (
      taken_branch a.handle a.performed (a.code == 200) (ok ([], c)) (ok ([], asked))
        (read_root reader (reader.parse a.response_data) asked) e)

  list-refused :
      accepted a ≡ false
      → request_service_list reader o callee a c ≡ ok ([], if a.handle then asked else c)
  unfolding request_service_list
  list-refused e = rw (discover_url_lem o callee) (
      refused_branch a.handle a.performed (a.code == 200) c asked (λ c'. ok ([], c'))
        (read_root reader (reader.parse a.response_data) asked) e)

  list-Names :
      (d : DiscoveredResult) (n : Names reader a d)
      → request_service_list reader o callee a c ≡ ok (d ∷ n.others, cleaned_up asked)
  unfolding read_root read_array
  list-Names d n = list-taken n.taken ∙ rw (n.parsed, n.listed, n.values)

  list-Unnamed :
      Unnamed reader a
      → Returns (λ (results, c'). results ≡ []) (request_service_list reader o callee a c)
  unfolding read_root read_array read_elements
  list-Unnamed (refused e) = rw (list-refused e) (returns refl)
  list-Unnamed (unparsed e none_parsed) = rw (list-taken e, none_parsed) (returns refl)
  list-Unnamed (no_array root e parsed none_listed) =
      rw (list-taken e, parsed, none_listed) (returns refl)
  list-Unnamed (empty root e parsed listed) = rw (list-taken e, parsed, listed) (returns refl)

discover_server-none :
    {Value : Type 0} (reader : JsonReader Value) (o : Options) (a : Answer) (c : Curl)
    → Unnamed reader a
    → Returns (λ (found, c'). found ≡ none) (discover_server reader o a no_options c)
unfolding discover_server first_result
discover_server-none reader o a c u =
    Returns-bind (list-Unnamed reader o o.callee a c u) λ (results, c') e. rw e (returns refl)

get_rpc_client-connects :
    {S : Type 0} (network : List ℕ → ℕ → Connected) (o : Options) (app : S)
    → connect_to (network o.svr_ip o.svr_port) < 0x80000000
    → Returns
        (λ (client : Option (Client S)).
          (found : Client S) × (client ≡ some found)
          × Calls.Inv (record { guid = fresh; client = found; app = app })
          × (found.connfd ≡ connect_to (network o.svr_ip o.svr_port)))
        (get_rpc_client network (some o))
unfolding get_rpc_client
get_rpc_client-connects {S} network o app small =
    let r = network o.svr_ip o.svr_port in
    let (client, ran, (inv, fd, on, cbs)) =
      Returns-inv ((initialize-Inv {S = S} r new_client refl).0 small) in
    rw ran (returns (client, refl, Returns-at (initialize-starts r app small) ran, fd))

module _ {Value S : Type 0} (reader : JsonReader Value) (network : List ℕ → ℕ → Connected)
    (callee : List ℕ) (a : Answer) (o : Options) (c : Curl) (app : S) where
  -- If the name service's answer has code 200 and a JSON array of servers, and the client can
  -- connect to the first of them, MakeRpcClient returns a client that is connected to it,
  -- initialized, and in order in a process with a fresh allocator, after one request for the
  -- callee, cut off at 199 bytes, and with no handle of curl left.
  pub make_rpc_client-first :
      (d : DiscoveredResult)
      → Names reader a d
      → connect_to (network d.ip d.port) < 0x80000000
      → Returns
          (λ (client, o', c').
            (found : Client S) × (client ≡ some found)
            × Calls.Inv (record { guid = fresh; client = found; app = app })
            × (found.connfd ≡ connect_to (network d.ip d.port))
            × (o' ≡ record o { callee = callee })
            × (c'.requests ≡ question (record o { callee = callee }) callee ∷ c.requests)
            × (c'.handles ≡ c.handles))
          (make_rpc_client reader network callee a (o, c))
  unfolding make_rpc_client discover_server first_result
  make_rpc_client-first d n small =
      rw (list-Names reader (record o { callee = callee }) callee a c d n) (
        Returns-bind
          (get_rpc_client-connects network (record no_options { svr_ip = d.ip; svr_port = d.port })
            app small)
          λ client (found, is, inv, fd). returns (found, is, inv, fd, refl, refl, omega arith))

  -- MakeRpcClient of a service that the answer does not name.
  pub make_rpc_client-null :
      Unnamed reader a
      → Returns
          (λ (client, o', c'). (client ≡ none) × (o' ≡ record o { callee = callee }))
          (make_rpc_client reader {S = S} network callee a (o, c))
  unfolding make_rpc_client get_rpc_client
  make_rpc_client-null u =
      Returns-bind (discover_server-none reader (record o { callee = callee }) a c u)
        λ (found, c') e. rw e (returns (refl, refl))
