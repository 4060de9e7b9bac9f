-- ===== src/NameService.antt =====
-- source/server/ServiceReporter.cc, source/client/ServiceDiscoverer.cc, source/client/ClientFactory.cc and
-- RegisterService and the heartbeats of source/server/RpcServer.cc. libcurl and jsoncpp are parameters: an Answer is what
-- one handle of curl gives, `write_json` makes the text of an object, and a JsonReader reads one.
pub mod Reports
pub mod Discovery
mod Tests
use dreamboat_rpc.Prelude.{
  ℕ, zero, suc, ◌+◌, ◌-◌, List, [], ◌∷◌, ◌++◌, Bool, true, false, ◌==◌, not, if◌then◌else◌, Option,
  none, some,
}
use dreamboat_rpc.Run.{Run, ok, aborts, ◌>>=◌}
use dreamboat_rpc.Format.{int, text, snprintf}
use dreamboat_rpc.Packet.{RpcMessage, RpcResult}
use dreamboat_rpc.Server.{Server, add_proxy}
use dreamboat_rpc.Client.{Client, Connected, new_client, initialize}

-- A value of a JSON object: a string, an int, a float by its bits.
pub data Field : Type 0 where
  string : List ℕ → Field
  integer : ℕ → Field
  float : ℕ → Field

pub data Request : Type 0 where
  post : List ℕ → List ℕ → Request
  get : List ℕ → Request

-- The requests that were made, the latest first, and the handles that were not cleaned up.
pub record Curl : Type 0 where
  pub requests : List Request
  pub handles : ℕ

-- Whether curl_easy_init and curl_easy_perform succeed, the response code, and the data that `cb` collects.
pub record Answer : Type 0 where
  pub handle : Bool
  pub performed : Bool
  pub code : ℕ
  pub response_data : List ℕ

pub record Options : Type 0 where
  pub callee : List ℕ
  pub svr_ip : List ℕ
  pub svr_port : ℕ

pub record DiscoveredResult : Type 0 where
  pub ip : List ℕ
  pub port : ℕ

abbrev pub ip_key : List ℕ
ip_key = b'i' ∷ b'p' ∷ []

abbrev pub port_key : List ℕ
port_key = b'p' ∷ b'o' ∷ b'r' ∷ b't' ∷ []

abbrev pub service_name_key : List ℕ
service_name_key =
    b's' ∷ b'e' ∷ b'r' ∷ b'v' ∷ b'i' ∷ b'c' ∷ b'e' ∷ b'_' ∷ b'n' ∷ b'a' ∷ b'm' ∷ b'e' ∷ []

abbrev pub cpu_usage_key : List ℕ
cpu_usage_key = b'c' ∷ b'p' ∷ b'u' ∷ b'_' ∷ b'u' ∷ b's' ∷ b'a' ∷ b'g' ∷ b'e' ∷ []

abbrev pub memory_usage_key : List ℕ
memory_usage_key =
    b'm' ∷ b'e' ∷ b'm' ∷ b'o' ∷ b'r' ∷ b'y' ∷ b'_' ∷ b'u' ∷ b's' ∷ b'a' ∷ b'g' ∷ b'e' ∷ []

abbrev pub register_url : List ℕ
register_url =
    b'h' ∷ b't' ∷ b't' ∷ b'p' ∷ b':' ∷ b'/' ∷ b'/' ∷ b'%' ∷ b's' ∷ b':' ∷ b'%' ∷ b'd' ∷ b'/' ∷ b'r'
    ∷ b'e' ∷ b'g' ∷ b'i' ∷ b's' ∷ b't' ∷ b'e' ∷ b'r' ∷ []

abbrev pub heartbeat_url : List ℕ
heartbeat_url =
    b'h' ∷ b't' ∷ b't' ∷ b'p' ∷ b':' ∷ b'/' ∷ b'/' ∷ b'%' ∷ b's' ∷ b':' ∷ b'%' ∷ b'd' ∷ b'/' ∷ b'h'
    ∷ b'e' ∷ b'a' ∷ b'r' ∷ b't' ∷ b'b' ∷ b'e' ∷ b'a' ∷ b't' ∷ []

abbrev pub discover_url : List ℕ
discover_url =
    b'h' ∷ b't' ∷ b't' ∷ b'p' ∷ b':' ∷ b'/' ∷ b'/' ∷ b'%' ∷ b's' ∷ b':' ∷ b'%' ∷ b'd' ∷ b'/' ∷ b'd'
    ∷ b'i' ∷ b's' ∷ b'c' ∷ b'o' ∷ b'v' ∷ b'e' ∷ b'r' ∷ b'?' ∷ b'c' ∷ b'a' ∷ b'l' ∷ b'l' ∷ b'e'
    ∷ b'e' ∷ b'=' ∷ b'%' ∷ b's' ∷ []

-- A request through a new handle, and the end of a handle.
abbrev pub requested : Request → Curl → Curl
requested r c = record { requests = r ∷ c.requests; handles = c.handles + 1 }

abbrev pub cleaned_up : Curl → Curl
cleaned_up c = record c { handles = c.handles - 1 }

module _ (write_json : List (List ℕ × Field) → List ℕ) where
  -- ServiceReporter::RegisterMyself
  unfoldable pub register_myself : Options → List ℕ → ℕ → List ℕ → Answer → Curl → Run (Bool × Curl)
  register_myself o ip port service_name a c = if not a.handle then ok (false, c) else do
    let json_str = write_json (
        (ip_key, string ip)
        ∷ (port_key, integer port)
        ∷ (service_name_key, string service_name)
        ∷ [])
    url ← snprintf 100 register_url (text o.svr_ip ∷ int o.svr_port ∷ [])
    let c' = requested (post url json_str) c
    if not a.performed
        then ok (false, c')
        else if not (a.code == 200)
        then ok (false, c')
        else ok (true, cleaned_up c')

  -- ServiceReporter::SendHeartbeat, with what get_cpu_usage and get_memory_usage give.
  unfoldable pub send_heartbeat : Options → List ℕ → ℕ → ℕ → ℕ → Answer → Curl → Run (Bool × Curl)
  send_heartbeat o ip port cpu_usage memory_usage a c = if not a.handle then ok (false, c) else do
    let json_str = write_json (
        (ip_key, string ip)
        ∷ (port_key, integer port)
        ∷ (cpu_usage_key, float cpu_usage)
        ∷ (memory_usage_key, float memory_usage)
        ∷ [])
    url ← snprintf 100 heartbeat_url (text o.svr_ip ∷ int o.svr_port ∷ [])
    let c' = requested (post url json_str) c
    if not a.performed
        then ok (false, cleaned_up c')
        else if not (a.code == 200)
        then ok (false, cleaned_up c')
        else ok (true, cleaned_up c')

  -- The thread of RpcServer::Main, over the rounds so far: the usages and the answer of each.
  unfoldable pub heartbeats : Options → List ℕ → ℕ → List (ℕ × ℕ × Answer) → Curl → Run Curl
  heartbeats o ip port [] c = ok c
  heartbeats o ip port ((cpu_usage, memory_usage, a) ∷ rounds) c = do
    (success, c') ← send_heartbeat o ip port cpu_usage memory_usage a c
    let rest = heartbeats o ip port rounds c'
    if not success then aborts else rest

  -- RpcServer::RegisterService: what RegisterMyself returns is not looked at.
  unfoldable pub register_service :
      {Service App : Type 0}
      → Options
      → List ℕ
      → ℕ
      → List ℕ
      → Service
      → Answer
      → Server Service App × Curl
      → Run (Server Service App × Curl)
  register_service o ip port service_name service a (s, c) = do
    let s' = add_proxy s service_name service
    (success, c') ← register_myself o ip port service_name a c
    ok (s', c')

-- Options of a new client, before they are filled in.
abbrev pub no_options : Options
no_options = record { callee = []; svr_ip = []; svr_port = 0 }

-- The end of DiscoverServer: the first of the results.
unfoldable pub first_result : List DiscoveredResult → Options → Option Options
first_result [] o = none
first_result (d ∷ results) o = some (record o { svr_ip = d.ip; svr_port = d.port })

-- RpcClient::GetRpcClient, up to the start of its thread; `network` is what ConnectTo meets at an address.
unfoldable pub get_rpc_client :
    {S : Type 0} → (List ℕ → ℕ → Connected) → Option Options → Run (Option (Client S))
get_rpc_client network none = ok none
get_rpc_client network (some o) = do
  client ← initialize (network o.svr_ip o.svr_port) new_client
  ok (some client)

-- jsoncpp's reader: what parse, isArray and the loop over an array, and the accessors of an
-- element give. An accessor throws on a value of another kind.
pub record JsonReader (Value : Type 0) : Type 0 where
  pub parse : List ℕ → Option Value
  pub elements : Value → Option (List Value)
  pub string_at : Value → List ℕ → Run (List ℕ)
  pub int_at : Value → List ℕ → Run ℕ

module _ {Value : Type 0} (reader : JsonReader Value) where
  unfoldable pub read_elements : List Value → Run (List DiscoveredResult)
  read_elements [] = ok []
  read_elements (element ∷ rest) = do
    ip ← reader.string_at element ip_key
    port ← reader.int_at element port_key
    results ← read_elements rest
    ok (record { ip = ip; port = port } ∷ results)

  -- From the response on.
  unfoldable pub read_array : Option (List Value) → Curl → Run (List DiscoveredResult × Curl)
  read_array none c = ok ([], c)
  read_array (some array) c = do results ← read_elements array; ok (results, cleaned_up c)

  unfoldable pub read_root : Option Value → Curl → Run (List DiscoveredResult × Curl)
  unfolding read_array
  read_root none c = ok ([], c)
  read_root (some root) c = read_array (reader.elements root) c

  -- ServiceDiscoverer::RequestServiceList
  unfoldable pub request_service_list :
      Options → List ℕ → Answer → Curl → Run (List DiscoveredResult × Curl)
  unfolding read_root
  request_service_list o callee a c = if not a.handle then ok ([], c) else do
    url ← snprintf 200 discover_url (text o.svr_ip ∷ int o.svr_port ∷ text callee ∷ [])
    let c' = requested (get url) c
    if not a.performed
        then ok ([], c')
        else if not (a.code == 200)
        then ok ([], c')
        else read_root (reader.parse a.response_data) c'

  -- DiscoverServer
  unfoldable pub discover_server : Options → Answer → Options → Curl → Run (Option Options × Curl)
  unfolding first_result request_service_list
  discover_server ns a rpc c = do
    (results, c') ← request_service_list ns ns.callee a c
    ok (first_result results rpc, c')

  -- RpcClientFactory::MakeRpcClient; `none` is the null pointer. It keeps the callee in its options.
  unfoldable pub make_rpc_client :
      {S : Type 0}
      → (List ℕ → ℕ → Connected)
      → List ℕ
      → Answer
      → Options × Curl
      → Run (Option (Client S) × Options × Curl)
  unfolding discover_server get_rpc_client
  make_rpc_client network callee a (o, c) = do
    let ns = record o { callee = callee }
    (found, c') ← discover_server ns a no_options c
    client ← get_rpc_client network found
    ok (client, ns, c')
