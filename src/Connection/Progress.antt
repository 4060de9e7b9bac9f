-- ===== src/Connection/Progress.antt =====
-- How far a connection is from rest, and what has to hold for it to come there.
use dreamboat_rpc.Prelude.{
  ℕ, ◌+◌, ◌*◌, ◌≤◌, ◌<◌, ◌≡◌, ◌≢◌, refl, ap, List, [], ◌∷◌, ◌++◌, Bool, true, false, if◌then◌else◌,
  arith, some, length, length-append,
}
use dreamboat_rpc.Run.{Run, ok, Returns, Returns-inv, Returns-map}
use dreamboat_rpc.Memory.{c_str}
use dreamboat_rpc.Packet.{RpcMessage, RpcResult, sizeof_header}
use dreamboat_rpc.Packet.RoundTrip.{packet_bytes, length-packet_bytes}
use dreamboat_rpc.Events.{max_file_descriptors}
use dreamboat_rpc.Poller.{Flags}
use dreamboat_rpc.Server.Loop.{armed}
use dreamboat_rpc.Server.Rearm.{Rearmed}
use dreamboat_rpc.Server.{Server, lookup, call_service}
use dreamboat_rpc.Server.Requests.{serve-Served}
use dreamboat_rpc.Connection.{Asked, Connection}
use dreamboat_rpc.Connection.UnderWay.{IsCall, packets}

-- How far what is under way has still to go: a bound on the events that are left.
abbrev pub distance : {S Service App : Type 0} → ℕ → Connection S Service App → ℕ
distance fd c =
    6000 * length c.world.client.pending_requests
    + 11 * length c.to_server
    + 500 * length (c.server.pipe fd)
    + length c.to_client

pub nonempty : {A : Type 0} (xs : List A) → xs ≢ [] → 1 ≤ length xs
nonempty [] ne = absurd (ne refl)
nonempty (x ∷ xs) ne = omega arith

-- A packet has at least its header.
pub sizeof_packets :
    (m : RpcMessage) (ms : List RpcMessage)
    → IsCall m
    → (bytes : List ℕ) → bytes ≡ packets (m ∷ ms)
    → sizeof_header ≤ length bytes
sizeof_packets m ms v bytes e =
    let whole = ap length e in
    omega (
      arith,
      whole,
      length-append (packet_bytes m) (packets ms),
      length-packet_bytes m v.message v.short,
    )

one_more :
    (needed : Bool) (q q' : List RpcResult) (r : RpcResult)
    → q' ≡ (if needed then q ++ r ∷ [] else q)
    → length q' ≤ length q + 1
one_more true q q' r e = let same = ap length e in omega (arith, same, length-append q (r ∷ []))
one_more false q q' r e = let same = ap length e in omega (arith, same)

-- The callback of each call returns, whatever it is given.
abbrev pub CallbacksReturn : {S Service App : Type 0} → Connection S Service App → Type 0
CallbacksReturn {S} c =
    (id : ℕ) (a : Asked S) (bytes : List ℕ) (s : S)
    → c.asked id ≡ some a
    → Returns (λ s'. Unit {0}) (a.callback bytes s)

-- Each call names a service of the dictionary.
abbrev pub ServicesKnown : {S Service App : Type 0} → Connection S Service App → Type 0
ServicesKnown {S} {Service} c =
    (id : ℕ) (a : Asked S) (name : List ℕ)
    → c.asked id ≡ some a
    → c_str a.message.header.servicename ≡ ok name
    → (service : Service) × (lookup name c.server.dictionary ≡ some service)

-- The server gets events of the descriptor.
abbrev pub IsArmed : {S Service App : Type 0} → ℕ → Connection S Service App → Type 0
IsArmed fd c = (f : Flags) × (armed c.server.poller.calls fd ≡ some f)

abbrev pub Answered : {Service App : Type 0} → ℕ → Server Service App → Server Service App → Type 0
Answered fd s s' =
    (length (s'.pipe fd) ≤ length (s.pipe fd) + 1)
    × Rearmed fd s s'
    × (s'.dictionary ≡ s.dictionary)

-- A request for a known service leaves at most one result, and the descriptor armed.
pub call_service-Returns :
    {Service App : Type 0} (handle : Service → RpcMessage → App → Run (RpcResult × App)) (fd : ℕ)
    → (m : RpcMessage) → IsCall m
    → fd < max_file_descriptors
    → (s : Server Service App) (name : List ℕ) (service : Service)
    → lookup name s.dictionary ≡ some service
    → ((service : Service) (m : RpcMessage) (a : App)
        → IsCall m
        → Returns (λ r. Unit {0}) (handle service m a))
    → Returns (Answered fd s) (call_service handle (lookup name s.dictionary) m fd s)
unfolding call_service
call_service-Returns handle fd m is small s name service found total =
    let ((r, app), ran, t) = Returns-inv (total service m s.app is) in
    rw found (
      Returns-map (serve-Served handle service m fd s r app small ran) λ s' served. (
        one_more m.header.need_return (s.pipe fd) (s'.pipe fd) _ served.queued,
        served.rearmed,
        served.dictionary,
      ))
