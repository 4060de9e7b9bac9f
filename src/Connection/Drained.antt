-- ===== src/Connection/Drained.antt =====
-- A connection that is left alone comes to rest.
use dreamboat_rpc.Prelude.{ℕ, suc, ◌≤◌, ◌≡◌, ◌⊎◌, List, [], true}
use dreamboat_rpc.Run.{Run}
use dreamboat_rpc.Packet.{RpcMessage, RpcResult}
use dreamboat_rpc.Connection.{Connection, Step, is_event}
use dreamboat_rpc.Connection.Progress.{distance}

-- Nothing waits and nothing travels.
pub record Rests {S Service App : Type 0} (fd : ℕ) (c : Connection S Service App) : Type 0 where
  pub pending : c.world.client.pending_requests ≡ []
  pub inbound : c.to_server ≡ []
  pub queue : c.server.pipe fd ≡ []
  pub outbound : c.to_client ≡ []

module _ {S Service App : Type 0} (handle : Service → RpcMessage → App → Run (RpcResult × App))
    (dictionary : List (List ℕ × Service)) (fd : ℕ) where
  -- Steps that are neither a call nor a loss, one after the other.
  pub data Onward : Connection S Service App → Connection S Service App → Type 1 where
    here : {c : Connection S Service App} → Onward c c
    further :
        {c c' c'' : Connection S Service App} (s : Step handle fd c c')
        → is_event handle fd s ≡ true
        → Onward c' c''
        → Onward c c''

  abbrev pub events : {c c' : Connection S Service App} → Onward c c' → ℕ
  events here = 0
  events (further s e run) = suc (events run)

  -- An event that is possible.
  abbrev pub HasEvent : Connection S Service App → Type 1
  HasEvent c =
      (c' : Connection S Service App) × (s : Step handle fd c c') × (is_event handle fd s ≡ true)

  -- The events are bounded in number, and go on until all is at rest.
  abbrev pub Drains :
      (c : Connection S Service App) {c' : Connection S Service App} → Onward c c' → Type 1
  Drains c {c'} run = (events run ≤ distance fd c) × (Rests fd c' ⊎ HasEvent c')
