-- ===== src/Client/Start.antt =====
-- A client that has just connected, in a process with a fresh allocator of ids.
use dreamboat_rpc.Prelude.{
  ℕ, zero, suc, ◌<◌, ◌≡◌, refl, ap, ◌∙◌, List, false, arith, Option, none, length, get_elem?,
  replicate, length-replicate,
}
use dreamboat_rpc.Run.{Returns, Returns-map}
use dreamboat_rpc.Guid.{fresh}
use dreamboat_rpc.Guid.Live.{fresh-Inv}
use dreamboat_rpc.Client.{Callback, Connected, max_requests, new_client, connect_to, initialize}
use dreamboat_rpc.Client.Interest.{initialize-Inv}
use dreamboat_rpc.Client.Calls.{Inv, is_filled}

no_callback : (S : Type 0) (n id : ℕ) → is_filled {S = S} (get_elem? (replicate n none) id) ≡ false
no_callback S zero id = refl
no_callback S (suc n) zero = refl
no_callback S (suc n) (suc id) = no_callback S n id

module _ {S : Type 0} where
  -- A new client that connects, in a process with a fresh allocator, is in order, with no call
  -- under way.
  pub initialize-starts :
      (r : Connected) (app : S)
      → connect_to r < 0x80000000
      → Returns
          (λ c. Inv (record { guid = fresh; client = c; app = app }))
          (initialize r new_client)
  initialize-starts r app small =
      let empty : List (Option (Callback S)) = replicate max_requests none in
      Returns-map ((initialize-Inv r new_client refl).0 small) λ c (transport, fd, on, cbs).
        record {
          guid = fresh-Inv;
          slots = ap length cbs ∙ length-replicate {A = Option (Callback S)} max_requests none;
          filled = λ id h. (
            λ f.
                let blank =
                  ap (λ l. is_filled (get_elem? l id)) cbs ∙ no_callback S max_requests id in
                cc,
            λ live. absurd (omega (arith, live.0, live.1)),
          );
          transport = transport;
          initialized = on;
        }
