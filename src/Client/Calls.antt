-- ===== src/Client/Calls.antt =====
-- RpcServiceBase and CallbacksHandler: ids and callbacks of the calls under way.
use dreamboat_rpc.Prelude.{
  ℕ, ◌<◌, ◌^◌, ◌≡◌, ◌≢◌, ◌⊎◌, ◌↔◌, inl, inr, refl, sym, ap, ◌∙◌, List, [], ◌∷◌, ◌++◌, Bool, true,
  false, arith, Option, none, some, length, set, get_elem?, length-set, get_elem?-set_self,
  get_elem?-set_ne, lt→ltb,
}
use native.Mathlib.Decide.{ℕ_discrete}
use dreamboat_rpc.Run.{ok, Returns, returns, Returns-bind, IfOk, IfOk-first}
use dreamboat_rpc.Packet.{RpcMessage, RpcResult}
use dreamboat_rpc.Params.{Codec}
use dreamboat_rpc.Guid.{Guid, max_guid, get_guid, recycle_guid}
use dreamboat_rpc.Guid.Live.{IsLive, Allocated, get_guid-Allocated, recycle_guid-frees}
use dreamboat_rpc.Client.{
  Callback, Client, World, max_requests, push, register, send_request, async_invoke, invoke_with,
  finish,
}
use dreamboat_rpc.Client.Interest
use dreamboat_rpc.Client.Requests.{CanSend, request, make_request-request, request-IsMessage}

-- Whether a callback is registered under an id.
abbrev pub is_filled : {S : Type 0} → Option (Option (Callback S)) → Bool
is_filled (some (some callback)) = true
is_filled (some none) = false
is_filled none = false

module _ {S : Type 0} where
  -- The calls under way: exactly the ids in use have a callback, and the transport is in order.
  pub record Inv (w : World S) : Type 0 where
    pub guid : dreamboat_rpc.Guid.Live.Inv w.guid
    pub slots : length w.client.callbacks ≡ max_requests
    pub filled :
        (id : ℕ)
        → id < max_requests
        → (is_filled (get_elem? w.client.callbacks id) ≡ true) ↔ IsLive w.guid id
    pub transport : Interest.Inv w.client
    pub initialized : w.client.initialized ≡ true

  register-ok :
      (id : ℕ) (callback : Callback S) (c : Client S)
      → id < length c.callbacks
      → register id callback c ≡ ok (record c { callbacks = set c.callbacks id (some callback) })
  unfolding register
  register-ok id callback c h = rw (lt→ltb id (length c.callbacks) h)

  async_invoke-ok :
      (m : RpcMessage) (callback : Callback S) (c : Client S)
      → m.header.seqno < length c.callbacks
      → c.initialized ≡ true
      → async_invoke true m callback c
        ≡ push
            (record m { header = record (m.header) { need_return = true } })
            (record c { callbacks = set c.callbacks m.header.seqno (some callback) })
  unfolding async_invoke send_request
  async_invoke-ok m callback c h on = rw (register-ok m.header.seqno callback c h) (ground arith)

  keep-transport :
      (c : Client S) (cbs : List (Option (Callback S)))
      → Interest.Inv c
      → Interest.Inv (record c { callbacks = cbs })
  keep-transport c cbs t = record {
    connected = t.connected;
    hearing = t.hearing;
    watching = t.watching;
    fitting = t.fitting;
  }

  -- Filling an entry, as an id comes into use; clearing it, as the id goes out of use.
  filled-set :
      (cbs : List (Option (Callback S))) (id k : ℕ) (callback : Option (Callback S))
      → id < length cbs
      → (before after : Type 0) → (is_filled (get_elem? cbs k) ≡ true) ↔ before
      → after ↔ (before ⊎ (k ≡ id))
      → is_filled (some callback) ≡ true
      → (is_filled (get_elem? (set cbs id callback) k) ≡ true) ↔ after
  filled-set cbs id k callback h before after was now full = elim (ℕ_discrete id k) [
    | yes e ↦ (λ _. now.1 (inr (sym e)), λ _. rw (← e, get_elem?-set_self cbs id callback h) full)
    | no ne ↦
        let same = get_elem?-set_ne cbs id k callback ne in
        (
          λ f. now.1 (inl (was.0 (rw same at f))),
          λ a. rw same (was.1 (elim (now.0 a) [ inl b ↦ b | inr e ↦ absurd (ne (sym e)) ])),
        )
  ]

  cleared-set :
      (cbs : List (Option (Callback S))) (id k : ℕ)
      → id < length cbs
      → (before after : Type 0) → (is_filled (get_elem? cbs k) ≡ true) ↔ before
      → after ↔ (before × (k ≢ id))
      → (is_filled (get_elem? (set cbs id none) k) ≡ true) ↔ after
  cleared-set cbs id k h before after was now = elim (ℕ_discrete id k) [
    | yes e ↦
        let gone : is_filled (get_elem? (set cbs id none) k) ≡ false =
          rw (← e, get_elem?-set_self cbs id none h) in
        (λ f. cc, λ a. absurd ((now.0 a).1 (sym e)))
    | no ne ↦
        let same = get_elem?-set_ne cbs id k none ne in
        (λ f. now.1 (was.0 (rw same at f), λ e. ne (sym e)), λ a. rw same (was.1 (now.0 a).0))
  ]

  -- What a call leaves: the invariant, the new id in use, its callback registered, and the request
  -- under that id last in the queue.
  pub record Called {P : Type 0} (codec : Codec P) (padding : ℕ) (name : List ℕ) (param : P)
      (callback : Callback S) (id : ℕ) (g : Guid) (w w' : World S) : Type 0 where
    pub inv : Inv w'
    pub guid : w'.guid ≡ g
    pub app_lem : w'.app ≡ w.app
    pub registered : get_elem? w'.client.callbacks id ≡ some (some callback)
    pub queued :
        w'.client.pending_requests
        ≡ w.client.pending_requests ++ request codec true padding id name param ∷ []
    pub others : (k : ℕ) → id ≢ k → get_elem? w'.client.callbacks k ≡ get_elem? w.client.callbacks k

  module _ {P : Type 0} (codec : Codec P) (padding : ℕ) (name : List ℕ) (param : P)
      (callback : Callback S) (v : CanSend codec name param) (small : padding < 2 ^ 24) where
    pub invoke_with-Called :
        (id : ℕ) (g : Guid) (w : World S)
        → Inv w
        → Allocated w.guid (some id, g)
        → id < max_requests
        → Returns
            (Called codec padding name param callback id g w)
            (invoke_with codec true padding name param callback (some id, g) w)
    unfolding invoke_with
    invoke_with-Called id g w i a below =
        let req = request codec true padding id name param in
        let fits = request-IsMessage codec padding id name param v true small (omega arith) in
        let c = record (w.client) { callbacks = set w.client.callbacks id (some callback) } in
        let entered =
          async_invoke-ok (request codec false padding id name param) callback w.client
            (omega (arith, i.slots)) i.initialized in
        rw (make_request-request codec padding id name param v, entered)
          (Returns-bind
            (Interest.push-Inv req c (keep-transport w.client _ i.transport)
              (fits, omega (arith, v.fits)))
            λ c' (t, queued, _, cbs, init). returns (record {
              inv = record {
                guid = a.3;
                slots = ap length cbs ∙ length-set w.client.callbacks id _ ∙ i.slots;
                filled = λ k h. rw cbs (
                    filled-set w.client.callbacks id k (some callback) (omega (arith, i.slots))
                      (IsLive w.guid k) (IsLive g k) (i.filled k h) (a.4 k) refl);
                transport = t;
                initialized = init ∙ i.initialized;
              };
              guid = refl;
              app_lem = refl;
              registered =
                  ap (λ l. get_elem? l id) cbs
                  ∙ get_elem?-set_self w.client.callbacks id _ (omega (arith, i.slots));
              queued = queued;
              others = λ k ne.
                  ap (λ l. get_elem? l k) cbs ∙ get_elem?-set_ne w.client.callbacks id k _ ne;
            }))

  -- What a result leaves: the client in order, the state that the callback left, the entry of its
  -- seqno cleared and the others as they were, the id free, and the queue of requests.
  pub record Finished (res : RpcResult) (app : S) (w w' : World S) : Type 0 where
    pub inv : Inv w'
    pub app_lem : w'.app ≡ app
    pub cleared : get_elem? w'.client.callbacks res.seqno ≡ some none
    pub freed : ¬ IsLive w'.guid res.seqno
    pub pending : w'.client.pending_requests ≡ w.client.pending_requests
    pub others :
        (k : ℕ) → res.seqno ≢ k → get_elem? w'.client.callbacks k ≡ get_elem? w.client.callbacks k

  -- Whatever the callback leaves, if it returns.
  pub finish-Finished :
      (res : RpcResult) (w : World S) (callback : Callback S) (app : S)
      → Inv w
      → res.seqno < max_requests
      → get_elem? w.client.callbacks res.seqno ≡ some (some callback)
      → callback res.return_buffer w.app ≡ ok app
      → Returns (Finished res app w) (finish res w)
  unfolding finish
  finish-Finished res w callback app i below found ran =
      let id = res.seqno in
      let live = (i.filled id below).0 (ap is_filled found) in
      let room : id < length w.client.callbacks = omega (arith, i.slots) in
      rw (found, ran)
        (Returns-bind (recycle_guid-frees w.guid id i.guid live) λ g (inv, freed). returns (record {
          inv = record {
            guid = inv;
            slots = length-set w.client.callbacks id none ∙ i.slots;
            filled = λ k h.
                cleared-set w.client.callbacks id k room (IsLive w.guid k) (IsLive g k)
                  (i.filled k h) (freed k);
            transport = keep-transport w.client _ i.transport;
            initialized = i.initialized;
          };
          app_lem = refl;
          cleared = get_elem?-set_self w.client.callbacks id none room;
          freed = λ l. ((freed id).0 l).1 refl;
          pending = refl;
          others = λ k ne. get_elem?-set_ne w.client.callbacks id k none ne;
        }))

  -- A run of `finish` that returns has run the callback.
  pub finish-ran :
      (res : RpcResult) (w : World S) (callback : Callback S)
      → get_elem? w.client.callbacks res.seqno ≡ some (some callback)
      → IfOk (λ w'. (app : S) × (callback res.return_buffer w.app ≡ ok app)) (finish res w)
  unfolding finish
  finish-ran res w callback found = rw found (IfOk-first (callback res.return_buffer w.app) _)

  -- A client whose transport has moved on.
  pub Inv-transport :
      (w : World S) (c : Client S)
      → Inv w
      → Interest.Inv c
      → Interest.Unchanged w.client c
      → Inv (record w { client = c })
  Inv-transport w c i transport (cbs, on, conn) = record {
    guid = i.guid;
    slots = ap length cbs ∙ i.slots;
    filled = λ j h. rw cbs (i.filled j h);
    transport = transport;
    initialized = on ∙ i.initialized;
  }
