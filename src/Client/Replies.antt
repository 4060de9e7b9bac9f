-- ===== src/Client/Replies.antt =====
-- CallRPCAsync and CallbacksHandler::HandleReadEvent as a whole.
use mathlib.Core.List.{append-nil}
use dreamboat_rpc.Prelude.{
  ℕ, zero, suc, ◌<◌, ◌^◌, ◌≡◌, inl, inr, refl, ap, ◌∙◌, List, [], ◌∷◌, ◌++◌, true, false, arith,
  Option, none, some, length, drop, get_elem?, replicate, Bool-cases, drop-all, le→ltb,
}
use dreamboat_rpc.Run.{Run, ok, faults, ◌>>=◌, or_fault, Returns, IfOk-at}
use dreamboat_rpc.Memory.{store}
use dreamboat_rpc.Memory.Laws.{store_front}
use dreamboat_rpc.Packet.{RpcResult, IsResult, sizeof_result, result_of, result_bytes}
use dreamboat_rpc.Packet.RoundTrip.{result_of-result_bytes, length-result_bytes}
use dreamboat_rpc.Params.{Codec}
use dreamboat_rpc.Guid.{Guid, get_guid}
use dreamboat_rpc.Guid.Live.{IsLive, Allocated, get_guid-gives}
use dreamboat_rpc.Server.{received}
use dreamboat_rpc.Client.{
  Callback, World, max_requests, register, async_invoke, invoke_with, call_rpc_async, finish,
  handle_read_event,
}
use dreamboat_rpc.Client.Requests.{CanSend, make_request-request}
use dreamboat_rpc.Client.Calls.{
  Inv, Called, invoke_with-Called, Finished, finish-Finished, is_filled,
}

module _ {S P : Type 0} (codec : Codec P) (padding : ℕ) (name : List ℕ) (param : P)
    (callback : Callback S) (v : CanSend codec name param) (small : padding < 2 ^ 24) where
  -- What becomes of a call, by what GetGuid gives.
  abbrev pub Outcome : World S → Option ℕ → Guid → Run (World S) → Type 0
  Outcome w none g run = run ≡ ok (record w { guid = g })
  Outcome w (some id) g run =
      (id < max_requests → Returns (Called codec padding name param callback id g w) run)
      × (id ≡ max_requests → run ≡ faults)

  overrun :
      (id : ℕ) (g : Guid) (w : World S)
      → Inv w
      → id ≡ max_requests
      → invoke_with codec true padding name param callback (some id, g) w ≡ faults
  unfolding invoke_with async_invoke register
  overrun id g w i e = rw (
    make_request-request codec padding id name param v,
    le→ltb id (length w.client.callbacks) (omega (arith, i.slots)),
  )

  -- A call from a client in order, whose name and parameter fit their buffers and have no zero
  -- byte: if GetGuid gives an id below 1024, the call is under way with its callback registered
  -- under that id and its request queued last, and the client is in order; the id 1024 writes past
  -- the end of the callback vector; with no id left nothing is sent.
  pub call_rpc_async-Outcome :
      (w : World S) (r : Option ℕ) (g : Guid)
      → Inv w
      → get_guid w.guid ≡ ok (r, g)
      → Outcome w r g (call_rpc_async codec true padding name param callback w)
  unfolding call_rpc_async invoke_with
  call_rpc_async-Outcome w none g i e = rw e
  call_rpc_async-Outcome w (some id) g i e = rw e (
    λ below.
        invoke_with-Called codec padding name param callback v small id g w i
          (IfOk-at (Allocated w.guid) (get_guid w.guid) (get_guid-gives w.guid i.guid) e) below,
    overrun id g w i,
  )

-- What recv leaves in the zeroed result.
image :
    (res : RpcResult)
    → IsResult res
    → store (replicate sizeof_result 0) 0 (result_bytes res) ≡ ok (result_bytes res)
image res v =
    let zeros : List ℕ = replicate sizeof_result 0 in
    let size = length-result_bytes res v in
    let none_left : drop (length (result_bytes res)) zeros ≡ [] =
      drop-all (length (result_bytes res)) zeros (omega (arith, size)) in
    store_front zeros (result_bytes res) (omega (arith, size))
    ∙ ap ok (ap (λ l. result_bytes res ++ l) none_left ∙ append-nil _)

module _ {S : Type 0} where
  pub handle_read_event-result :
      (res : RpcResult) (w : World S)
      → IsResult res
      → handle_read_event (received (result_bytes res)) w ≡ finish res w
  unfolding handle_read_event
  handle_read_event-result res w v = rw (image res v, result_of-result_bytes res v)

  -- The whole result of a call under way, at a client in order, with a callback that returns: the
  -- callback runs once, on the bytes of that result, the entry of its seqno is cleared, the id is
  -- free, the queue of requests stays, and the client is in order.
  pub handle_read_event-finishes :
      (res : RpcResult) (w : World S) (callback : Callback S) (app : S)
      → IsResult res
      → Inv w
      → res.seqno < max_requests
      → get_elem? w.client.callbacks res.seqno ≡ some (some callback)
      → callback res.return_buffer w.app ≡ ok app
      → Returns (Finished res app w) (handle_read_event (received (result_bytes res)) w)
  handle_read_event-finishes res w callback app v i below found ran =
      rw (handle_read_event-result res w v) (finish-Finished res w callback app i below found ran)

  unregistered :
      (slot : Option (Option (Callback S))) {B : Type 0} (f : Callback S → Run B)
      → is_filled slot ≡ false
      → (or_fault slot >>= λ s. or_fault s >>= f) ≡ faults
  unregistered none f e = refl
  unregistered (some none) f e = refl
  unregistered (some (some callback)) f e = cc

  pub filled-inside :
      (slots : List (Option (Callback S))) (id : ℕ)
      → is_filled (get_elem? slots id) ≡ true
      → id < length slots
  filled-inside [] id e = cc
  filled-inside (c ∷ slots) zero e = omega arith
  filled-inside (c ∷ slots) (suc id) e = omega (arith, filled-inside slots id e)

  unfilled :
      (w : World S) (id : ℕ)
      → Inv w
      → ¬ IsLive w.guid id
      → is_filled (get_elem? w.client.callbacks id) ≡ false
  unfilled w id i dead = elim (Bool-cases (is_filled (get_elem? w.client.callbacks id))) [
    | inl full ↦ absurd (
        dead
          ((i.filled id (omega (arith, i.slots, filled-inside w.client.callbacks id full))).0 full))
    | inr e ↦ e
  ]

  -- At a client in order, a whole result whose seqno is not in use calls through a null pointer or
  -- reads past the vector.
  pub handle_read_event-unknown :
      (res : RpcResult) (w : World S)
      → IsResult res
      → Inv w
      → ¬ IsLive w.guid res.seqno
      → handle_read_event (received (result_bytes res)) w ≡ faults
  unfolding handle_read_event finish
  handle_read_event-unknown res w v i dead =
      rw (image res v, result_of-result_bytes res v)
        (unregistered (get_elem? w.client.callbacks res.seqno) _ (unfilled w res.seqno i dead))

  -- At a client in order, the end of the stream reads as a result with seqno 0, and calls through
  -- a null pointer.
  pub handle_read_event-end : (w : World S) → Inv w → handle_read_event (received []) w ≡ faults
  unfolding handle_read_event finish result_of store
  handle_read_event-end w i =
      unregistered (get_elem? w.client.callbacks 0) _
        (unfilled w 0 i (λ l. absurd (omega (arith, l.0))))
