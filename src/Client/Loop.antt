-- ===== src/Client/Loop.antt =====
-- The client's thread: EventHandlerRouter and RpcClient::Main of source/client/RpcClient.cc.
use dreamboat_rpc.Prelude.{
  ℕ, ◌≡◌, refl, ap, List, [], ◌∷◌, arith, ◌==◌, if◌then◌else◌, Option, none, some, get_elem?,
}
use dreamboat_rpc.Run.{
  Run, ok, aborts, faults, out_of_fuel, ◌>>=◌, Returns-map, IfOk, IfOk-at, IfOk-bind, IfOk-if,
  IfOk-then, IfOk-of_returns,
}
use dreamboat_rpc.Packet.{RpcResult, result_of}
use dreamboat_rpc.Events.{read_event, write_event, close_event}
use dreamboat_rpc.Server.{Recv, received, Send}
use dreamboat_rpc.Client.{
  Callback, World, finish, handle_read_event, handle_write_event, handle_close_event,
}
use dreamboat_rpc.Client.Interest.{handle_write_event-Inv}
use dreamboat_rpc.Client.Calls.{Inv, is_filled, Inv-transport, finish-Finished}
use dreamboat_rpc.Client.Replies.{filled-inside}

-- A task of a dispatch, with what the recv and the send of its handler meet.
pub record Event : Type 0 where
  pub fd : ℕ
  pub type : ℕ
  pub recv : Recv
  pub send : Send

module _ {S : Type 0} where
  -- EventHandlerRouter::HandleEvent, with the handlers that Initialize sets.
  unfoldable pub handle_event : Event → World S → Run (World S)
  handle_event e w =
      if e.type == close_event
      then (handle_close_event e.fd w.client >>= λ c. ok (record w { client = c }))
      else if e.type == read_event
      then handle_read_event e.recv w
      else if e.type == write_event
      then (handle_write_event e.send e.fd w.client >>= λ c. ok (record w { client = c }))
      else ok w

  -- The tasks of one dispatch.
  unfoldable pub run_tasks : List Event → World S → Run (World S)
  unfolding handle_event
  run_tasks [] w = ok w
  run_tasks (e ∷ events) w = do w' ← handle_event e w; run_tasks events w'

  -- RpcClient::Main, over the dispatches until it finds `m_stop` set.
  unfoldable pub main_loop : List (List Event) → World S → Run (World S)
  unfolding run_tasks
  main_loop [] w = ok w
  main_loop (tasks ∷ rounds) w = do w' ← run_tasks tasks w; main_loop rounds w'

  finish-with :
      (res : RpcResult) (w : World S) (callback : Callback S)
      → Inv w
      → get_elem? w.client.callbacks res.seqno ≡ some (some callback)
      → (run : Run S) → callback res.return_buffer w.app ≡ run
      → IfOk Inv (finish res w)
  unfolding finish
  finish-with res w callback i found (ok app) ran =
      let inside = filled-inside w.client.callbacks res.seqno (ap is_filled found) in
      IfOk-of_returns Inv (
        Returns-map
          (finish-Finished res w callback app i (omega (arith, inside, i.slots)) found ran)
          λ w' done. done.inv)
  finish-with res w callback i found aborts ran = rw (found, ran) tt
  finish-with res w callback i found faults ran = rw (found, ran) tt
  finish-with res w callback i found out_of_fuel ran = rw (found, ran) tt

  finish-slot :
      (res : RpcResult) (w : World S)
      → Inv w
      → (slot : Option (Option (Callback S))) → get_elem? w.client.callbacks res.seqno ≡ slot
      → IfOk Inv (finish res w)
  unfolding finish
  finish-slot res w i none found = rw found tt
  finish-slot res w i (some none) found = rw found tt
  finish-slot res w i (some (some callback)) found = finish-with res w callback i found _ refl

  handle_read_event-Inv :
      (outcome : Recv) (w : World S) → Inv w → IfOk Inv (handle_read_event outcome w)
  unfolding handle_read_event
  handle_read_event-Inv (received bytes) w i =
      IfOk-then Inv _ _ λ image. finish-slot (result_of image) w i _ refl
  handle_read_event-Inv Recv.would_block w i = i
  handle_read_event-Inv Recv.failed w i = i

  handle_event-Inv : (e : Event) (w : World S) → Inv w → IfOk Inv (handle_event e w)
  unfolding handle_event handle_close_event
  handle_event-Inv e w i =
      IfOk-if Inv _ _ (e.type == close_event) (λ t. tt)
        λ t.
          IfOk-if Inv _ _ (e.type == read_event) (λ t. handle_read_event-Inv e.recv w i)
            λ t.
              IfOk-if Inv _ _ (e.type == write_event)
                (λ t. IfOk-bind Inv (handle_write_event e.send e.fd w.client) _ λ c ran.
                  let (transport, same) =
                    IfOk-at _ _ (handle_write_event-Inv e.send e.fd w.client i.transport) ran in
                  rw ran (Inv-transport w c i transport same))
                λ t. i

  run_tasks-Inv : (events : List Event) (w : World S) → Inv w → IfOk Inv (run_tasks events w)
  unfolding run_tasks
  run_tasks-Inv [] w i = i
  run_tasks-Inv (e ∷ events) w i =
      IfOk-bind Inv (handle_event e w) _
        λ w' ran. rw ran (run_tasks-Inv events w' (IfOk-at Inv _ (handle_event-Inv e w i) ran))

  -- Whatever events the client's thread is given, with whatever bytes and outcomes of recv and
  -- send, a client in order is in order after every run of the main loop that has not ended the
  -- process or met undefined behaviour.
  pub main_loop-Inv :
      (rounds : List (List Event)) (w : World S) → Inv w → IfOk Inv (main_loop rounds w)
  unfolding main_loop
  main_loop-Inv [] w i = i
  main_loop-Inv (tasks ∷ rounds) w i =
      IfOk-bind Inv (run_tasks tasks w) _
        λ w' ran. rw ran (main_loop-Inv rounds w' (IfOk-at Inv _ (run_tasks-Inv tasks w i) ran))
