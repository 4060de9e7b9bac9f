-- ===== src/Connection/Moves.antt =====
-- How what is under way changes when a packet moves on, is answered, or is lost.
use mathlib.Core.List.{append_assoc, append-nil, map-append}
use dreamboat_rpc.Prelude.{ℕ, ◌≡◌, refl, ap, sym, ◌∙◌, subst, List, [], ◌∷◌, ◌++◌, map, Option}
use dreamboat_rpc.Run.{Run}
use dreamboat_rpc.Packet.{RpcMessage, RpcResult, result_bytes}
use dreamboat_rpc.Packet.RoundTrip.{packet_bytes}
use dreamboat_rpc.Client.{Callback}
use dreamboat_rpc.Connection.{Asked}
use dreamboat_rpc.Connection.Lists.{All-append, All-split, Distinct, Distinct-without}
use dreamboat_rpc.Connection.UnderWay.{
  Token, asking, answering, seqno_of, packets, answers, under_way, Fine, Sound,
}

module _ {ℓ κ} {A : Type ℓ} {B : Type κ} (f : A → B) where
  pub map-move :
      (xs : List A) (x : A) (ys : List B) → map f (xs ++ x ∷ []) ++ ys ≡ map f xs ++ f x ∷ ys
  map-move [] x ys = refl
  map-move (z ∷ xs) x ys = ap (◌∷◌ (f z)) (map-move xs x ys)

pub packets-concat :
    (ms : List RpcMessage) (m : RpcMessage) → packets (ms ++ m ∷ []) ≡ packets ms ++ packet_bytes m
packets-concat [] m = append-nil (packet_bytes m)
packets-concat (x ∷ ms) m =
    ap (λ l. packet_bytes x ++ l) (packets-concat ms m) ∙ sym (append_assoc (packet_bytes x) _ _)

pub answers-concat :
    (rs : List RpcResult) (r : RpcResult) → answers (rs ++ r ∷ []) ≡ answers rs ++ result_bytes r
answers-concat [] r = append-nil (result_bytes r)
answers-concat (x ∷ rs) r =
    ap (λ l. result_bytes x ++ l) (answers-concat rs r) ∙ sym (append_assoc (result_bytes x) _ _)

module _ (results queue : List RpcResult) (requests pending : List RpcMessage) where
  -- What travels and waits in front of the requests that travel, and of those that wait.
  abbrev pub before_requests : List Token
  before_requests = map answering results ++ map answering queue

  abbrev pub before_pending : List Token
  before_pending = before_requests ++ map asking requests

  pub under_way-at_requests :
      under_way results queue requests pending
      ≡ before_requests ++ (map asking requests ++ map asking pending)
  under_way-at_requests = sym (append_assoc (map answering results) (map answering queue) _)

  pub under_way-at_pending :
      under_way results queue requests pending ≡ before_pending ++ map asking pending
  under_way-at_pending =
      under_way-at_requests ∙ sym (append_assoc before_requests (map asking requests) _)

  pub under_way-send :
      (m : RpcMessage)
      → under_way results queue (requests ++ m ∷ []) pending
        ≡ under_way results queue requests (m ∷ pending)
  under_way-send m =
      ap (λ l. map answering results ++ (map answering queue ++ l))
        (map-move asking requests m (map asking pending))

  pub under_way-reply :
      (r : RpcResult)
      → under_way (results ++ r ∷ []) queue requests pending
        ≡ under_way results (r ∷ queue) requests pending
  under_way-reply r = map-move answering results r _

module _ (results queue : List RpcResult) (requests pending : List RpcMessage) where
  pub under_way-call :
      (m : RpcMessage)
      → under_way results queue requests (pending ++ m ∷ [])
        ≡ under_way results queue requests pending ++ asking m ∷ []
  under_way-call m =
      let before = before_pending results queue requests pending in
      under_way-at_pending results queue requests (pending ++ m ∷ [])
      ∙ ap (λ l. before ++ l) (map-append asking pending (m ∷ []))
      ∙ sym (append_assoc before (map asking pending) (asking m ∷ []))
      ∙ ap (λ l. l ++ asking m ∷ []) (sym (under_way-at_pending results queue requests pending))

module _ {Service App : Type 0} (handle : Service → RpcMessage → App → Run (RpcResult × App))
    (dictionary : List (List ℕ × Service)) {S : Type 0} (asked : ℕ → Option (Asked S))
    (slots : List (Option (Callback S))) where
  pub Sound-without :
      (before : List Token) (t : Token) (after : List Token)
      → Sound handle dictionary asked slots (before ++ t ∷ after)
      → Sound handle dictionary asked slots (before ++ after)
  Sound-without before t after (fine, apart) =
      let is = map seqno_of before in
      let split = All-split (Fine handle dictionary asked slots) before (t ∷ after) fine in
      (
        All-append (Fine handle dictionary asked slots) before after split.0 split.1.1,
        subst Distinct (sym (map-append seqno_of before after)) (
            Distinct-without is (seqno_of t) (map seqno_of after)
              (subst Distinct (map-append seqno_of before (t ∷ after)) apart)),
      )

  pub Sound-with :
      (before : List Token) (t u : Token) (after : List Token)
      → Sound handle dictionary asked slots (before ++ t ∷ after)
      → seqno_of t ≡ seqno_of u
      → Fine handle dictionary asked slots u
      → Sound handle dictionary asked slots (before ++ u ∷ after)
  Sound-with before t u after (fine, apart) same v =
      let split = All-split (Fine handle dictionary asked slots) before (t ∷ after) fine in
      let ids : map seqno_of (before ++ t ∷ after) ≡ map seqno_of (before ++ u ∷ after) =
        map-append seqno_of before (t ∷ after)
        ∙ ap (λ i. map seqno_of before ++ i ∷ map seqno_of after) same
        ∙ sym (map-append seqno_of before (u ∷ after)) in
      (
        All-append (Fine handle dictionary asked slots) before (u ∷ after) split.0 (v, split.1.1),
        subst Distinct ids apart,
      )
