-- ===== src/Connection/Kept.antt =====
-- What is under way stays in order when the callbacks of other calls come and go.
use dreamboat_rpc.Prelude.{
  ℕ, ◌≡◌, ◌≢◌, ap, sym, ◌∙◌, subst, List, [], ◌∷◌, ◌++◌, map, Option, get_elem?,
}
use mathlib.Core.List.{map-append}
use dreamboat_rpc.Run.{Run}
use dreamboat_rpc.Packet.{RpcMessage, RpcResult}
use dreamboat_rpc.Guid.Live.{IsLive}
use dreamboat_rpc.Client.{Callback, World}
use dreamboat_rpc.Client.Calls
use dreamboat_rpc.Client.Calls.{is_filled}
use dreamboat_rpc.Connection.{Asked}
use dreamboat_rpc.Connection.Lists.{
  All, All-append, All-map, All-both, All-through, Distinct, Distinct-concat,
}
use dreamboat_rpc.Connection.UnderWay.{Token, asking, answering, seqno_of, Waits, Fine, Sound}

module _ {Service App : Type 0} (handle : Service → RpcMessage → App → Run (RpcResult × App))
    (dictionary : List (List ℕ × Service)) {S : Type 0} where
  module _ (asked asked' : ℕ → Option (Asked S)) (slots slots' : List (Option (Callback S))) where
    -- The record and the callback of an id are the same on both sides.
    abbrev pub Agrees : ℕ → Type 0
    Agrees k = (asked' k ≡ asked k) × (get_elem? slots' k ≡ get_elem? slots k)

    Waits-kept :
        (m : RpcMessage) → Waits asked slots m → Agrees m.header.seqno → Waits asked' slots' m
    Waits-kept m v (known, there) = record {
      callback = v.callback;
      below = v.below;
      known = known ∙ v.known;
      waiting = there ∙ v.waiting;
    }

    Fine-kept :
        (t : Token)
        → Fine handle dictionary asked slots t
        → Agrees (seqno_of t)
        → Fine handle dictionary asked' slots' t
    Fine-kept (asking m) (is, waits) same = (is, Waits-kept m waits same)
    Fine-kept (answering r) (is, m, waits, given) same =
        (is, m, Waits-kept m waits (subst Agrees (ap (λ a. a.seqno) given.same) same), given)

    pub Sound-kept :
        (ts : List Token)
        → Sound handle dictionary asked slots ts
        → All (λ t. Agrees (seqno_of t)) ts
        → Sound handle dictionary asked' slots' ts
    Sound-kept ts (fine, apart) same = (
      All-map (λ t. Fine handle dictionary asked slots t × Agrees (seqno_of t))
          (Fine handle dictionary asked' slots') ts
          (All-both (Fine handle dictionary asked slots) (λ t. Agrees (seqno_of t)) ts fine same)
          λ t (v, s). Fine-kept t v s,
      apart,
    )

  pub Sound-concat :
      (asked : ℕ → Option (Asked S)) (slots : List (Option (Callback S))) (ts : List Token)
      → (t : Token) → Sound handle dictionary asked slots ts
      → Fine handle dictionary asked slots t
      → All (λ u. seqno_of u ≢ seqno_of t) ts
      → Sound handle dictionary asked slots (ts ++ t ∷ [])
  Sound-concat asked slots ts t (fine, apart) v others = (
    All-append (Fine handle dictionary asked slots) ts (t ∷ []) fine (v, tt),
    subst Distinct (sym (map-append seqno_of ts (t ∷ []))) (
        Distinct-concat (map seqno_of ts) (seqno_of t) apart
          (All-through seqno_of (λ i. i ≢ seqno_of t) ts others)),
  )

  Waits-live :
      (asked : ℕ → Option (Asked S)) (w : World S) (m : RpcMessage)
      → Calls.Inv w
      → Waits asked w.client.callbacks m
      → IsLive w.guid m.header.seqno
  Waits-live asked w m i v = (i.filled m.header.seqno v.below).0 (ap is_filled v.waiting)

  -- The id of whatever is under way is in use.
  pub Fine-live :
      (asked : ℕ → Option (Asked S)) (w : World S) (t : Token)
      → Calls.Inv w
      → Fine handle dictionary asked w.client.callbacks t
      → IsLive w.guid (seqno_of t)
  Fine-live asked w (asking m) i (is, waits) = Waits-live asked w m i waits
  Fine-live asked w (answering r) i (is, m, waits, given) =
      subst (IsLive w.guid) (sym (ap (λ a. a.seqno) given.same)) (Waits-live asked w m i waits)
