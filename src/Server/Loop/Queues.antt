-- ===== src/Server/Loop/Queues.antt =====
-- The invariant of the event loop: armings, tasks and queues fit together.
use dreamboat_rpc.Prelude.{
  ℕ, ◌<◌, ◌≡◌, ◌≢◌, refl, sym, ap, ◌∙◌, subst, List, [], ◌∷◌, ◌++◌, Bool, true, false, arith,
  Option, none, some, ==_refl, inl, inr, Bool-cases, ◌==◌, if◌then◌else◌,
}
use native.Mathlib.Decide.{ℕ_discrete}
use dreamboat_rpc.Run.{ok}
use dreamboat_rpc.Packet.{RpcResult}
use dreamboat_rpc.Events.{write_event, max_file_descriptors}
use dreamboat_rpc.Poller.{Flags, task_type}
use dreamboat_rpc.Server.{Server, is_nil}
use dreamboat_rpc.Server.Loop.{Loop, armed, is_open, updated, delivered}
use dreamboat_rpc.Server.Loop.Handled.{Done}
use dreamboat_rpc.Server.Loop.Connections.{Closed, Opened}

-- An armed descriptor is armed once and has no task, and results if it is armed for output; one that is not armed has
-- one task at most, and results if that is to send one.
abbrev pub Fits : Option Flags → List ℕ → List RpcResult → Type 0
Fits (some f) ts q = (f.oneshot ≡ true) × (ts ≡ []) × (f.output ≡ true → is_nil q ≡ false)
Fits none [] q = Unit {0}
Fits none (t ∷ []) q = t ≡ write_event → is_nil q ≡ false
Fits none (t ∷ u ∷ ts) q = ⊥

-- A task that is taken up is the only one, and its descriptor is not armed.
pub only_task :
    (f : Option Flags) (ts rest : List ℕ) (t : ℕ) (q : List RpcResult)
    → Fits f ts q
    → ts ≡ t ∷ rest
    → (f ≡ none) × (rest ≡ []) × (t ≡ write_event → is_nil q ≡ false)
only_task (some f) [] rest t q v e = cc
only_task (some f) (u ∷ ts) rest t q v e = let none_left = v.1 in cc
only_task none [] rest t q v e = cc
only_task none (u ∷ []) rest t q v e = (refl, cc, λ w. v cc)
only_task none (u ∷ v ∷ ts) rest t q b e = absurd b

self : (pending : ℕ → List ℕ) (fd : ℕ) (ts : List ℕ) → updated pending fd ts fd ≡ ts
self pending fd ts = rw (==_refl fd) refl

pub clash : {b : Bool} → b ≡ false → b ≡ true → ⊥
clash e f = let t : true ≡ false = sym f ∙ e in cc

write_has_output :
    (ev : Flags) (type : ℕ) → task_type ev ≡ ok type → type ≡ write_event → ev.output ≡ true
unfolding task_type
write_has_output ev type e w = ground arith

open_if : (b : Bool) {c : Bool} → c ≡ true → (if b then true else c) ≡ true
open_if true e = refl
open_if false e = e

module _ {Service App : Type 0} where
  -- A descriptor that is not open is not armed and has no task.
  abbrev pub Shut : Server Service App → List ℕ → ℕ → Type 0
  Shut s ts fd = is_open s.poller.calls fd ≡ false → (armed s.poller.calls fd ≡ none) × (ts ≡ [])

  abbrev pub FitsAt : Server Service App → (ℕ → List ℕ) → ℕ → Type 0
  FitsAt s pending fd =
      Fits (armed s.poller.calls fd) (pending fd) (s.pipe fd) × Shut s (pending fd) fd

  -- A descriptor with a task is open.
  pub task-open :
      (s : Server Service App) (pending : ℕ → List ℕ) (fd t : ℕ) (ts : List ℕ)
      → FitsAt s pending fd
      → pending fd ≡ t ∷ ts
      → is_open s.poller.calls fd ≡ true
  task-open s pending fd t ts v waits = elim (Bool-cases (is_open s.poller.calls fd)) [
    | inl opened ↦ opened
    | inr shut ↦ let none_there = (v.1 shut).1 in cc
  ]

  abbrev pub Inv : Loop Service App → Type 0
  Inv l = (fd : ℕ) → fd < max_file_descriptors → FitsAt l.server l.pending fd

  -- The other descriptors, where nothing of theirs changes.
  kept :
      (s s' : Server Service App) (pending : ℕ → List ℕ) (fd k : ℕ) (ts : List ℕ)
      → fd ≢ k
      → armed s'.poller.calls k ≡ armed s.poller.calls k
      → s'.pipe k ≡ s.pipe k
      → is_open s'.poller.calls k ≡ is_open s.poller.calls k
      → FitsAt s pending k
      → FitsAt s' (updated pending fd ts) k
  kept s s' pending fd k ts ne same queue opened v =
      let other : updated pending fd ts k ≡ pending k = ground arith in
      rw (same, queue, opened, other) v

  -- The descriptor whose task was taken up.
  taken_up :
      (s' : Server Service App) (pending : ℕ → List ℕ) (fd k : ℕ) (ts : List ℕ) (f : Option Flags)
      → fd ≡ k
      → armed s'.poller.calls fd ≡ f
      → Fits f ts (s'.pipe fd)
      → Shut s' ts fd
      → FitsAt s' (updated pending fd ts) k
  taken_up s' pending fd k ts f e is v shut =
      subst (FitsAt s' (updated pending fd ts)) e (rw (self pending fd ts) (rw is v, shut))

  pub Done-Inv :
      (s s' : Server Service App) (pending : ℕ → List ℕ) (fd : ℕ) (ts : List ℕ)
      → Inv (record { server = s; pending = pending })
      → ts ≡ []
      → is_open s.poller.calls fd ≡ true
      → Done fd s s'
      → Inv (record { server = s'; pending = updated pending fd ts })
  Done-Inv s s' pending fd ts v none_left opened d k small = elim (ℕ_discrete fd k) [
    | yes e ↦
        taken_up s' pending fd k ts (some d.rearmed.flags) e
          (ap (λ cs. armed cs fd) d.rearmed.called ∙ rw (==_refl fd) refl)
          (d.rearmed.oneshot, none_left, λ o. ground (arith, d.rearmed.output))
          (λ shut. absurd (clash (sym (ap (λ cs. is_open cs fd) d.rearmed.called) ∙ shut) opened))
    | no ne ↦
        kept s s' pending fd k ts ne (ap (λ cs. armed cs k) d.rearmed.called ∙ ground arith)
          (d.others k ne) (ap (λ cs. is_open cs k) d.rearmed.called) (v k small)
  ]

  -- The task was taken up, and the server is as before.
  pub Same-Inv :
      (s : Server Service App) (pending : ℕ → List ℕ) (fd : ℕ) (ts : List ℕ)
      → Inv (record { server = s; pending = pending })
      → ts ≡ []
      → armed s.poller.calls fd ≡ none
      → Inv (record { server = s; pending = updated pending fd ts })
  Same-Inv s pending fd ts v none_left unarmed k small = elim (ℕ_discrete fd k) [
    | yes e ↦
        taken_up s pending fd k ts none e unarmed (rw none_left tt) (λ shut. (unarmed, none_left))
    | no ne ↦ kept s s pending fd k ts ne refl refl refl (v k small)
  ]

  pub Closed-Inv :
      (s s' : Server Service App) (pending : ℕ → List ℕ) (fd : ℕ) (ts : List ℕ)
      → Inv (record { server = s; pending = pending })
      → (fd < max_file_descriptors → ts ≡ [])
      → Closed fd s s'
      → Inv (record { server = s'; pending = updated pending fd ts })
  Closed-Inv s s' pending fd ts v none_left c k small = elim (ℕ_discrete fd k) [
    | yes e ↦
        let last = none_left (subst (λ j. j < max_file_descriptors) (sym e) small) in
        taken_up s' pending fd k ts none e c.here (rw last tt) (λ shut. (c.here, last))
    | no ne ↦
        kept s s' pending fd k ts ne (c.others k ne) (ap (λ (q : ℕ → List RpcResult). q k) c.pipe)
          (c.opens k ne) (v k small)
  ]

  still_open :
      {s s' : Server Service App} (fd connfd : ℕ)
      → Opened fd connfd s s'
      → is_open s.poller.calls fd ≡ true
      → is_open s'.poller.calls fd ≡ false
      → ⊥
  still_open fd connfd o opened shut = clash shut (o.opens fd ∙ open_if (connfd == fd) opened)

  pub Opened-Inv :
      (s s' : Server Service App) (pending : ℕ → List ℕ) (fd connfd : ℕ) (ts : List ℕ)
      → Inv (record { server = s; pending = pending })
      → (fd < max_file_descriptors → (ts ≡ []) × (is_open s.poller.calls fd ≡ true))
      → is_open s.poller.calls connfd ≡ false
      → Opened fd connfd s s'
      → Inv (record { server = s'; pending = updated pending fd ts })
  Opened-Inv s s' pending fd connfd ts v task new o k small = elim (ℕ_discrete fd k) [
    | yes e ↦
        let (last, opened) = task (subst (λ j. j < max_file_descriptors) (sym e) small) in
        taken_up s' pending fd k ts (some o.listening) e (o.here fd ∙ rw (==_refl fd) refl)
          (o.oneshot.0, last, λ out. absurd (clash o.quiet.0 out))
          (λ shut. absurd (still_open fd connfd o opened shut))
    | no ne ↦ elim (ℕ_discrete connfd k) [
      | yes e ↦
          let mine : armed s'.poller.calls k ≡ some o.connected = o.here k ∙ ground arith in
          let none_there : updated pending fd ts k ≡ [] =
            (let other : updated pending fd ts k ≡ pending k = ground arith in
              other ∙ ((v k small).1 (ap (is_open s.poller.calls) (sym e) ∙ new)).1) in
          let opened : is_open s'.poller.calls k ≡ true = o.opens k ∙ ground arith in
          (
            rw (mine, none_there) (o.oneshot.1, refl, λ out. absurd (clash o.quiet.1 out)),
            λ shut. absurd (clash shut opened),
          )
      | no other ↦
          kept s s' pending fd k ts ne (o.here k ∙ ground arith)
            (ap (λ (q : ℕ → List RpcResult). q k) o.pipe) (o.opens k ∙ ground arith) (v k small)
    ]
  ]

  pub Arrive-Inv :
      (s : Server Service App) (pending : ℕ → List ℕ) (fd : ℕ) (f ev : Flags) (type : ℕ)
      → Inv (record { server = s; pending = pending })
      → armed s.poller.calls fd ≡ some f
      → (ev.output ≡ true → f.output ≡ true)
      → task_type ev ≡ ok type
      → Inv (record {
        server = delivered s fd;
        pending = updated pending fd (pending fd ++ type ∷ []);
      })
  Arrive-Inv s pending fd f ev type v is sub made k small = elim (ℕ_discrete fd k) [
    | yes e ↦
        let here = v fd (subst (λ j. j < max_file_descriptors) (sym e) small) in
        let before = subst (λ a. Fits a (pending fd) (s.pipe fd)) is here.0 in
        taken_up (delivered s fd) pending fd k (pending fd ++ type ∷ []) none e
          (rw (==_refl fd, is, before.0) refl)
          (rw before.1 λ w. before.2 (sub (write_has_output ev type made w)))
          (λ shut. let unarmed = (here.1 shut).0 in cc)
    | no ne ↦
        kept s (delivered s fd) pending fd k (pending fd ++ type ∷ []) ne (ground arith) refl refl
          (v k small)
  ]
