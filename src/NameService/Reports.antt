-- ===== src/NameService/Reports.antt =====
-- What the reporter sends, and what it leaves.
use dreamboat_rpc.Prelude.{
  ℕ, ◌+◌, ◌≡◌, refl, ap, sym, ◌∙◌, List, [], ◌∷◌, ◌++◌, Bool, true, false, inl, inr, Bool-cases,
  ◌==◌, ◌&&◌, not, arith, if◌then◌else◌, take,
}
use dreamboat_rpc.Run.{ok, aborts, Returns, returns, Returns-inv, Returns-map}
use dreamboat_rpc.Format.{int, text, convert, format, snprintf, int_text}
use dreamboat_rpc.NameService.{
  Field, string, integer, float, Request, post, Curl, Answer, Options, ip_key, port_key,
  service_name_key, cpu_usage_key, memory_usage_key, register_url, heartbeat_url, requested,
  cleaned_up, register_myself, send_heartbeat, heartbeats,
}

and_true : (p q : Bool) → p && q ≡ true → (p ≡ true) × (q ≡ true)
and_true true q e = (refl, e)
and_true false q e = cc

-- A request that the name service has taken.
abbrev pub accepted : Answer → Bool
accepted a = a.handle && (a.performed && (a.code == 200))

-- What a request through curl leaves: whether it was accepted, the request if there was a handle, and
-- `left` more handles.
pub record Reported (handle taken : Bool) (r : Request) (left : ℕ) (c : Curl) (success : Bool)
    (c' : Curl) : Type 0 where
  pub success_lem : success ≡ taken
  pub requests : c'.requests ≡ (if handle then r ∷ c.requests else c.requests)
  pub handles : c'.handles ≡ c.handles + left

-- "http://ip:port" and a path, in a buffer of 100 bytes.
abbrev pub address : Options → List ℕ → List ℕ
address o path = take 99 (
    b'h'
    ∷ b't'
    ∷ b't'
    ∷ b'p'
    ∷ b':'
    ∷ b'/'
    ∷ b'/'
    ∷ (o.svr_ip ++ (b':' ∷ (int_text o.svr_port ++ path))))

abbrev pub register_path : List ℕ
register_path = b'/' ∷ b'r' ∷ b'e' ∷ b'g' ∷ b'i' ∷ b's' ∷ b't' ∷ b'e' ∷ b'r' ∷ []

abbrev pub heartbeat_path : List ℕ
heartbeat_path = b'/' ∷ b'h' ∷ b'e' ∷ b'a' ∷ b'r' ∷ b't' ∷ b'b' ∷ b'e' ∷ b'a' ∷ b't' ∷ []

register_url_lem :
    (o : Options)
    → snprintf 100 register_url (text o.svr_ip ∷ int o.svr_port ∷ []) ≡ ok (address o register_path)
unfolding snprintf format convert
register_url_lem o = refl

heartbeat_url_lem :
    (o : Options)
    → snprintf 100 heartbeat_url (text o.svr_ip ∷ int o.svr_port ∷ [])
      ≡ ok (address o heartbeat_path)
unfolding snprintf format convert
heartbeat_url_lem o = refl

-- The branches of the two requests, by the three tests.
register_branches :
    (handle performed right : Bool) (r : Request) (c : Curl)
    → let taken = handle && (performed && right) in
      Returns
        (λ (success, c').
          Reported handle taken r (if handle && not taken then 1 else 0) c success c')
        (if not handle
          then ok (false, c)
          else if not performed
          then ok (false, requested r c)
          else if not right
          then ok (false, requested r c)
          else ok (true, cleaned_up (requested r c)))
register_branches false p k r c =
    returns (record { success_lem = refl; requests = refl; handles = omega arith })
register_branches true false k r c =
    returns (record { success_lem = refl; requests = refl; handles = refl })
register_branches true true false r c =
    returns (record { success_lem = refl; requests = refl; handles = refl })
register_branches true true true r c =
    returns (record { success_lem = refl; requests = refl; handles = omega arith })

heartbeat_branches :
    (handle performed right : Bool) (r : Request) (c : Curl)
    → Returns
        (λ (success, c'). Reported handle (handle && (performed && right)) r 0 c success c')
        (if not handle
          then ok (false, c)
          else if not performed
          then ok (false, cleaned_up (requested r c))
          else if not right
          then ok (false, cleaned_up (requested r c))
          else ok (true, cleaned_up (requested r c)))
heartbeat_branches false p k r c =
    returns (record { success_lem = refl; requests = refl; handles = omega arith })
heartbeat_branches true false k r c =
    returns (record { success_lem = refl; requests = refl; handles = omega arith })
heartbeat_branches true true false r c =
    returns (record { success_lem = refl; requests = refl; handles = omega arith })
heartbeat_branches true true true r c =
    returns (record { success_lem = refl; requests = refl; handles = omega arith })

module _ (write_json : List (List ℕ × Field) → List ℕ) (o : Options) (ip : List ℕ) (port : ℕ) where
  abbrev pub registration : List ℕ → Request
  registration service_name = post (address o register_path) (
      write_json (
        (ip_key, string ip)
        ∷ (port_key, integer port)
        ∷ (service_name_key, string service_name)
        ∷ []))

  abbrev pub heartbeat : ℕ → ℕ → Request
  heartbeat cpu_usage memory_usage = post (address o heartbeat_path) (
      write_json (
        (ip_key, string ip)
        ∷ (port_key, integer port)
        ∷ (cpu_usage_key, float cpu_usage)
        ∷ (memory_usage_key, float memory_usage)
        ∷ []))

  -- RegisterMyself returns true exactly if there was a handle, the request was performed, and the
  -- answer has code 200; with a handle it makes one request, the registration as JSON, to a URL
  -- cut off at 99 bytes; a failure with a handle leaves the handle, and nothing else leaves one.
  pub register_myself-Reported :
      (service_name : List ℕ) (a : Answer) (c : Curl)
      → Returns
          (λ (success, c').
            Reported a.handle
              (accepted a)
              (registration service_name)
              (if a.handle && not (accepted a) then 1 else 0)
              c
              success
              c')
          (register_myself write_json o ip port service_name a c)
  unfolding register_myself
  register_myself-Reported service_name a c =
      rw (register_url_lem o)
        (register_branches a.handle a.performed (a.code == 200) (registration service_name) c)

  pub send_heartbeat-Reported :
      (cpu_usage memory_usage : ℕ) (a : Answer) (c : Curl)
      → Returns
          (λ (success, c').
            Reported a.handle (accepted a) (heartbeat cpu_usage memory_usage) 0 c success c')
          (send_heartbeat write_json o ip port cpu_usage memory_usage a c)
  unfolding send_heartbeat
  send_heartbeat-Reported cpu_usage memory_usage a c =
      rw (heartbeat_url_lem o) (
        heartbeat_branches a.handle a.performed (a.code == 200) (heartbeat cpu_usage memory_usage)
          c)

  -- All answers of the rounds are good.
  abbrev pub all_accepted : List (ℕ × ℕ × Answer) → Bool
  all_accepted [] = true
  all_accepted ((cpu_usage, memory_usage, a) ∷ rounds) = accepted a && all_accepted rounds

  -- The heartbeats of the rounds, the latest first.
  abbrev pub beats : List (ℕ × ℕ × Answer) → List Request → List Request
  beats [] before = before
  beats ((cpu_usage, memory_usage, a) ∷ rounds) before =
      beats rounds (heartbeat cpu_usage memory_usage ∷ before)

  -- While the name service accepts every heartbeat, the thread of the heartbeats goes on, has sent
  -- one request in each round, in order, and leaves no handle; if one is not accepted, the process
  -- ends.
  pub heartbeats-ends :
      (rounds : List (ℕ × ℕ × Answer)) (c : Curl)
      → (all_accepted rounds ≡ true
          → Returns
              (λ c'. (c'.requests ≡ beats rounds c.requests) × (c'.handles ≡ c.handles))
              (heartbeats write_json o ip port rounds c))
        × (all_accepted rounds ≡ false → heartbeats write_json o ip port rounds c ≡ aborts)
  unfolding heartbeats
  heartbeats-ends [] c = (λ e. returns (refl, refl), λ e. cc)
  heartbeats-ends ((cpu_usage, memory_usage, a) ∷ rounds) c =
      let ((success, c'), ran, sent) =
        Returns-inv (send_heartbeat-Reported cpu_usage memory_usage a c) in
      let ih = heartbeats-ends rounds c' in
      (
        λ all.
            let (taken, later) = and_true (accepted a) (all_accepted rounds) all in
            let made = and_true a.handle (a.performed && (a.code == 200)) taken in
            let first : c'.requests ≡ heartbeat cpu_usage memory_usage ∷ c.requests =
              sent.requests
              ∙ ap (λ b. if b then heartbeat cpu_usage memory_usage ∷ c.requests else c.requests)
                  made.0 in
            rw (ran, sent.success_lem ∙ taken)
              (Returns-map (ih.0 later) λ c'' (same, kept).
                (same ∙ ap (beats rounds) first, kept ∙ (sent.handles ∙ omega arith))),
        λ fails. elim (Bool-cases (accepted a)) [
          | inl taken ↦
              let later : all_accepted rounds ≡ false =
                ap (λ b. b && all_accepted rounds) (sym taken) ∙ fails in
              rw (ran, sent.success_lem ∙ taken) (ih.1 later)
          | inr refused ↦ rw (ran, sent.success_lem ∙ refused)
        ],
      )
