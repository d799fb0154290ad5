-- ===== src/Device/Events/Stable/Calls.antt =====
-- The same of calls, pings and the heartbeat, and of a whole event.
use zshell_gateway.Base.{
  ℕ, String, inl, inr, Option, none, some, arith, Option-cases, if-elim, string_eq, not, leb, ◌+◌,
}
use zshell_gateway.Dict.{Dict}
use zshell_gateway.Device.Types.{
  Transfer, Manager, Error, Message, Result, ok, err, Net, context_error, pending_call,
  pending_ping,
}
use zshell_gateway.Device.Session.{send, set_session, register_pending}
use zshell_gateway.Device.Registry.{is_attached}
use zshell_gateway.Device.Transfer.Start.{finish_start, ready_closed, context_done}
use zshell_gateway.Device.Calls.{
  RawJson, or_empty_object, Envelope, Outcome, returned, device_failure, failed, Wake, answered,
  gave_up, session_done, send_registered, register_call, count_call, send_call, call_error,
  complete_call, finish_call, begin_ping, start_ping, finish_ping, after_ping, monitor_tick,
  is_transport_closed, is_positive, take_id, next_id,
}
use zshell_gateway.Device.Events.{
  Event, attaches, detaches, shuts_down, receives, posts_chunk, reserves, announces, fails, wakes,
  cancels, expires, takes_id, call_registers, call_counts, call_sends, call_fails, call_wakes,
  heartbeats, step, reserve_event,
}
use zshell_gateway.Device.Transfer.Start
use zshell_gateway.Device.Transfer.Started.{Result-cases}
use zshell_gateway.Device.Events.Stable.{
  Laws, Kept, send-Kept, detach-Kept, attach-Kept, close_manager-Kept, serve_frame-Kept,
}

-- What is left to show of an event: a new transfer keeps the property.
abbrev pub Starts : (Dict String Transfer → Dict String String → Type 0) → Manager → Event → Type 0
Starts P m (reserves now random raw source target) =
    Kept P (reserve_event now random raw source target m)
Starts P m _ = Unit {0}

module _ {P : Dict String Transfer → Dict String String → Type 0} (laws : Laws P) where
  send_registered-Kept :
      (net : Net) (h id : ℕ) (v : Message) (m : Manager)
      → Kept P m
      → Kept P (send_registered net h id v m).1
  unfolding send_registered set_session
  send_registered-Kept net h id v m inv = elim (Option-cases (send net h v m).0) [
    | inl e ↦ rw (e, send_registered) (send-Kept laws net h v m inv)
    | inr (x, e) ↦ rw (e, send_registered) (send-Kept laws net h v m inv)
  ]

  register_call-Kept :
      (ctx : Option String) (h id : ℕ) (operation : String) (raw : RawJson) (m : Manager)
      → Kept P m
      → Kept P (register_call ctx h id operation raw m).1
  unfolding register_call set_session
  register_call-Kept ctx h id operation raw m inv =
      if-elim (λ (p : Option Error × Manager). Kept P p.1) (not (or_empty_object raw).valid) _ _
        (λ _. inv) (λ _. go ctx)
    where
      go :
          (c : Option String)
          → Kept P
              (elim c as (λ _. Option Error × Manager) [
                | some e ↦ (some (context_error e), m)
                | none ↦ elim (register_pending id pending_call (m.sessions h)) [
                  | err e ↦ (some e, m)
                  | ok s ↦ (none, set_session h s m)
                ]
              ]).1
      go (some e) = inv
      go none = elim (Result-cases (register_pending id pending_call (m.sessions h))) [
        | inr (x, e) ↦ rw e inv
        | inl (s, e) ↦ rw e inv
      ]

  call_error-Kept :
      (net : Net) (now : ℕ) (name : String) (h : ℕ) (e : Error) (m : Manager)
      → Kept P m
      → Kept P (call_error net now name h e m).1
  unfolding call_error
  call_error-Kept net now name h e m inv =
      if-elim (λ (p : Outcome × Manager). Kept P p.1) (is_transport_closed e) _ _
        (λ _. detach-Kept laws net now h m inv) (λ _. inv)

  complete_call-Kept :
      (unmarshal : String → Option Envelope) (net : Net) (now : ℕ) (name : String) (h id : ℕ)
      (w : Wake) (m : Manager)
      → Kept P m
      → Kept P (complete_call unmarshal net now name h id w m).1
  unfolding complete_call
  complete_call-Kept unmarshal net now name h id w m inv = go (finish_call unmarshal id w)
    where
      go :
          (o : Outcome)
          → Kept P
              (elim o as (λ _. Outcome × Manager) [
                | failed e ↦ call_error net now name h e m
                | returned result is_error ↦ (returned result is_error, m)
                | device_failure f ↦ (device_failure f, m)
              ]).1
      go (failed e) = call_error-Kept net now name h e m inv
      go (returned r b) = inv
      go (device_failure f) = inv

  begin_ping-Kept :
      (net : Net) (h id : ℕ) (m : Manager) → Kept P m → Kept P (begin_ping net h id m).1
  unfolding begin_ping set_session
  begin_ping-Kept net h id m inv =
      elim (Result-cases (register_pending id pending_ping (m.sessions h))) [
        | inr (x, e) ↦ rw (e, begin_ping) inv
        | inl (s, e) ↦ rw (e, begin_ping) (send_registered-Kept net h id _ (set_session h s m) inv)
      ]

  start_ping-Kept : (net : Net) (h : ℕ) (m : Manager) → Kept P m → Kept P (start_ping net h m).1
  unfolding start_ping
  start_ping-Kept net h m inv =
      if-elim (λ (p : Result ℕ × Manager). Kept P p.1) (not (is_attached h m)) _ _ (λ _. inv)
        (λ _. elim (Option-cases (begin_ping net h (next_id m) (take_id m)).0) [
          | inl e ↦ rw (e, start_ping) (begin_ping-Kept net h _ (take_id m) inv)
          | inr (x, e) ↦ rw (e, start_ping) (begin_ping-Kept net h _ (take_id m) inv)
        ])

  finish_ping-Kept :
      (h id : ℕ) (w : Wake) (m : Manager) → Kept P m → Kept P (finish_ping h id w m).1
  unfolding finish_ping set_session
  finish_ping-Kept h id (answered r) m inv = ground arith
  finish_ping-Kept h id (gave_up t) m inv = inv
  finish_ping-Kept h id session_done m inv = inv

  after_ping-Kept :
      (net : Net) (now h : ℕ) (o : Option Error) (failures : ℕ) (m : Manager)
      → Kept P m
      → Kept P (after_ping net now h o failures m).1
  unfolding after_ping
  after_ping-Kept net now h none failures m inv = inv
  after_ping-Kept net now h (some e) failures m inv =
      if-elim (λ (p : Option ℕ × Manager). Kept P p.1) (is_transport_closed e) _ _
        (λ _. detach-Kept laws net now h m inv)
        (λ _.
          if-elim (λ (p : Option ℕ × Manager). Kept P p.1) (leb 3 (failures + 1)) _ _
            (λ _. detach-Kept laws net now h m inv) (λ _. inv))

  monitor_tick-Kept :
      (net : Net) (now h : ℕ) (w : Wake) (failures : ℕ) (m : Manager)
      → Kept P m
      → Kept P (monitor_tick net now h w failures m).1
  unfolding monitor_tick
  monitor_tick-Kept net now h w failures m inv =
      if-elim (λ (p : Option ℕ × Manager). Kept P p.1) (is_positive (m.sessions h).active_calls) _ _
        (λ _. inv)
        (λ _. elim (Result-cases (start_ping net h m).0) [
          | inr (x, e) ↦
              rw (e, monitor_tick)
                (after_ping-Kept net now h (some x) failures (start_ping net h m).1
                  (start_ping-Kept net h m inv))
          | inl (id, e) ↦
              rw (e, monitor_tick)
                (let p = finish_ping h id w (start_ping net h m).1 in
                  after_ping-Kept net now h p.0 failures p.1
                    (finish_ping-Kept h id w _ (start_ping-Kept net h m inv)))
        ])

  finish_start-Kept :
      (net : Net) (now : ℕ) (id : String) (w : Start.Wake) (m : Manager)
      → Kept P m
      → Kept P (finish_start net now id w m).1
  unfolding finish_start
  finish_start-Kept net now id ready_closed m inv = inv
  finish_start-Kept net now id (context_done e) m inv = laws.cancels net now id m inv

  pub step-Kept : (m : Manager) (e : Event) → Kept P m → Starts P m e → Kept P (step m e)
  unfolding step
  step-Kept m (attaches t info now) inv f = attach-Kept laws t info now m inv
  step-Kept m (detaches net now h) inv f = detach-Kept laws net now h m inv
  step-Kept m (shuts_down net now) inv f = close_manager-Kept laws net now m inv
  step-Kept m (receives net now h frame) inv f = serve_frame-Kept laws net now h frame m inv
  step-Kept m (posts_chunk net now h id n payload) inv f = laws.chunks net now h id n payload m inv
  step-Kept m (reserves now random raw source target) inv f = f
  step-Kept m (announces net now id r source target) inv f =
      laws.announces net now id r source target m inv
  step-Kept m (fails net now id message) inv f = laws.fails net now id message m inv
  step-Kept m (wakes net now id w) inv f = finish_start-Kept net now id w m inv
  step-Kept m (cancels net now id) inv f = laws.cancels net now id m inv
  step-Kept m (expires net now id) inv f = laws.expires net now id m inv
  step-Kept m takes_id inv f = inv
  step-Kept m (call_registers ctx h id o a) inv f = register_call-Kept ctx h id o a m inv
  step-Kept m (call_counts h) inv f = unfold count_call set_session in inv
  step-Kept m (call_sends net h id o a) inv f =
      unfold send_call in send_registered-Kept net h id _ m inv
  step-Kept m (call_fails net now name h e) inv f = call_error-Kept net now name h e m inv
  step-Kept m (call_wakes u net now name h id w) inv f =
      complete_call-Kept u net now name h id w m inv
  step-Kept m (heartbeats net now h w n) inv f = monitor_tick-Kept net now h w n m inv
