-- ===== src/Gateway/Tools/Calls/Sent.antt =====
-- What the device of a tool is sent.
use mathlib.Core.Path.{subst}
use zshell_gateway.Dict.{get, put}
use zshell_gateway.Base.{
  ℕ, String, ◌≡◌, refl, sym, ap, ◌∙◌, inl, inr, [], ◌∷◌, ◌++◌, Option, none, arith, nat_eq,
  nat_beq_iff, Bool-cases, Option-cases,
}
use zshell_gateway.Device.Types.{Manager, Session, Message, Error, ok, err, Net, pending_call}
use zshell_gateway.Device.Types
use zshell_gateway.Device.Session.{send, accepted, set_session, register_pending}
use zshell_gateway.Device.Registry.{resolve}
use zshell_gateway.Device.Registry.Resolved.{resolved_by, resolve_lem}
use zshell_gateway.Text.Trim.{trim_space}
use zshell_gateway.Device.Transfer.Started.{Result-cases}
use zshell_gateway.Device.Calls.{
  RawJson, or_empty_object, Waiting, waiting, next_id, take_id, register_call, count, count_call,
  send_registered, send_call, begin_call, start_call,
}
use zshell_gateway.Device.Calls
use zshell_gateway.Gateway.Tools.Format.{Printing}
use zshell_gateway.Gateway.Tools.Calls.{
  Codec, split_device_arguments, calling, start_device_tool, started_tool,
}
use zshell_gateway.Gateway.Tools.Calls.Routed.{Forwarded, split-Forwarded}

-- The session has been sent this message, after what it had been sent before.
abbrev pub IsSent : ℕ → Message → Manager → Manager → Type 0
IsSent h v m m' = (m'.sessions h).sent ≡ (m.sessions h).sent ++ v ∷ []

send-IsSent :
    (net : Net) (h : ℕ) (v : Message) (m m' : Manager)
    → send net h v m ≡ (none, m')
    → IsSent h v m m'
unfolding send accepted set_session
send-IsSent net h v m m' e = ground (arith, e, nat_beq_iff h h)

send_registered-IsSent :
    (net : Net) (h id : ℕ) (v : Message) (m m' : Manager)
    → send_registered net h id v m ≡ (none, m')
    → IsSent h v m m'
unfolding send_registered
send_registered-IsSent net h id v m m' e = elim (Option-cases (send net h v m).0) [
  | inr (x, f) ↦ absurd (ground (arith, f, e))
  | inl f ↦
      let same : (send net h v m).1 ≡ m' = ground (arith, f, e) in
      send-IsSent net h v m m' (cc (f, same))
]

register_pending-sent :
    (id : ℕ) (s s' : Session) → register_pending id pending_call s ≡ ok s' → s'.sent ≡ s.sent
unfolding register_pending
register_pending-sent id s s' e = elim (Bool-cases s.done) [
  | inl d ↦ absurd (ground (arith, d, e))
  | inr d ↦ elim (Option-cases (get id s.pending)) [
    | inr (x, f) ↦ absurd (ground (arith, d, f, e))
    | inl f ↦
        let same : record s { pending = put id pending_call s.pending } ≡ s' =
          ground (arith, d, f, e) in
        ap (λ (y : Session). y.sent) (sym same)
  ]
]

set_session-sent :
    (h : ℕ) (s : Session) (m : Manager) → ((set_session h s m).sessions h).sent ≡ s.sent
unfolding set_session
set_session-sent h s m = ground (arith, nat_beq_iff h h)

register_call-sent :
    (ctx : Option String) (h id : ℕ) (operation : String) (raw : RawJson) (m : Manager)
    → ((register_call ctx h id operation raw m).1.sessions h).sent ≡ (m.sessions h).sent
unfolding register_call
register_call-sent ctx h id operation raw m = elim (Bool-cases (or_empty_object raw).valid) [
  | inr v ↦ rw (v, register_call) refl
  | inl v ↦ elim (Option-cases ctx) [
    | inr (x, c) ↦ rw (v, c, register_call) refl
    | inl c ↦ elim (Result-cases (register_pending id pending_call (m.sessions h))) [
      | inr (x, e) ↦ rw (v, c, e, register_call) refl
      | inl (s, e) ↦
          rw (v, c, e, register_call)
            (set_session-sent h s m ∙ register_pending-sent id (m.sessions h) s e)
    ]
  ]
]

count_call-sent : (h : ℕ) (m : Manager) → ((count_call h m).sessions h).sent ≡ (m.sessions h).sent
unfolding count_call count
count_call-sent h m = set_session-sent h (count (m.sessions h)) m

begin_call-IsSent :
    (net : Net) (ctx : Option String) (h id : ℕ) (operation : String) (raw : RawJson)
    (m m' : Manager)
    → begin_call net ctx h id operation raw m ≡ (none, m')
    → IsSent h (Types.Message.call id operation (or_empty_object raw).text) m m'
unfolding begin_call send_call
begin_call-IsSent net ctx h id operation raw m m' e =
    let m1 = (register_call ctx h id operation raw m).1 in
    let v = Types.Message.call id operation (or_empty_object raw).text in
    elim (Option-cases (register_call ctx h id operation raw m).0) [
      | inr (x, f) ↦ absurd (ground (arith, f, e))
      | inl f ↦
          send_registered-IsSent net h id v (count_call h m1) m' (ground (arith, f, e))
          ∙ ap (λ l. l ++ v ∷ [])
              (count_call-sent h m1 ∙ register_call-sent ctx h id operation raw m)
    ]

-- The session that was resolved waits under the manager's next id, and was sent the call.
record IsCalling (name operation : String) (raw : RawJson) (m : Manager) (h id : ℕ) (m' : Manager)
    : Type 0 where
  found : resolve name m ≡ ok h
  numbered : id ≡ next_id m
  sent : IsSent h (Types.Message.call id operation (or_empty_object raw).text) m m'

start_call-IsCalling :
    (net : Net) (now : ℕ) (ctx : Option String) (name operation : String) (raw : RawJson)
    (m : Manager) (h id : ℕ) (m' : Manager)
    → start_call net now ctx name operation raw m ≡ (waiting h id, m')
    → IsCalling name operation raw m h id m'
unfolding start_call
start_call-IsCalling net now ctx name operation raw m h id m' e =
    elim (Result-cases (resolve name m)) [
      | inr (x, r) ↦ absurd (ground (arith, r, e))
      | inl (k, r) ↦
          elim (Option-cases (begin_call net ctx k (next_id m) operation raw (take_id m)).0) [
            | inr (x, f) ↦ absurd (ground (arith, r, f, e))
            | inl f ↦
                let same : k ≡ h = ground (arith, r, f, e) in
                let number : next_id m ≡ id = ground (arith, r, f, e) in
                let after : (begin_call net ctx k (next_id m) operation raw (take_id m)).1 ≡ m' =
                  ground (arith, r, f, e) in
                let went =
                  begin_call-IsSent net ctx k (next_id m) operation raw (take_id m) m'
                    (cc (f, after)) in
                record {
                  found = r ∙ ap ok same;
                  numbered = sym number;
                  sent =
                      subst
                        (λ j.
                          IsSent h (Types.Message.call j operation (or_empty_object raw).text) m m')
                        number
                        (subst
                          (λ j.
                            IsSent j
                              (Types.Message.call (next_id m) operation (or_empty_object raw).text)
                              m m')
                          same went);
                }
          ]
    ]

waits :
    (x : Codec) (y : Printing) (tool name who : String) (w : Waiting × Manager) (h id : ℕ)
    (m' : Manager)
    → started_tool x y tool name w ≡ (calling who h id, m')
    → (w ≡ (waiting h id, m')) × (name ≡ who)
unfolding started_tool
waits x y tool name who (Calls.Waiting.finished o, m) h id m' e = absurd (ground (arith, e))
waits x y tool name who (Calls.Waiting.waiting k j, m) h id m' e = (cc e, ground (arith, e))

-- What stands behind a tool's call that waits for a device.
pub record IsForwarded (x : Codec) (tool arguments name : String) (m : Manager) (h id : ℕ)
    (m' : Manager) : Type 0 where
  pub written : String
  pub forwarded : Forwarded x arguments name written
  pub found : resolved_by (trim_space name) m ≡ ok h
  pub numbered : id ≡ next_id m
  pub sent :
      IsSent h
        (Types.Message.call id tool
          (or_empty_object (record { text = written; valid = x.valid written })).text)
        m
        m'

-- A tool that waits for a device has sent to exactly this device a call of the tool, under the manager's next id.
-- The device is the one that the field "device" of the arguments names, trimmed, or the only one if that is
-- absent or blank; and what is sent are the arguments without that field, written back as an object ("{}" if
-- nothing was sent, or written).
pub start_device_tool-IsForwarded :
    (x : Codec) (y : Printing) (net : Net) (now : ℕ) (ctx : Option String)
    (tool arguments name : String) (m : Manager) (h id : ℕ) (m' : Manager)
    → start_device_tool x y net now ctx tool arguments m ≡ (calling name h id, m')
    → IsForwarded x tool arguments name m h id m'
unfolding start_device_tool
start_device_tool-IsForwarded x y net now ctx tool arguments name m h id m' e =
    elim (Result-cases (split_device_arguments x arguments)) [
      | inr (z, s) ↦ absurd (ground (arith, s, e))
      | inl ((who, written), s) ↦
          let raw : RawJson = record { text = written; valid = x.valid written } in
          let (started, same) =
            waits x y tool who name (start_call net now ctx who tool raw m) h id m'
              (ground (arith, s, e)) in
          let call = start_call-IsCalling net now ctx who tool raw m h id m' started in
          record {
            written = written;
            forwarded =
                subst (λ n. Forwarded x arguments n written) same
                  (split-Forwarded x arguments who written s);
            found =
                subst (λ n. resolved_by (trim_space n) m ≡ ok h) same
                  (sym (resolve_lem who m) ∙ call.found);
            numbered = call.numbered;
            sent = call.sent;
          }
    ]
