-- ===== src/Device/Calls/Counting.antt =====
-- `activeCalls` against the table of the waiters.
use zshell_gateway.Base.{
  ◌⊎◌, ℕ, zero, suc, ◌+◌, ◌≡◌, true, false, List, [], ◌∷◌, Option, none, some, nat_eq,
}
use zshell_gateway.Dict.{Dict, get, put, remove, Distinct}
use zshell_gateway.Device.Types.{
  ℤ, pos, incr, PendingKind, pending_call, pending_ping, Session, Result, ok, err, Error,
}
use zshell_gateway.Device.Calls.{count}
use zshell_gateway.Device.Session.{
  register_pending, take_pending, unregister_pending, uncount, close,
}

abbrev pub weight : PendingKind → ℕ
weight pending_call = 1
weight pending_ping = 0

-- how many of the waiters wait for a call
abbrev pub calls_in : Dict ℕ PendingKind → ℕ
calls_in [] = 0
calls_in ((_, kind) ∷ rest) = weight kind + calls_in rest

-- `active_calls` with the calls that have registered and not yet counted themselves
abbrev pub plus : ℕ → ℤ → ℤ
plus zero z = z
plus (suc n) z = incr (plus n z)

-- A session, and how many calls have registered and have not come to `activeCalls.Add(1)`.
pub record Tracked : Type 0 where
  pub session : Session
  pub uncounted : ℕ

-- No id has two waiters. While the session is open, `activeCalls` with the calls that have not counted
-- themselves is the number of the calls that wait; when it is closed, nobody waits.
pub record IsTracked (t : Tracked) : Type 0 where
  pub distinct : Distinct t.session.pending
  pub counted :
      t.session.done ≡ false
      → plus t.uncounted t.session.active_calls ≡ pos (calls_in t.session.pending)
  pub emptied : t.session.done ≡ true → t.session.pending ≡ []

-- What happens to the table of a session: a call or a ping registers, a call that has registered counts
-- itself, the reader takes a waiter, a sender or a timeout withdraws one, the session closes.
pub data PendingOp : Type 0 where
  registers_call registers_ping takes withdraws : ℕ → PendingOp
  counts closes : PendingOp

abbrev pub registered_call : Result Session → Tracked → Tracked
registered_call (err _) t = t
registered_call (ok s) t = record { session = s; uncounted = suc t.uncounted }

abbrev pub registered_ping : Result Session → Tracked → Tracked
registered_ping (err _) t = t
registered_ping (ok s) t = record t { session = s }

-- a call counts itself once
abbrev pub counted_by : ℕ → Session → Tracked
counted_by zero s = record { session = s; uncounted = zero }
counted_by (suc n) s = record { session = count s; uncounted = n }

unfoldable pub apply_op : Tracked → PendingOp → Tracked
unfolding count
apply_op t (registers_call id) = registered_call (register_pending id pending_call t.session) t
apply_op t (registers_ping id) = registered_ping (register_pending id pending_ping t.session) t
apply_op t counts = counted_by t.uncounted t.session
apply_op t (takes id) = record t { session = (take_pending id t.session).1 }
apply_op t (withdraws id) = record t { session = unregister_pending id t.session }
apply_op t closes = record t { session = close t.session }

unfoldable pub apply_ops : Tracked → List PendingOp → Tracked
unfolding apply_op
apply_ops t [] = t
apply_ops t (op ∷ ops) = apply_ops (apply_op t op) ops

-- A registration fails, or the session is open and it puts the waiter under an id that was free.
abbrev Registers : ℕ → PendingKind → Session → Result Session → Type 0
Registers id kind s r =
    ((e : Error) × (r ≡ err e))
    ⊎ ((s.done ≡ false)
        × (get id s.pending ≡ none)
        × (r ≡ ok (record s { pending = put id kind s.pending })))

-- what is left when the waiter, if there is one, is gone
abbrev without : ℕ → Session → Option PendingKind → Session
without id s none = s
without id s (some kind) = record s {
  pending = remove id s.pending;
  active_calls = uncount kind s.active_calls;
}
