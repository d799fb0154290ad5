-- ===== src/Device/Transfer/Refines.antt =====
-- The operations on transfers implement the abstract machine.
pub mod Messages
pub mod Chunks
pub mod Started
use mathlib.Core.Path.{subst}
use zshell_gateway.Base.{
  ℕ, ◌+◌, ◌%◌, ◌≤◌, ◌-◌, String, ◌≡◌, ◌≢◌, refl, sym, ap, ◌∙◌, ◌⊎◌, inl, inr, Bool, true, false,
  not, ◌||◌, ◌&&◌, List, [], ◌∷◌, Option, none, some, arith, ltb, nat_beq, str_beq, Bool-cases,
  Option-cases, string_eq, length, if◌then◌else◌, if-elim, eq_iff,
}
use zshell_gateway.Dict.{Dict, get, put, get-put-cases}
use zshell_gateway.Text.Trim.{trim_space}
use zshell_gateway.Text.Hex.{to_lower}
use zshell_gateway.Device.Types.{
  Message, transfer_cancel, transfer_send, TransferState, preparing, transferring, verifying,
  completed, failed, cancelled, Transfer, Manager, Net, WireResponse, uint64,
}
use zshell_gateway.Device.Session.{send}
use zshell_gateway.Device.Transfer.State.{
  is_final, is_session, is_preparing, is_transferring, is_verifying, is_cancelled, preparing_iff,
  transferring_iff, verifying_iff, valid_sha256, store, release_devices, stop_timer, notify,
  fail_transfer_relay_locked, fail_transfer, send_or_fail, cancel_transfer,
}
use zshell_gateway.Device.Transfer.Preserve.{ended}
use zshell_gateway.Device.Transfer.Verified.{send-transfers, notify-transfers}
use zshell_gateway.Device.Transfer.Abstract.{
  View, view_of, Move, declare, begins, moves, checks, completes, ends, Moves, here, next,
  Moves-append, SameJob, Grows, grown, Refines,
}

pub same_job : (t : Transfer) → SameJob t t
same_job t = record {
  id = refl;
  source_device = refl;
  source_path = refl;
  target_device = refl;
  target_path = refl;
  overwrite = refl;
  created_at = refl;
}

pub SameJob-trans : {t u v : Transfer} → SameJob t u → SameJob u v → SameJob t v
SameJob-trans a b = record {
  id = b.id ∙ a.id;
  source_device = b.source_device ∙ a.source_device;
  source_path = b.source_path ∙ a.source_path;
  target_device = b.target_device ∙ a.target_device;
  target_path = b.target_path ∙ a.target_path;
  overwrite = b.overwrite ∙ a.overwrite;
  created_at = b.created_at ∙ a.created_at;
}

pub Refines-refl : (ts : Dict String Transfer) → Refines ts ts
Refines-refl ts id u h = grown u h (same_job u) here

pub Grows-Moves :
    (ts : Dict String Transfer) (id : String) (u v : Transfer)
    → Grows ts id u
    → SameJob u v
    → Moves (view_of u) (view_of v)
    → Grows ts id v
Grows-Moves ts id u v (grown t found s a) s' b =
    grown t found (SameJob-trans s s') (Moves-append a b)

pub Refines-trans : (a b c : Dict String Transfer) → Refines a b → Refines b c → Refines a c
Refines-trans a b c p q id v h = through (q id v h)
  where
    through : Grows b id v → Grows a id v
    through (grown u found s after) = Grows-Moves a id u v (p id u found) s after

pub Refines-same : (ts ts' : Dict String Transfer) → ts' ≡ ts → Refines ts ts'
Refines-same ts ts' e = subst (Refines ts) (sym e) (Refines-refl ts)

-- one entry has made moves
pub Refines-put :
    (ts : Dict String Transfer) (id : String) (t u : Transfer)
    → get id ts ≡ some t
    → SameJob t u
    → Moves (view_of t) (view_of u)
    → Refines ts (put id u ts)
Refines-put ts id t u found s a j v h = elim (get-put-cases j id u v ts h) [
  | inl (e, e') ↦
      subst (λ w. Grows ts j w) e' (grown t (subst (λ k. get k ts ≡ some t) e found) s a)
  | inr (_, old) ↦ grown v old (same_job v) here
]

pub Refines-if :
    (ts : Dict String Transfer) (b : Bool) (x y : Manager)
    → (b ≡ true → Refines ts x.transfers)
    → (b ≡ false → Refines ts y.transfers)
    → Refines ts (if b then x else y).transfers
Refines-if ts true x y p q = p refl
Refines-if ts false x y p q = q refl

-- one entry is written, and messages are sent
pub Refines-write :
    (ts ts' : Dict String Transfer) (id : String) (t u : Transfer)
    → get id ts ≡ some t
    → SameJob t u
    → Moves (view_of t) (view_of u)
    → ts' ≡ put id u ts
    → Refines ts ts'
Refines-write ts ts' id t u found s a e =
    subst (Refines ts) (sym e) (Refines-put ts id t u found s a)

pub send-Refines :
    (net : Net) (h : ℕ) (v : Message) (m : Manager)
    → Refines m.transfers (send net h v m).1.transfers
send-Refines net h v m =
    Refines-same m.transfers (send net h v m).1.transfers (send-transfers net h v m)

-- the write keeps the job
pub kept_job :
    (t u : Transfer)
    → u.id ≡ t.id
    → u.source_device ≡ t.source_device
    → u.source_path ≡ t.source_path
    → u.target_device ≡ t.target_device
    → u.target_path ≡ t.target_path
    → u.overwrite ≡ t.overwrite
    → u.created_at ≡ t.created_at
    → SameJob t u
kept_job t u a b c d e f g = record {
  id = a;
  source_device = b;
  source_path = c;
  target_device = d;
  target_path = e;
  overwrite = f;
  created_at = g;
}

-- A live transfer is ended.
pub ended-Moves :
    (message : String) (now : ℕ) (s : TransferState) (t : Transfer)
    → is_final t.state ≡ false
    → (s ≡ failed) ⊎ (s ≡ cancelled)
    → Moves (view_of t) (view_of (ended s message now t))
ended-Moves message now s t live which = next here (
    ends live (elim which [
      | inl f ↦ inl (ap (λ x. record (view_of t) { state = x }) f)
      | inr c ↦ inr (ap (λ x. record (view_of t) { state = x }) c)
    ]))

ended-Refines :
    (net : Net) (id message : String) (now : ℕ) (s : TransferState) (t : Transfer) (m : Manager)
    → get id m.transfers ≡ some t
    → is_final t.state ≡ false
    → (s ≡ failed) ⊎ (s ≡ cancelled)
    → Refines m.transfers
        (notify net t.target (transfer_cancel id) (
          notify net t.source
            (transfer_cancel id)
            (store id (ended s message now t) (release_devices t m)))).transfers
unfolding store release_devices
ended-Refines net id message now s t m found live which =
    Refines-write m.transfers _ id t (ended s message now t) found
      (kept_job t (ended s message now t) refl refl refl refl refl refl refl)
      (ended-Moves message now s t live which)
      (notify-transfers net t.target (transfer_cancel id) _
        ∙ notify-transfers net t.source (transfer_cancel id)
            (store id (ended s message now t) (release_devices t m)))

module _ (net : Net) (now : ℕ) (id message : String) (m : Manager) where
  pub fail_locked-Refines :
      Refines m.transfers (fail_transfer_relay_locked net now id message m).transfers
  unfolding fail_transfer_relay_locked store release_devices stop_timer
  fail_locked-Refines = elim (Option-cases (get id m.transfers)) [
    | inl e ↦ rw (e, fail_transfer_relay_locked) (Refines-refl m.transfers)
    | inr (t, e) ↦
        rw (e, fail_transfer_relay_locked)
          (Refines-if m.transfers (is_final t.state) _ _ (λ _. Refines-refl m.transfers)
            (λ live. ended-Refines net id message now failed t m e live (inl refl)))
  ]

  pub fail-Refines : Refines m.transfers (fail_transfer net now id message m).transfers
  unfolding fail_transfer
  fail-Refines = elim (Option-cases (get id m.transfers)) [
    | inl e ↦ rw (e, fail_transfer) (Refines-refl m.transfers)
    | inr (t, e) ↦ rw (e, fail_transfer) fail_locked-Refines
  ]

pub cancel-Refines :
    (net : Net) (now : ℕ) (raw_id : String) (m : Manager)
    → Refines m.transfers (cancel_transfer net now raw_id m).1.transfers
unfolding cancel_transfer store release_devices stop_timer
cancel-Refines net now raw_id m =
    let id = trim_space raw_id in
    elim (Option-cases (get id m.transfers)) [
      | inl e ↦ rw (e, cancel_transfer) (Refines-refl m.transfers)
      | inr (t, e) ↦
          rw (e, cancel_transfer)
            (elim (Bool-cases (is_final t.state)) [
              | inl f ↦ rw f (Refines-refl m.transfers)
              | inr live ↦
                  rw live (ended-Refines net id "cancelled" now cancelled t m e live (inr refl))
            ])
    ]

pub send_or_fail-Refines :
    (net : Net) (now : ℕ) (id prefix : String) (o : Option ℕ) (v : Message) (m : Manager)
    → Refines m.transfers (send_or_fail net now id prefix o v m).transfers
unfolding send_or_fail
send_or_fail-Refines net now id prefix none v m = Refines-refl m.transfers
send_or_fail-Refines net now id prefix (some h) v m = elim (Option-cases (send net h v m).0) [
  | inl e ↦ rw (e, send_or_fail) (send-Refines net h v m)
  | inr (x, e) ↦
      rw (e, send_or_fail)
        (Refines-trans m.transfers (send net h v m).1.transfers _ (send-Refines net h v m)
          (fail_locked-Refines net now id _ (send net h v m).1))
]
