-- ===== src/Device/Transfer/Refines/Started.antt =====
-- A new transfer enters the table as the machine's first state; what pruning leaves was there before.
use mathlib.Core.Path.{subst}
use zshell_gateway.Base.{
  ℕ, zero, suc, String, ◌≡◌, ◌⊎◌, inl, inr, Bool-cases, some, arith, Option-cases, string_eq,
  length,
}
use zshell_gateway.Dict.{Dict, get, put, remove, get-put-cases, get-remove}
use zshell_gateway.Device.Types.{
  transfer_target_start, transfer_source_start, Transfer, Manager, ok, Net,
}
use zshell_gateway.Device.Session.{send}
use zshell_gateway.Device.Transfer.State.{is_some}
use zshell_gateway.Device.Transfer.History.{prune_history, prune_loop, oldest_final}
use zshell_gateway.Device.Transfer.Start.{Request, reserve, announce}
use zshell_gateway.Device.Transfer.Abstract.{here, Grows, grown, Refines}
use zshell_gateway.Device.Transfer.Refines.{
  Refines-trans, same_job, fail_locked-Refines, send-Refines,
}

kept_by_prune_loop :
    (fuel : ℕ) (ts : Dict String Transfer) (j : String) (u : Transfer)
    → get j (prune_loop fuel ts) ≡ some u
    → get j ts ≡ some u
unfolding prune_loop
kept_by_prune_loop zero ts j u h = h
kept_by_prune_loop (suc fuel) ts j u h =
    let id = oldest_final ts "" 0 in
    ground (arith, get-remove j id ts, kept_by_prune_loop fuel (remove id ts) j u)

-- An entry of the table after a reservation is the new one, or has grown from one that was there.
pub reserve-entries :
    (id : String) (t : Transfer) (m m' : Manager) (j : String) (u : Transfer)
    → reserve id t m ≡ ok m'
    → get j m'.transfers ≡ some u
    → ((id ≡ j) × (t ≡ u)) ⊎ Grows m.transfers j u
unfolding reserve prune_history
reserve-entries id t m m' j u h at =
    elim (Bool-cases (is_some (get t.source_device m.active_transfer))) [
      | inl busy ↦ absurd (ground (arith, busy))
      | inr src ↦ elim (Bool-cases (is_some (get t.target_device m.active_transfer))) [
        | inl busy ↦ absurd (ground (arith, src, busy))
        | inr tgt ↦
            let e : m'.transfers ≡ put id t (prune_history m.transfers) =
              ground (arith, src, tgt, h) in
            elim (get-put-cases j id t u (prune_history m.transfers)
              (subst (λ ts. get j ts ≡ some u) e at)) [
                | inl same ↦ inl same
                | inr (_, old) ↦ inr (
                    grown u (kept_by_prune_loop (length m.transfers) m.transfers j u old)
                      (same_job u) here)
              ]
      ]
    ]

pub announce-Refines :
    (net : Net) (now : ℕ) (id : String) (r : Request) (source target : ℕ) (m : Manager)
    → Refines m.transfers (announce net now id r source target m).transfers
unfolding announce
announce-Refines net now id r source target m =
    let v1 = transfer_target_start id r.target_path r.overwrite in
    let v2 = transfer_source_start id r.source_path in
    let m1 = (send net target v1 m).1 in
    let m2 = (send net source v2 m1).1 in
    let first = send-Refines net target v1 m in
    let second =
      Refines-trans m.transfers m1.transfers m2.transfers first (send-Refines net source v2 m1) in
    elim (Option-cases (send net target v1 m).0) [
      | inr (x, e) ↦
          rw (e, announce)
            (Refines-trans m.transfers m1.transfers _ first (fail_locked-Refines net now id _ m1))
      | inl e ↦
          rw (e, announce)
            (elim (Option-cases (send net source v2 m1).0) [
              | inr (x, e') ↦
                  rw (e', announce)
                    (Refines-trans m.transfers m2.transfers _ second
                      (fail_locked-Refines net now id _ m2))
              | inl e' ↦ rw (e', announce) second
            ])
    ]
