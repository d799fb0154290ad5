-- ===== src/Device/Transfer/Started.antt =====
-- A new transfer keeps the invariant, provided that its random id is new.
use mathlib.Core.Path.{subst}
use zshell_gateway.Base.{
  ℕ, String, ◌≡◌, refl, ◌≢◌, ◌⊎◌, inl, inr, false, List, Option, none, some, arith, eq_iff,
  Bool-cases, Option-cases, string_eq,
}
use zshell_gateway.Dict.{Dict, get, put, get-put, get-put-cases, get-put_self, put-Distinct}
use zshell_gateway.Device.Types.{
  preparing, Transfer, Manager, Error, Result, ok, err, Net, transfer_target_start,
  transfer_source_start,
}
use zshell_gateway.Device.Session.{send}
use zshell_gateway.Device.Transfer.State.{is_final, is_some}
use zshell_gateway.Device.Transfer.History.{prune_history}
use zshell_gateway.Device.Transfer.Start.{
  Request, new_transfer_id, new_transfer, reserve, announce, check_request, reserve_new, Wake,
  ready_closed, context_done, finish_start,
}
use zshell_gateway.Device.Transfer.Invariant.{IsSound, Inv, Ok, IsSound-at}
use zshell_gateway.Device.Transfer.Pruning.{Prunes, prune_history-Prunes}
use zshell_gateway.Device.Transfer.Preserve.{
  fail_transfer_relay_locked-Ok, send-Ok, cancel_transfer-Ok,
}

module _ {ts rest : Dict String Transfer} {act : Dict String String} (inv : Inv ts act)
    (p : Prunes ts rest) where
  add-Inv :
      (id : String) (t : Transfer)
      → get id ts ≡ none
      → get t.source_device act ≡ none
      → get t.target_device act ≡ none
      → IsSound id t
      → is_final t.state ≡ false
      → Inv (put id t rest) (put t.target_device id (put t.source_device id act))
  add-Inv id t fresh src tgt sound' live = record {
    distinct = put-Distinct id t rest p.distinct;
    sound = λ j u h. elim (get-put-cases j id t u rest h) [
      | inl (q, r) ↦ subst (λ k. IsSound k u) q (subst (IsSound id) r sound')
      | inr (_, old) ↦ inv.sound j u (p.kept j u old)
    ];
    reserved = λ j u h l. elim (get-put-cases j id t u rest h) [
      | inl (q, r) ↦ subst (λ k. Both k u) q (subst (Both id) r own)
      | inr (_, old) ↦
          let r = inv.reserved j u (p.kept j u old) l in
          (other u.source_device j r.0, other u.target_device j r.1)
    ];
    held = λ name j h.
        elim (get-put-cases name t.target_device id j (put t.source_device id act) h) [
          | inl (q, r) ↦ mine name j r (inr q)
          | inr (_, h') ↦ elim (get-put-cases name t.source_device id j act h') [
            | inl (q, r) ↦ mine name j r (inl q)
            | inr (_, old) ↦
                let (u, at, l, names) = inv.held name j old in
                (u, ground (arith, get-put j id t rest, eq_iff id j, p.live j u at l), l, names)
          ]
        ];
  }
    where
      Both : String → Transfer → Type 0
      Both k u =
          (get u.source_device (put t.target_device id (put t.source_device id act)) ≡ some k)
          × (get u.target_device (put t.target_device id (put t.source_device id act)) ≡ some k)

      own : Both id t
      own = (
        ground (
          arith,
          get-put t.source_device t.target_device id (put t.source_device id act),
          get-put_self t.source_device id act,
        ),
        get-put_self t.target_device id (put t.source_device id act),
      )

      other :
          (name j : String)
          → get name act ≡ some j
          → get name (put t.target_device id (put t.source_device id act)) ≡ some j
      other name j h = ground (
        arith,
        get-put name t.target_device id (put t.source_device id act),
        get-put name t.source_device id act,
        eq_iff t.target_device name,
        eq_iff t.source_device name,
      )

      mine :
          (name j : String)
          → id ≡ j
          → (t.source_device ≡ name) ⊎ (t.target_device ≡ name)
          → (u : Transfer) × (get j (put id t rest) ≡ some u)
            × (is_final u.state ≡ false)
            × ((u.source_device ≡ name) ⊎ (u.target_device ≡ name))
      mine name j q names =
          (t, subst (λ k. get k (put id t rest) ≡ some t) q (get-put_self id t rest), live, names)

pub Result-cases {ℓ} :
    {A : Type ℓ} (r : Result A) → ((a : A) × (r ≡ ok a)) ⊎ ((e : Error) × (r ≡ err e))
Result-cases (ok a) = inl (a, refl)
Result-cases (err e) = inr (e, refl)

is_some-none : {A : Type 0} (o : Option A) → is_some o ≡ false → o ≡ none
is_some-none none h = refl
is_some-none (some a) h = absurd (cc h)

reserve-Ok :
    (id : String) (t : Transfer) (m m' : Manager)
    → Ok m
    → get id m.transfers ≡ none
    → IsSound id t
    → is_final t.state ≡ false
    → reserve id t m ≡ ok m'
    → Ok m'
unfolding reserve
reserve-Ok id t m m' inv fresh s live h =
    elim (Bool-cases (is_some (get t.source_device m.active_transfer))) [
      | inl busy ↦ absurd (ground (arith, busy))
      | inr src ↦ elim (Bool-cases (is_some (get t.target_device m.active_transfer))) [
        | inl busy ↦ absurd (ground (arith, src, busy))
        | inr tgt ↦ subst Ok (done src tgt) (
            add-Inv inv (prune_history-Prunes m.transfers inv.distinct) id t fresh
              (is_some-none _ src) (is_some-none _ tgt) s live)
      ]
    ]
  where
    done :
        is_some (get t.source_device m.active_transfer) ≡ false
        → is_some (get t.target_device m.active_transfer) ≡ false
        → record m {
          transfers = put id t (prune_history m.transfers);
          active_transfer = put t.target_device id (put t.source_device id m.active_transfer);
        }
          ≡ m'
    done src tgt = ground (arith, src, tgt, h)

pub announce-Ok :
    (net : Net) (now : ℕ) (id : String) (r : Request) (source target : ℕ) (m : Manager)
    → Ok m
    → Ok (announce net now id r source target m)
unfolding announce
announce-Ok net now id r source target m inv =
    let v1 = transfer_target_start id r.target_path r.overwrite in
    let v2 = transfer_source_start id r.source_path in
    let inv1 = send-Ok net target v1 m inv in
    elim (Option-cases (send net target v1 m).0) [
      | inr (x, e) ↦ rw (e, announce) (fail_transfer_relay_locked-Ok net now id _ _ inv1)
      | inl e ↦
          rw (e, announce)
            (elim (Option-cases (send net source v2 (send net target v1 m).1).0) [
              | inr (x, e') ↦
                  rw (e', announce)
                    (fail_transfer_relay_locked-Ok net now id _ _ (send-Ok net source v2 _ inv1))
              | inl e' ↦ rw (e', announce) (send-Ok net source v2 _ inv1)
            ])
    ]

new_transfer-IsSound :
    (id : String) (now : ℕ) (r : Request) (source target : ℕ)
    → r.source_device ≢ r.target_device
    → IsSound id (new_transfer id now r source target)
unfolding new_transfer is_final
new_transfer-IsSound id now r source target ne =
    IsSound-at _ preparing refl refl (refl, refl, refl) ((λ e. cc e), (λ e. cc e), ne)

checked_request : (r : Request) → check_request r ≡ none → r.source_device ≢ r.target_device
unfolding check_request
checked_request r h e = ground (arith, h, (eq_iff r.source_device r.target_device).1 e)

-- The reservation of a new transfer keeps the invariant, provided that its random id is new.
pub reserve_new-Ok :
    (now : ℕ) (random : Result (List ℕ)) (r : Request) (source target : ℕ) (m : Manager)
    → Ok m
    → ((id : String) → new_transfer_id random ≡ ok id → get id m.transfers ≡ none)
    → check_request r ≡ none
    → Ok (reserve_new now random r source target m).1
unfolding reserve_new
reserve_new-Ok now random r source target m inv fresh fine =
    elim (Result-cases (new_transfer_id random)) [
      | inr (x, f) ↦ rw (f, reserve_new) inv
      | inl (id, f) ↦
          rw (f, reserve_new)
            (elim (Result-cases (reserve id (new_transfer id now r source target) m)) [
              | inr (x, g) ↦ rw (g, reserve_new) inv
              | inl (m', g) ↦
                  rw (g, reserve_new)
                    (reserve-Ok id _ m m' inv (fresh id f)
                      (new_transfer-IsSound id now r source target (checked_request r fine))
                      (unfold new_transfer is_final in refl) g)
            ])
    ]

-- So does the end of the wait.
pub finish_start-Ok :
    (net : Net) (now : ℕ) (id : String) (w : Wake) (m : Manager)
    → Ok m
    → Ok (finish_start net now id w m).1
unfolding finish_start
finish_start-Ok net now id ready_closed m inv = inv
finish_start-Ok net now id (context_done e) m inv = cancel_transfer-Ok net now id m inv
