-- ===== src/Device/Transfer/Invariant.antt =====
-- The invariant of the transfer table and of the device reservations.
use mathlib.Core.Path.{subst}
use zshell_gateway.Base.{
  ◌≤◌, String, ◌≡◌, sym, ◌≢◌, ◌⊎◌, inl, inr, Bool, true, false, none, some, arith, eq_iff, str_beq,
  Bool-cases, string_eq,
}
use zshell_gateway.Dict.{
  Dict, get, put, Distinct, get-put, get-put-cases, get-put_self, put-Distinct,
}
use zshell_gateway.Device.Types.{
  TransferState, preparing, transferring, verifying, completed, failed, cancelled, Transfer,
  Manager,
}
use zshell_gateway.Device.Transfer.State.{is_final, valid_sha256}

-- What is known of the bytes and of the hash in each state.
abbrev pub Counted : TransferState → Transfer → Type 0
Counted preparing t = (t.transferred ≡ 0) × (t.next_seq ≡ 0) × (t.ready ≡ false)
Counted transferring t = (t.transferred ≤ t.size) × (t.ready ≡ true)
Counted verifying t = (t.transferred ≡ t.size) × (valid_sha256 t.sha256 ≡ true) × (t.ready ≡ true)
Counted completed t = (t.transferred ≡ t.size) × (valid_sha256 t.sha256 ≡ true) × (t.ready ≡ true)
Counted failed t = (t.transferred ≤ t.size) × (t.ready ≡ true)
Counted cancelled t = (t.transferred ≤ t.size) × (t.ready ≡ true)

-- A final transfer has let go of its sessions and its timer; any other has both sessions.
abbrev pub Connected : Bool → Transfer → Type 0
Connected true t = (t.source ≡ none) × (t.target ≡ none) × (t.timer ≡ none)
Connected false t = (t.source ≢ none) × (t.target ≢ none) × (t.source_device ≢ t.target_device)

pub record IsSound (id : String) (t : Transfer) : Type 0 where
  pub named : t.id ≡ id
  pub counted : Counted t.state t
  pub connected : Connected (is_final t.state) t

pub record Inv (ts : Dict String Transfer) (act : Dict String String) : Type 0 where
  pub distinct : Distinct ts
  pub sound : (id : String) (t : Transfer) → get id ts ≡ some t → IsSound id t
  pub reserved :
      (id : String) (t : Transfer)
      → get id ts ≡ some t
      → is_final t.state ≡ false
      → (get t.source_device act ≡ some id) × (get t.target_device act ≡ some id)
  pub held :
      (name id : String)
      → get name act ≡ some id
      → (t : Transfer) × (get id ts ≡ some t)
        × (is_final t.state ≡ false)
        × ((t.source_device ≡ name) ⊎ (t.target_device ≡ name))

abbrev pub Ok : Manager → Type 0
Ok m = Inv m.transfers m.active_transfer

-- A live transfer may be written as long as it stays sound, live and at the same devices.
module _ {ts : Dict String Transfer} {act : Dict String String} (inv : Inv ts act) where
  pub put-Inv :
      (id : String) (t t' : Transfer)
      → get id ts ≡ some t
      → is_final t.state ≡ false
      → IsSound id t'
      → is_final t'.state ≡ false
      → t'.source_device ≡ t.source_device
      → t'.target_device ≡ t.target_device
      → Inv (put id t' ts) act
  put-Inv id t t' found live sound' live' src tgt = record {
    distinct = put-Distinct id t' ts inv.distinct;
    sound = λ j u h. elim (get-put-cases j id t' u ts h) [
      | inl (p, q) ↦ subst (λ k. IsSound k u) p (subst (IsSound id) q sound')
      | inr (_, old) ↦ inv.sound j u old
    ];
    reserved = λ j u h l. elim (get-put-cases j id t' u ts h) [
      | inl (p, q) ↦
          let r = inv.reserved id t found live in (cc (r.0, p, q, src), cc (r.1, p, q, tgt))
      | inr (_, old) ↦ inv.reserved j u old l
    ];
    held = λ name j h.
        let (u, at, l, names) = inv.held name j h in
        elim (Bool-cases (str_beq id j)) [
          | inl same ↦
              let p = (eq_iff id j).0 same in
              (
                t',
                subst (λ k. get k (put id t' ts) ≡ some t') p (get-put_self id t' ts),
                live',
                elim names [
                  | inl s ↦ inl (cc (found, at, s, src, p))
                  | inr s ↦ inr (cc (found, at, s, tgt, p))
                ],
              )
          | inr other ↦ (u, ground (arith, get-put j id t' ts), l, names)
        ];
  }

-- Soundness, read and shown at a known state.
module _ {id : String} (t : Transfer) (s : TransferState) (e : t.state ≡ s) where
  pub IsSound-at : t.id ≡ id → Counted s t → Connected (is_final s) t → IsSound id t
  IsSound-at n c l = record {
    named = n;
    counted = subst (λ x. Counted x t) (sym e) c;
    connected = subst (λ x. Connected (is_final x) t) (sym e) l;
  }

  pub Counted-at : IsSound id t → Counted s t
  Counted-at h = subst (λ x. Counted x t) e h.counted

  pub connected_at : IsSound id t → Connected (is_final s) t
  connected_at h = subst (λ x. Connected (is_final x) t) e h.connected
