-- ===== src/Device/Transfer/Release.antt =====
-- Ending a live transfer keeps the invariant: both devices are free again, and no other loses its own.
use mathlib.Core.Path.{subst}
use zshell_gateway.Base.{
  String, ◌≡◌, sym, ap, ◌∙◌, ◌≢◌, ◌⊎◌, inl, inr, true, some, arith, eq_iff, str_beq, Bool-cases,
  string_eq,
}
use zshell_gateway.Dict.{Dict, get, put, get-put-cases, get-put, get-remove, put-Distinct}
use zshell_gateway.Device.Types.{Transfer}
use zshell_gateway.Device.Transfer.State.{is_final, release_device}
use zshell_gateway.Device.Transfer.Invariant.{IsSound, Inv}

module _ (n id : String) (act : Dict String String) where
  pub release_sub :
      (name j : String) → get name (release_device n id act) ≡ some j → get name act ≡ some j
  unfolding release_device
  release_sub name j h = ground (arith, get-remove name n act)

  pub release_keeps :
      (name j : String)
      → get name act ≡ some j
      → id ≢ j
      → get name (release_device n id act) ≡ some j
  unfolding release_device
  release_keeps name j h ne = ground (arith, get-remove name n act, eq_iff n name, eq_iff j id)

  pub release_gone : get n (release_device n id act) ≢ some id
  unfolding release_device
  release_gone h = ground (arith, get-remove n n act, eq_iff n n, eq_iff id id)

-- `releaseTransferDevicesLocked` on the reservations
abbrev pub released : Transfer → Dict String String → Dict String String
released t act = release_device t.target_device t.id (release_device t.source_device t.id act)

module _ (t : Transfer) (act : Dict String String) where
  released_sub : (name j : String) → get name (released t act) ≡ some j → get name act ≡ some j
  released_sub name j h =
      release_sub t.source_device t.id act name j
        (release_sub t.target_device t.id (release_device t.source_device t.id act) name j h)

  released_keeps :
      (name j : String) → get name act ≡ some j → t.id ≢ j → get name (released t act) ≡ some j
  released_keeps name j h ne =
      release_keeps t.target_device t.id (release_device t.source_device t.id act) name j
        (release_keeps t.source_device t.id act name j h ne) ne

  released_gone :
      (name : String)
      → get name (released t act) ≡ some t.id
      → (t.source_device ≡ name) ⊎ (t.target_device ≡ name)
      → ⊥
  released_gone name h (inl s) = release_gone t.source_device t.id act (
      release_sub t.target_device t.id (release_device t.source_device t.id act) t.source_device
        t.id (subst (λ k. get k (released t act) ≡ some t.id) (sym s) h))
  released_gone name h (inr s) =
      release_gone t.target_device t.id (release_device t.source_device t.id act)
        (subst (λ k. get k (released t act) ≡ some t.id) (sym s) h)

module _ {ts : Dict String Transfer} {act : Dict String String} (inv : Inv ts act) where
  pub end-Inv :
      (id : String) (t t' : Transfer)
      → get id ts ≡ some t
      → IsSound id t'
      → is_final t'.state ≡ true
      → Inv (put id t' ts) (released t act)
  end-Inv id t t' found sound' final = record {
    distinct = put-Distinct id t' ts inv.distinct;
    sound = λ j u h. elim (get-put-cases j id t' u ts h) [
      | inl (p, q) ↦ subst (λ k. IsSound k u) p (subst (IsSound id) q sound')
      | inr (_, old) ↦ inv.sound j u old
    ];
    reserved = λ j u h l. elim (get-put-cases j id t' u ts h) [
      | inl (p, q) ↦ absurd (cc (l, final, ap (λ (x : Transfer). is_final x.state) q))
      | inr (ne, old) ↦
          let r = inv.reserved j u old l in
          let ne' : t.id ≢ j = λ e. ne (sym (inv.sound id t found).named ∙ e) in
          (
            released_keeps t act u.source_device j r.0 ne',
            released_keeps t act u.target_device j r.1 ne',
          )
    ];
    held = λ name j h.
        let (u, at, l, names) = inv.held name j (released_sub t act name j h) in
        elim (Bool-cases (str_beq id j)) [
          | inl same ↦ absurd (gone name j u h at names ((eq_iff id j).0 same))
          | inr other ↦ (u, ground (arith, get-put j id t' ts), l, names)
        ];
  }
    where
      gone :
          (name j : String) (u : Transfer)
          → get name (released t act) ≡ some j
          → get j ts ≡ some u
          → (u.source_device ≡ name) ⊎ (u.target_device ≡ name)
          → id ≡ j
          → ⊥
      gone name j u h at (inl s) p =
          released_gone t act name (cc (h, p, (inv.sound id t found).named))
            (inl (cc (found, at, s, p)))
      gone name j u h at (inr s) p =
          released_gone t act name (cc (h, p, (inv.sound id t found).named))
            (inr (cc (found, at, s, p)))
