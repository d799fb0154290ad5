-- ===== src/Device/Transfer/Pruning.antt =====
-- What pruning the history drops: final transfers only, until fewer than the limit are left.
use zshell_gateway.Base.{
  ℕ, zero, suc, ◌≤◌, ◌<◌, ◌||◌, ◌&&◌, String, ◌≡◌, refl, ◌≢◌, ◌⊎◌, inl, inr, true, false, [], ◌∷◌,
  none, some, arith, eq_iff, str_beq, ltb, Bool-cases, string_eq, length,
}
use zshell_gateway.Dict.{Dict, get, remove, Distinct, get-remove, remove-Distinct, length-remove-lt}
use zshell_gateway.Device.Types.{Transfer}
use zshell_gateway.Device.Transfer.State.{is_final}
use zshell_gateway.Device.Transfer.History.{
  max_transfer_history, oldest_final, prune_loop, prune_history,
}

-- an entry of the table that is final
abbrev pub IsEnded : Dict String Transfer → String → Type 0
IsEnded ts id = (t : Transfer) × (get id ts ≡ some t) × (is_final t.state ≡ true)

IsEnded-later :
    (i id : String) (t : Transfer) (rest : Dict String Transfer)
    → get i rest ≡ none
    → IsEnded rest id
    → IsEnded ((i, t) ∷ rest) id
unfolding get
IsEnded-later i id t rest d (u, at, f) = (u, ground (arith, eq_iff i id), f)

-- The search ends with the id that it began with, or with a final entry of the table.
pub oldest_final_ends :
    (ts : Dict String Transfer) (o : String) (n : ℕ)
    → Distinct ts
    → (oldest_final ts o n ≡ o) ⊎ IsEnded ts (oldest_final ts o n)
unfolding oldest_final
oldest_final_ends [] o n d = inl refl
oldest_final_ends ((i, t) ∷ rest) o n d =
    elim (Bool-cases (is_final t.state && (str_beq o "" || ltb t.updated_at n))) [
      | inl newer ↦ elim (oldest_final_ends rest i t.updated_at d.1) [
        | inl e ↦ rw newer (inr (t, unfold get in ground (arith, eq_iff i i, e), ground arith))
        | inr later ↦ rw newer (inr (IsEnded-later i _ t rest d.0 later))
      ]
      | inr older ↦ elim (oldest_final_ends rest o n d.1) [
        | inl e ↦ rw older (inl e)
        | inr later ↦ rw older (inr (IsEnded-later i _ t rest d.0 later))
      ]
    ]

-- With no empty key in the table, a search that began with an id does not end with none.
oldest_final-ne-nil :
    (ts : Dict String Transfer) (o : String) (n : ℕ)
    → get "" ts ≡ none
    → o ≢ ""
    → oldest_final ts o n ≢ ""
unfolding oldest_final
oldest_final-ne-nil [] o n d ne h = ne h
oldest_final-ne-nil ((i, t) ∷ rest) o n d ne h =
    elim (Bool-cases (is_final t.state && (str_beq o "" || ltb t.updated_at n))) [
      | inl newer ↦
          oldest_final-ne-nil rest i t.updated_at (unfold get in ground (arith, eq_iff i ""))
            (λ e. unfold get in ground (arith, eq_iff i "")) (ground (arith, newer))
      | inr older ↦
          oldest_final-ne-nil rest o n (unfold get in ground (arith, eq_iff i "")) ne
            (ground (arith, older))
    ]

-- A search that finds nothing has met no final transfer.
pub oldest_final-nil :
    (ts : Dict String Transfer) (n : ℕ) (j : String) (u : Transfer)
    → get "" ts ≡ none
    → oldest_final ts "" n ≡ ""
    → get j ts ≡ some u
    → is_final u.state ≡ false
unfolding oldest_final
oldest_final-nil [] n j u d h at = unfold get in cc at
oldest_final-nil ((i, t) ∷ rest) n j u d h at = elim (Bool-cases (is_final t.state)) [
  | inl f ↦ absurd (
      oldest_final-ne-nil rest i t.updated_at (unfold get in ground (arith, eq_iff i ""))
        (λ e. unfold get in ground (arith, eq_iff i "")) (ground (arith, f)))
  | inr f ↦ elim (Bool-cases (str_beq i j)) [
    | inl here ↦ unfold get in ground (arith, f, here)
    | inr there ↦
        oldest_final-nil rest n j u (unfold get in ground (arith, eq_iff i "")) (ground (arith, f))
          (unfold get in ground (arith, there))
  ]
]

-- What is left is part of the table, with all its live transfers.
pub record Prunes (ts rest : Dict String Transfer) : Type 0 where
  pub distinct : Distinct rest
  pub kept : (j : String) (u : Transfer) → get j rest ≡ some u → get j ts ≡ some u
  pub live :
      (j : String) (u : Transfer)
      → get j ts ≡ some u
      → is_final u.state ≡ false
      → get j rest ≡ some u

remove_ended :
    (ts rest : Dict String Transfer) (id : String)
    → IsEnded ts id
    → Prunes (remove id ts) rest
    → Prunes ts rest
remove_ended ts rest id (t, at, f) p = record {
  distinct = p.distinct;
  kept = λ j u h. ground (arith, get-remove j id ts, p.kept j u h);
  live = λ j u h l. p.live j u (ground (arith, get-remove j id ts, eq_iff id j)) l;
}

prune_loop-Prunes :
    (fuel : ℕ) (ts : Dict String Transfer) → Distinct ts → Prunes ts (prune_loop fuel ts)
unfolding prune_loop
prune_loop-Prunes zero ts d = record { distinct = d; kept = λ j u h. h; live = λ j u h l. h }
prune_loop-Prunes (suc fuel) ts d =
    elim (Bool-cases (ltb (length ts) max_transfer_history || str_beq (oldest_final ts "" 0) "")) [
      | inl stop ↦ rw stop (record { distinct = d; kept = λ j u h. h; live = λ j u h l. h })
      | inr more ↦ rw more (elim (oldest_final_ends ts "" 0 d) [
        | inl e ↦ absurd (ground (arith, eq_iff (oldest_final ts "" 0) "", e, more))
        | inr ended ↦ remove_ended ts _ (oldest_final ts "" 0) ended (
            prune_loop-Prunes fuel (remove (oldest_final ts "" 0) ts)
              (remove-Distinct (oldest_final ts "" 0) ts d))
      ])
    ]

-- Pruning drops final transfers only, and every live transfer stays, if no id has two entries.
pub prune_history-Prunes : (ts : Dict String Transfer) → Distinct ts → Prunes ts (prune_history ts)
unfolding prune_history
prune_history-Prunes ts d = prune_loop-Prunes (length ts) ts d

prune_loop_enough :
    (fuel : ℕ) (ts : Dict String Transfer)
    → Distinct ts
    → get "" ts ≡ none
    → length ts ≤ fuel
    → (length (prune_loop fuel ts) < max_transfer_history)
      ⊎ ((j : String) (u : Transfer)
          → get j (prune_loop fuel ts) ≡ some u
          → is_final u.state ≡ false)
unfolding prune_loop
prune_loop_enough zero ts d e h = inl (omega arith)
prune_loop_enough (suc fuel) ts d e h =
    elim (Bool-cases (ltb (length ts) max_transfer_history || str_beq (oldest_final ts "" 0) "")) [
      | inl stop ↦ rw stop (elim (Bool-cases (ltb (length ts) max_transfer_history)) [
        | inl few ↦ inl (ground (arith, few))
        | inr many ↦ inr (λ j u at.
            oldest_final-nil ts 0 j u e
              (ground (arith, eq_iff (oldest_final ts "" 0) "", stop, many)) at)
      ])
      | inr more ↦ rw more (elim (oldest_final_ends ts "" 0 d) [
        | inl x ↦ absurd (ground (arith, eq_iff (oldest_final ts "" 0) "", x, more))
        | inr (t, at, f) ↦
            prune_loop_enough fuel (remove (oldest_final ts "" 0) ts)
              (remove-Distinct (oldest_final ts "" 0) ts d)
              (ground (arith, get-remove "" (oldest_final ts "" 0) ts))
              (omega (arith, length-remove-lt (oldest_final ts "" 0) t ts at))
      ])
    ]

-- After pruning there is room for one more, or no final transfer is left, if no id has two entries and
-- none is empty.
pub prune_history_enough :
    (ts : Dict String Transfer)
    → Distinct ts
    → get "" ts ≡ none
    → (length (prune_history ts) < max_transfer_history)
      ⊎ ((j : String) (u : Transfer) → get j (prune_history ts) ≡ some u → is_final u.state ≡ false)
unfolding prune_history
prune_history_enough ts d e = prune_loop_enough (length ts) ts d e (omega arith)
