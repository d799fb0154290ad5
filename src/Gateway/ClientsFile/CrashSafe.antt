-- ===== src/Gateway/ClientsFile/CrashSafe.antt =====
-- Writing the registry, at every point where the process may stop.
use zshell_gateway.Base.{
  ◌≡◌, refl, ◌⊎◌, inl, inr, Bool, true, false, not, ◌&&◌, if◌then◌else◌, List, [], ◌∷◌, Option,
  none, some, String,
}
use zshell_gateway.Gateway.Types.{OauthClientsState, Outcome, done}
use zshell_gateway.Gateway.ClientsFile.{
  File, stored, broken, Disk, Faults, Written, install_temp, move_primary, replace_primary,
  prepare_temp, failed_with, write_oauth_clients_atomic, read_oauth_clients_state, drop_backup,
}

-- The primary file is absent, or it can be read.
abbrev pub IsReadable : Option File → Type 0
IsReadable none = Unit
IsReadable (some (stored state)) = Unit
IsReadable (some (broken text)) = ⊥

-- Reading the disk gives what it gave before, or the new state.
abbrev pub OldOrNew : Outcome (Option OauthClientsState) → OauthClientsState → Disk → Type 0
OldOrNew old state d =
    (read_oauth_clients_state d ≡ old) ⊎ (read_oauth_clients_state d ≡ done (some state))

abbrev pub AllOldOrNew : Outcome (Option OauthClientsState) → OauthClientsState → List Disk → Type 0
AllOldOrNew old state [] = Unit
AllOldOrNew old state (d ∷ ds) = OldOrNew old state d × AllOldOrNew old state ds

-- A write that reports success leaves the new state, and one that reports an error the old.
abbrev pub Decided :
    Outcome (Option OauthClientsState) → OauthClientsState → Option String → Disk → Type 0
Decided old state none d = read_oauth_clients_state d ≡ done (some state)
Decided old state (some text) d = read_oauth_clients_state d ≡ old

abbrev pub Safe : Outcome (Option OauthClientsState) → OauthClientsState → Written → Type 0
Safe old state w = AllOldOrNew old state w.disks × Decided old state w.error w.final

read-stored :
    (state : OauthClientsState) (b : Option File)
    → read_oauth_clients_state (record { primary = some (stored state); backup = b })
      ≡ done (some state)
unfolding read_oauth_clients_state
read-stored state b = refl

read-primary :
    (file : File) (b c : Option File)
    → IsReadable (some file)
    → read_oauth_clients_state (record { primary = some file; backup = b })
      ≡ read_oauth_clients_state (record { primary = some file; backup = c })
unfolding read_oauth_clients_state
read-primary (stored state) b c h = refl
read-primary (broken text) b c h = absurd h

read-backup :
    (file : File) (b : Option File)
    → IsReadable (some file)
    → read_oauth_clients_state (record { primary = none; backup = some file })
      ≡ read_oauth_clients_state (record { primary = some file; backup = b })
unfolding read_oauth_clients_state
read-backup (stored state) b h = refl
read-backup (broken text) b h = absurd h

abbrev of_files : Option File → Option File → Disk
of_files p b = record { primary = p; backup = b }

pub stored-cleaned :
    (keeps : Bool) (state : OauthClientsState) (b : Option File)
    → read_oauth_clients_state (drop_backup keeps (of_files (some (stored state)) b))
      ≡ done (some state)
stored-cleaned true state b = read-stored state b
stored-cleaned false state b = read-stored state none

installed-Safe :
    (old : Outcome (Option OauthClientsState)) (f : Faults) (had : Bool) (state : OauthClientsState)
    (d : Disk)
    → Safe old state (install_temp none f had state d)
unfolding install_temp
installed-Safe old f had state d = (
  (inr (read-stored state d.backup), (inr (stored-cleaned f.keeps_backup state d.backup), tt)),
  stored-cleaned f.keeps_backup state d.backup,
)

-- without a primary file
fresh-Safe :
    (fault : Option String) (f : Faults) (state : OauthClientsState) (b : Option File)
    → Safe
        (read_oauth_clients_state (of_files none b))
        state
        (install_temp fault f false state (of_files none b))
unfolding install_temp
fresh-Safe none f state b = installed-Safe _ f false state (of_files none b)
fresh-Safe (some text) f state b = ((inl refl, tt), refl)

restored :
    (fails : Bool) (file : File) (b : Option File)
    → IsReadable (some file)
    → read_oauth_clients_state
        (if true && not fails then of_files (some file) none else of_files none (some file))
      ≡ read_oauth_clients_state (of_files (some file) b)
restored true file b h = read-backup file b h
restored false file b h = read-primary file none b h

-- with the primary file in the backup's place
moved-Safe :
    (fault : Option String) (file : File) (b : Option File) (f : Faults) (state : OauthClientsState)
    → IsReadable (some file)
    → Safe
        (read_oauth_clients_state (of_files (some file) b))
        state
        (install_temp fault f true state (of_files none (some file)))
unfolding install_temp
moved-Safe none file b f state h = installed-Safe _ f true state (of_files none (some file))
moved-Safe (some text) file b f state h =
    ((inl (restored f.restore_fails file b h), tt), restored f.restore_fails file b h)

dropped-same :
    (keeps : Bool) (file : File) (b : Option File)
    → IsReadable (some file)
    → read_oauth_clients_state (drop_backup keeps (of_files (some file) b))
      ≡ read_oauth_clients_state (of_files (some file) b)
dropped-same true file b h = refl
dropped-same false file b h = read-primary file none b h

move-Safe :
    (fault : Option String) (file : File) (b : Option File) (f : Faults) (state : OauthClientsState)
    (d : Disk)
    → IsReadable (some file)
    → read_oauth_clients_state d ≡ read_oauth_clients_state (of_files (some file) b)
    → Safe
        (read_oauth_clients_state (of_files (some file) b))
        state
        (move_primary fault file f state d)
unfolding move_primary
move-Safe (some text) file b f state d h same = (tt, same)
move-Safe none file b f state d h same =
    let rest = moved-Safe f.install file b f state h in
    ((inl (read-backup file b h), rest.0), rest.1)

replace-Safe :
    (p b : Option File) (f : Faults) (state : OauthClientsState)
    → IsReadable p
    → Safe
        (read_oauth_clients_state (of_files p b))
        state
        (replace_primary p f state (of_files p b))
unfolding replace_primary
replace-Safe none b f state h = fresh-Safe f.install f state b
replace-Safe (some file) b f state h =
    let same = dropped-same f.keeps_old_backup file b h in
    let rest = move-Safe f.to_backup file b f state _ h same in ((inl same, rest.0), rest.1)

-- While the registry is written, whichever calls fail, every disk at which the process may stop
-- reads as before or as the new state; at the end it reads as the new state if the write reports
-- success, and as before if it reports an error. The primary file is absent or can be read.
pub write-Safe :
    (f : Faults) (state : OauthClientsState) (d : Disk)
    → IsReadable d.primary
    → Safe (read_oauth_clients_state d) state (write_oauth_clients_atomic f state d)
unfolding write_oauth_clients_atomic
write-Safe f state d h =
    elim (prepare_temp f)
      as (λ a.
        Safe (read_oauth_clients_state d) state (elim a [
          | some text ↦ failed_with text d
          | none ↦ replace_primary d.primary f state d
        ])) [ some text ↦ (tt, refl) | none ↦ replace-Safe d.primary d.backup f state h ]
