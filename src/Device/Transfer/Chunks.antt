-- ===== src/Device/Transfer/Chunks.antt =====
-- transfer.go: `handleTransferChunk`, the relay of one chunk from the source to the target.
use zshell_gateway.Base.{
  ℕ, ◌+◌, ◌%◌, String, not, ◌&&◌, ◌||◌, List, Option, none, some, nat_beq, ltb, if◌then◌else◌,
  string_eq, length,
}
use zshell_gateway.Dict.{get}
use zshell_gateway.Text.Decimal.{concat, decimal}
use zshell_gateway.Device.Types.{Transfer, Manager, Error, transfer_not_found, other, Net, uint64}
use zshell_gateway.Device.Session.{error_text, send_transfer_chunk}
use zshell_gateway.Device.Transfer.State.{
  is_final, is_session, store, is_transferring, fail_transfer_relay_locked,
}

-- What the first critical section of `handleTransferChunk` decides.
pub data Verdict : Type 0 where
  ignored refused out_of_order too_large : Verdict
  relayed : Option ℕ → Verdict

-- `t.Transferred+payloadBytes > t.Size` is a sum of two `uint64`
unfoldable pub judge : ℕ → ℕ → ℕ → Transfer → Verdict
unfolding is_final
judge session sequence payload_bytes t =
    if is_final t.state
    then ignored
    else if not (is_transferring t.state) || not (is_session session t.source)
    then refused
    else if not (nat_beq sequence t.next_seq)
    then out_of_order
    else if ltb t.size ((t.transferred + payload_bytes) % uint64)
    then too_large
    else relayed t.target

-- The second critical section, after the target has taken the chunk.
unfoldable pub count_chunk : ℕ → String → ℕ → ℕ → Manager → Manager
unfolding store
count_chunk now id sequence payload_bytes m = elim (get id m.transfers) [
  | none ↦ m
  | some t ↦
      if is_transferring t.state && nat_beq t.next_seq sequence
      then store id
          (record t {
            next_seq = (t.next_seq + 1) % uint64;
            transferred = (t.transferred + payload_bytes) % uint64;
            updated_at = now;
          })
          m
      else m
]

abbrev mismatch_text : ℕ → ℕ → String
mismatch_text got want =
    concat "chunk sequence mismatch: got " (concat (decimal got) (concat " want " (decimal want)))

-- the synchronous relay, and what follows it
unfoldable pub relay_chunk :
    Net → ℕ → String → ℕ → List ℕ → Option ℕ → Manager → Option Error × Manager
unfolding count_chunk error_text
relay_chunk net now id sequence payload target m =
    let (failure, m') = send_transfer_chunk net target id sequence payload m in
    elim failure [
      | none ↦ (none, count_chunk now id sequence (length payload % uint64) m')
      | some e ↦ (
        some e,
        fail_transfer_relay_locked net now id (concat "target transport failed: " (error_text e))
            m',
      )
    ]

-- what follows the first critical section
unfoldable pub chunk_action :
    Net → ℕ → String → ℕ → List ℕ → Transfer → Manager → Verdict → Option Error × Manager
unfolding relay_chunk
chunk_action net now id sequence payload t m ignored = (none, m)
chunk_action net now id sequence payload t m refused =
    (some (other (concat "transfer " (concat id " is not accepting source chunks"))), m)
chunk_action net now id sequence payload t m out_of_order = (
  some (other "transfer chunk sequence mismatch"),
  fail_transfer_relay_locked net now id (mismatch_text sequence t.next_seq) m,
)
chunk_action net now id sequence payload t m too_large = (
  some (other "transfer size overflow"),
  fail_transfer_relay_locked net now id "source sent more bytes than declared" m,
)
chunk_action net now id sequence payload t m (relayed target) =
    relay_chunk net now id sequence payload target m

-- `handleTransferChunk`
unfoldable pub handle_transfer_chunk :
    Net → ℕ → ℕ → String → ℕ → List ℕ → Manager → Option Error × Manager
unfolding judge chunk_action
handle_transfer_chunk net now session id sequence payload m = elim (get id m.transfers) [
  | none ↦ (some transfer_not_found, m)
  | some t ↦
      chunk_action net now id sequence payload t m
        (judge session sequence (length payload % uint64) t)
]
