-- ===== src/Device/Frame.antt =====
-- transfer.go: the ZTF1 binary frame, `encodeTransferFrame` and the parsing of `handleTransferBinary`.
pub mod RoundTrip
use zshell_gateway.Base.{
  ℕ, zero, suc, ◌+◌, ◌*◌, ◌/◌, ◌%◌, ◌^◌, String, Bool, true, false, not, ◌&&◌, ◌||◌, List, [], ◌∷◌,
  ◌++◌, Option, none, some, nat_beq, ltb, if◌then◌else◌, length, take, drop,
}
use zshell_gateway.Text.Hex.{encode, decode}
use zshell_gateway.Device.Types.{Manager, Error, Net, other}
use zshell_gateway.Device.Transfer.Chunks.{handle_transfer_chunk}

-- `transferBinaryMagic`, "ZTF1"
abbrev pub magic : List ℕ
magic = b'Z' ∷ b'T' ∷ b'F' ∷ b'1' ∷ []

abbrev pub transfer_id_bytes : ℕ
transfer_id_bytes = 16

-- `transferBinaryHeaderSize`
abbrev pub header_size : ℕ
header_size = 4 + transfer_id_bytes + 8

-- `binary.BigEndian.PutUint64`
abbrev pub big_endian : ℕ → List ℕ
big_endian n =
    (n / 2 ^ 56 % 256)
    ∷ (n / 2 ^ 48 % 256)
    ∷ (n / 2 ^ 40 % 256)
    ∷ (n / 2 ^ 32 % 256)
    ∷ (n / 2 ^ 24 % 256)
    ∷ (n / 2 ^ 16 % 256)
    ∷ (n / 2 ^ 8 % 256)
    ∷ (n % 256)
    ∷ []

-- `binary.BigEndian.Uint64`
unfoldable pub of_big_endian : ℕ → List ℕ → ℕ
of_big_endian acc [] = acc
of_big_endian acc (b ∷ bs) = of_big_endian (acc * 256 + b) bs

-- `encodeTransferFrame`; `none` is `ErrInvalidTransferRequest`
unfoldable pub encode_transfer_frame : String → ℕ → List ℕ → Option (List ℕ)
encode_transfer_frame id sequence payload = elim (decode id) [
  | none ↦ none
  | some raw_id ↦
      if nat_beq (length raw_id) transfer_id_bytes
      then some (magic ++ (raw_id ++ (big_endian sequence ++ payload)))
      else none
]

-- `a == b` on byte strings
unfoldable pub bytes_beq : List ℕ → List ℕ → Bool
bytes_beq [] [] = true
bytes_beq [] (b ∷ bs) = false
bytes_beq (a ∷ as') [] = false
bytes_beq (a ∷ as') (b ∷ bs) = nat_beq a b && bytes_beq as' bs

-- what `handleTransferBinary` reads off a frame: the id, the sequence number and the payload
unfoldable pub parse_frame : List ℕ → Option (String × ℕ × List ℕ)
unfolding bytes_beq of_big_endian
parse_frame frame =
    if ltb (length frame) header_size || not (bytes_beq (take 4 frame) magic)
    then none
    else some (
      encode (take 16 (drop 4 frame)),
      of_big_endian 0 (take 8 (drop 20 frame)),
      drop header_size frame,
    )

-- `handleTransferBinary`
unfoldable pub handle_transfer_binary : Net → ℕ → ℕ → List ℕ → Manager → Option Error × Manager
unfolding parse_frame
handle_transfer_binary net now session frame m = elim (parse_frame frame) [
  | none ↦ (some (other "invalid transfer binary frame"), m)
  | some (id, sequence, payload) ↦ handle_transfer_chunk net now session id sequence payload m
]
