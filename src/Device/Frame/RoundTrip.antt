-- ===== src/Device/Frame/RoundTrip.antt =====
-- A frame that the gateway encodes is read back as it was.
use zshell_gateway.Base.{
  ℕ, ◌+◌, ◌^◌, ◌<◌, ◌≡◌, sym, ap, ◌∙◌, false, List, ◌++◌, some, arith, ltb, length, take, drop,
  length-append, take-append, drop-append_add,
}
use zshell_gateway.Text.Hex.{encode, IsBytes, decode-encode}
use zshell_gateway.Device.Types.{Manager, Net}
use zshell_gateway.Device.Frame.{
  magic, header_size, big_endian, of_big_endian, encode_transfer_frame, bytes_beq, parse_frame,
  handle_transfer_binary,
}
use zshell_gateway.Device.Transfer.Chunks.{handle_transfer_chunk}

-- Eight bytes hold a `uint64`.
of_big_endian-big_endian : (n : ℕ) → n < 2 ^ 64 → of_big_endian 0 (big_endian n) ≡ n
unfolding of_big_endian
of_big_endian-big_endian n h = omega arith

-- The bytes of the id, in a list of known length.
module _ (raw rest : List ℕ) (sixteen : length raw ≡ 16) where
  take_raw : take 16 (raw ++ rest) ≡ raw
  take_raw = ap (λ n. take n (raw ++ rest)) (sym sixteen) ∙ take-append raw rest

  drop_raw : (n : ℕ) → drop (16 + n) (raw ++ rest) ≡ drop n rest
  drop_raw n = ap (λ k. drop (k + n) (raw ++ rest)) (sym sixteen) ∙ drop-append_add raw rest n

abbrev frame_of : List ℕ → ℕ → List ℕ → List ℕ
frame_of raw sequence payload = magic ++ (raw ++ (big_endian sequence ++ payload))

parse_frame_of :
    (raw : List ℕ) (sequence : ℕ) (payload : List ℕ)
    → length raw ≡ 16
    → sequence < 2 ^ 64
    → parse_frame (frame_of raw sequence payload) ≡ some (encode raw, sequence, payload)
unfolding parse_frame bytes_beq
parse_frame_of raw sequence payload sixteen small = rw (
  long,
  take_raw raw rest sixteen,
  drop_raw raw rest sixteen 0,
  drop_raw raw rest sixteen 8,
  of_big_endian-big_endian sequence small,
)
  where
    rest : List ℕ
    rest = big_endian sequence ++ payload

    long : ltb (length (frame_of raw sequence payload)) header_size ≡ false
    long = ground (arith, length-append raw rest)

-- For sixteen bytes of an id and a `uint64` number, `encodeTransferFrame` succeeds on the id's text,
-- and reading the frame that it gives is handling the chunk that went in.
pub handle-encode :
    (raw : List ℕ) (sequence : ℕ) (payload : List ℕ) (net : Net) (now session : ℕ) (m : Manager)
    → length raw ≡ 16
    → IsBytes raw
    → sequence < 2 ^ 64
    → (frame : List ℕ) × (encode_transfer_frame (encode raw) sequence payload ≡ some frame)
      × (handle_transfer_binary net now session frame m
          ≡ handle_transfer_chunk net now session (encode raw) sequence payload m)
unfolding encode_transfer_frame handle_transfer_binary
handle-encode raw sequence payload net now session m sixteen bytes small = (
  frame_of raw sequence payload,
  rw (decode-encode raw bytes, encode_transfer_frame) (ground (arith, sixteen)),
  rw (parse_frame_of raw sequence payload sixteen small, handle_transfer_binary),
)
