-- ===== src/Device/Http/Posted.antt =====
-- A chunk from the source does the same to the transfers whether it comes as a binary WebSocket frame or as
-- an HTTP `POST`.
use Prim.Native.Char.{len_utf8}
use zshell_gateway.Base.{
  ℕ, zero, ◌*◌, ◌/◌, ◌%◌, ◌^◌, ◌≤◌, ◌<◌, suc, String, ◌≡◌, refl, sym, ap, ◌∙◌, inl, inr, Bool, true,
  List, [], ◌∷◌, none, some, arith, nat_beq, length, take, str_beq, Option-cases,
}
use zshell_gateway.Text.Hex.{
  encode, IsBytes, decode-encode, nth, digit_table, each_below, each_below_sound, to_lower,
}
use zshell_gateway.Text.Trim.{byte_len}
use zshell_gateway.Text.Split.{parse_uint, has_prefix}
use zshell_gateway.Device.Types.{WireResponse, Manager, Error, Result, ok, Net}
use zshell_gateway.Device.Registry.{touch}
use zshell_gateway.Device.Lifecycle.{read_frame}
use zshell_gateway.Device.WebSocket.{binary_frame, socket_frame}
use zshell_gateway.Device.Frame.{encode_transfer_frame}
use zshell_gateway.Device.Frame.RoundTrip.{handle-encode}
use zshell_gateway.Device.Transfer.Chunks.{handle_transfer_chunk}
use zshell_gateway.Device.Http.Types.{HttpHandler, HttpRequest, max_chunk_bytes}
use zshell_gateway.Device.Http.Sessions.{read_limited}
use zshell_gateway.Device.Http.Chunks.{valid_transfer_id, post_chunk, http_transfer_chunk}

abbrev one_byte : ℕ → Bool
one_byte n = nat_beq (len_utf8 (nth digit_table n)) 1

digits_one_byte : each_below one_byte 16 ≡ true
unfolding each_below nth
digits_one_byte = refl

len-digit : (n : ℕ) → n < 16 → len_utf8 (nth digit_table n) ≡ 1
len-digit n h = ground (arith, each_below_sound one_byte 16 n digits_one_byte h)

byte_len-encode : (bs : List ℕ) → IsBytes bs → byte_len (encode bs) ≡ length bs * 2
unfolding byte_len encode
byte_len-encode [] h = refl
byte_len-encode (b ∷ bs) h = ground (
  arith,
  len-digit (b / 16) (omega arith),
  len-digit (b % 16) (omega arith),
  byte_len-encode bs h.1,
)

valid-encode :
    (raw : List ℕ) → length raw ≡ 16 → IsBytes raw → valid_transfer_id (encode raw) ≡ true
unfolding valid_transfer_id
valid-encode raw sixteen bytes =
    rw (decode-encode raw bytes, byte_len-encode raw bytes) (ground (arith, sixteen))

take-all : (n : ℕ) (xs : List ℕ) → length xs ≤ n → take n xs ≡ xs
take-all zero [] h = refl
take-all (suc n) [] h = refl
take-all zero (x ∷ xs) h = absurd (omega (arith, h))
take-all (suc n) (x ∷ xs) h = ap (λ ys. x ∷ ys) (take-all n xs (omega (arith, h)))

read_limited-some :
    (limit : ℕ) (xs : List ℕ) → length xs ≤ limit → read_limited limit (some xs) ≡ some xs
unfolding read_limited
read_limited-some limit xs h = rw (take-all (suc limit) xs (omega (arith, h))) (ground (arith, h))

-- the manager after a `POST` is the manager after the chunk, whatever is replied
post_chunk-handle :
    (net : Net) (now e : ℕ) (id : String) (sequence : ℕ) (payload : List ℕ) (r : HttpRequest)
    (h : HttpHandler) (m : Manager)
    → has_prefix "application/octet-stream" (to_lower r.content_type) ≡ true
    → read_limited max_chunk_bytes r.body ≡ some payload
    → (post_chunk net now e id sequence r h m).1
      ≡ (handle_transfer_chunk net now (h.entries e).session id sequence payload m).1
unfolding post_chunk
post_chunk-handle net now e id sequence payload r h m octets got =
    elim (Option-cases
      (handle_transfer_chunk net now (h.entries e).session id sequence payload m).0) [
        | inl x ↦ rw (octets, got, x, post_chunk) refl
        | inr (y, x) ↦ rw (octets, got, x, post_chunk) refl
      ]

-- Let a chunk for an id of sixteen bytes, of at most 4 MiB, be posted with a content type of octets. The binary
-- WebSocket frame of the same chunk, in a round of the read loop, is no error and does to the manager what
-- the `POST` does, after it has noted that the device was seen, which a `POST` does not.
pub post-binary :
    (raw : List ℕ) (sequence : ℕ) (payload : List ℕ) (text : String) (net : Net) (now e : ℕ)
    (r : HttpRequest) (h : HttpHandler) (m : Manager) (unmarshal : List ℕ → Result WireResponse)
    (error : Error → String)
    → length raw ≡ 16
    → IsBytes raw
    → sequence < 2 ^ 64
    → parse_uint text ≡ some sequence
    → str_beq r.method "POST" ≡ true
    → has_prefix "application/octet-stream" (to_lower r.content_type) ≡ true
    → r.body ≡ some payload
    → length payload ≤ max_chunk_bytes
    → (frame : List ℕ) × (encode_transfer_frame (encode raw) sequence payload ≡ some frame)
      × (read_frame net now
            (h.entries e).session
            (socket_frame unmarshal error (ok (binary_frame, frame)))
            m
          ≡ (
            none,
            (http_transfer_chunk net now e
                (encode raw)
                text
                r
                h
                (touch now (h.entries e).session m)).1,
          ))
unfolding http_transfer_chunk read_frame socket_frame
post-binary raw sequence payload text net now e r h m unmarshal error sixteen bytes small number
      posted octets body fits =
    let s = (h.entries e).session in
    let seen = touch now s m in
    let (frame, encoded, same) =
      handle-encode raw sequence payload net now s seen sixteen bytes small in
    let got =
      ap (read_limited max_chunk_bytes) body ∙ read_limited-some max_chunk_bytes payload fits in
    (
      frame,
      encoded,
      ap (λ (y : Manager). (none, y))
          (ap (λ p. p.1) same
            ∙ sym (
                rw (number, valid-encode raw sixteen bytes, posted, http_transfer_chunk)
                  (post_chunk-handle net now e (encode raw) sequence payload r h seen octets got))),
    )
