-- ===== src/Secure.antt =====
-- ale-gui/src/remote_crypto.rs: the encrypted channel of a paired phone, which splits a long
-- message into frames and puts the frames of the peer together again.
-- The Noise transport (the crate snow) and `serde_json` are parameters. The handshake, which only
-- calls snow, is not modelled.
pub mod Bounds
pub mod Header
pub mod Delivery
pub mod Roundtrip
use ale_my_eyes_desktop.Prelude.{
  ℕ, zero, suc, ◌+◌, ◌-◌, ◌/◌, ◌≡◌, ◌≤◌, Bool, true, false, not, ◌||◌, Option, none, some, List, [],
  ◌∷◌, ◌++◌, ltb, leb, ◌==◌, if◌then◌else◌, is_some, length, take, drop,
}
use ale_my_eyes_desktop.Prelude.Text.{starts_with}
use ale_my_eyes_desktop.Prelude.Bytes.{Bytes, to_be_bytes, from_be_bytes, chunks}
use ale_my_eyes_desktop.Prelude.Result.{Result, ok, err}

-- `AME2`
abbrev pub chunk_magic : Bytes
chunk_magic = 0x41 ∷ 0x4d ∷ 0x45 ∷ 0x32 ∷ []

abbrev pub chunk_header_len : ℕ
chunk_header_len = 20

abbrev pub max_noise_plaintext : ℕ
max_noise_plaintext = 49152

abbrev pub max_encrypted_frame_bytes : ℕ
max_encrypted_frame_bytes = max_noise_plaintext + 16

abbrev pub max_secure_message_bytes : ℕ
max_secure_message_bytes = 1048576

abbrev pub chunk_payload_size : ℕ
chunk_payload_size = max_noise_plaintext - chunk_header_len

-- snow's `TransportState`: both calls return what they wrote, or nothing, and the next state.
pub record Transport : Type 1 where
  pub State : Type 0
  pub write : State → Bytes → Option Bytes × State
  pub read : State → Bytes → Option Bytes × State

-- `serde_json` at `RemoteMessage`.
pub record Json (Message : Type 0) : Type 0 where
  pub to_vec : Message → Option Bytes
  pub from_slice : Bytes → Option Message

pub record IncomingMessage : Type 0 where
  pub id : ℕ
  pub total_chunks : ℕ
  pub next_chunk : ℕ
  pub payload : Bytes

pub data ChannelError : Type 0 where
  message_too_large invalid_chunk_sequence invalid_chunk_header missing_chunk_start : ChannelError
  too_many_chunks transport_failed json_failed : ChannelError

-- The header of one chunk.
unfoldable pub chunk_frame : (message_id index total_chunks : ℕ) → Bytes → Bytes
chunk_frame message_id index total_chunks chunk =
    chunk_magic
    ++ (to_be_bytes 8 message_id ++ (to_be_bytes 4 index ++ (to_be_bytes 4 total_chunks ++ chunk)))

abbrev pub first_chunk : (id total_chunks : ℕ) → IncomingMessage
first_chunk id total = record { id = id; total_chunks = total; next_chunk = 0; payload = [] }

-- The fields that the header of a chunk gives.
unfoldable pub frame_id : Bytes → ℕ
frame_id out = from_be_bytes (take 8 (drop 4 out))

unfoldable pub frame_index : Bytes → ℕ
frame_index out = from_be_bytes (take 4 (drop 12 out))

unfoldable pub frame_total : Bytes → ℕ
frame_total out = from_be_bytes (take 4 (drop 16 out))

-- `usize::div_ceil`
abbrev pub div_ceil : ℕ → ℕ → ℕ
div_ceil n size = (n + size - 1) / size

module _ (noise : Transport) where
  pub record SecureChannel : Type 0 where
    pub transport : noise.State
    pub incoming : Option IncomingMessage

  -- What `?` makes of one encrypted frame, and what the frames after it add.
  abbrev pub cons_frame :
      Bytes
      → Result ChannelError (List Bytes) × noise.State
      → Result ChannelError (List Bytes) × noise.State
  cons_frame frame (ok frames, t) = (ok (frame ∷ frames), t)
  cons_frame frame (err e, t) = (err e, t)

  -- The loop over the chunks, from the index on.
  unfoldable pub encrypt_chunks :
      noise.State
      → (message_id total_chunks index : ℕ) → List Bytes
      → Result ChannelError (List Bytes) × noise.State
  encrypt_chunks t id total index [] = (ok [], t)
  encrypt_chunks t id total index (chunk ∷ rest) =
      let (written, t') = noise.write t (chunk_frame id index total chunk) in
      let later = encrypt_chunks t' id total (suc index) rest in
      elim written [ none ↦ (err transport_failed, t') | some frame ↦ cons_frame frame later ]

  abbrev pub single_frame :
      Option Bytes × noise.State → Result ChannelError (List Bytes) × noise.State
  single_frame (none, t) = (err transport_failed, t)
  single_frame (some frame, t) = (ok (frame ∷ []), t)

  -- `encrypt_message` once the message is serialised; `message_id` is the random number drawn.
  unfoldable pub encrypt_bytes :
      noise.State → ℕ → Bytes → Result ChannelError (List Bytes) × noise.State
  encrypt_bytes t message_id payload =
      let total = div_ceil (length payload) chunk_payload_size in
      if ltb max_secure_message_bytes (length payload)
      then (err message_too_large, t)
      else if leb (length payload) max_noise_plaintext
      then single_frame (noise.write t payload)
      else if ltb 0xffffffff total
      then (err too_many_chunks, t)
      else encrypt_chunks t message_id total 0 (chunks chunk_payload_size payload)

  module _ {Message : Type 0} (json : Json Message) where
    unfoldable pub encrypt_message :
        noise.State → ℕ → Message → Result ChannelError (List Bytes) × noise.State
    encrypt_message t message_id message = elim (json.to_vec message) [
      | none ↦ (err json_failed, t)
      | some payload ↦ encrypt_bytes t message_id payload
    ]

    abbrev pub Reply : Type 0
    Reply = Result ChannelError (Option Message)

    unfoldable pub parse : Bytes → Reply
    parse payload = elim (json.from_slice payload) [ none ↦ err json_failed | some m ↦ ok (some m) ]

    -- `self.incoming = None; return Err(…)`
    abbrev pub reset : SecureChannel → ChannelError → SecureChannel × Reply
    reset c e = (record c { incoming = none }, err e)

    -- A decrypted frame without the magic is a whole message.
    unfoldable pub accept_whole : SecureChannel → ℕ → Bytes → SecureChannel × Reply
    accept_whole c max_size out =
        if is_some c.incoming
        then reset c invalid_chunk_sequence
        else (if ltb max_size (length out) then (c, err message_too_large) else (c, parse out))

    -- The chunk belongs to the message under way.
    unfoldable pub append_chunk :
        SecureChannel
        → ℕ
        → (id index total_chunks : ℕ) → Bytes
        → IncomingMessage
        → SecureChannel × Reply
    append_chunk c max_size id index total body m =
        let m' = record m { next_chunk = suc m.next_chunk; payload = m.payload ++ body } in
        if not (m.id == id) || not (m.total_chunks == total) || not (m.next_chunk == index)
        then reset c invalid_chunk_sequence
        else if ltb max_size (length m.payload + length body)
        then reset c message_too_large
        else if not (suc m.next_chunk == m.total_chunks)
        then (record c { incoming = some m' }, ok none)
        else (record c { incoming = none }, parse (m.payload ++ body))

    abbrev pub continue_message :
        SecureChannel
        → ℕ
        → (id index total_chunks : ℕ) → Bytes
        → Option IncomingMessage
        → SecureChannel × Reply
    continue_message c max_size id index total body none = (c, err missing_chunk_start)
    continue_message c max_size id index total body (some m) =
        append_chunk c max_size id index total body m

    unfoldable pub accept_chunk :
        SecureChannel → ℕ → (id index total_chunks : ℕ) → Bytes → SecureChannel × Reply
    accept_chunk c max_size id index total body =
        if total == 0 || leb total index
        then reset c invalid_chunk_sequence
        else if index == 0
        then (if is_some c.incoming
            then reset c invalid_chunk_sequence
            else append_chunk c max_size id index total body (first_chunk id total))
        else continue_message c max_size id index total body c.incoming

    -- What `decrypt_frame` does with a decrypted frame.
    unfoldable pub accept_frame : SecureChannel → ℕ → Bytes → SecureChannel × Reply
    accept_frame c max_size out =
        if not (starts_with out chunk_magic)
        then accept_whole c max_size out
        else if ltb (length out) chunk_header_len
        then reset c invalid_chunk_header
        else accept_chunk c max_size (frame_id out) (frame_index out) (frame_total out)
            (drop chunk_header_len out)

    abbrev pub accept_read : SecureChannel → ℕ → Option Bytes × noise.State → SecureChannel × Reply
    accept_read c max_size (none, t) = (record c { transport = t }, err transport_failed)
    accept_read c max_size (some out, t) = accept_frame (record c { transport = t }) max_size out

    unfoldable pub decrypt_frame : SecureChannel → ℕ → Bytes → SecureChannel × Reply
    decrypt_frame c max_size frame =
        if ltb max_encrypted_frame_bytes (length frame)
        then (c, err message_too_large)
        else accept_read c max_size (noise.read c.transport frame)

    -- The frames that arrive on a connection, one after another.
    unfoldable pub receive_all : SecureChannel → ℕ → List Bytes → SecureChannel × List Reply
    receive_all c max_size [] = (c, [])
    receive_all c max_size (frame ∷ frames) =
        let (c', reply) = decrypt_frame c max_size frame in
        let (c'', replies) = receive_all c' max_size frames in (c'', reply ∷ replies)
