-- ===== src/Modeld/Ipc.antt =====
-- ale-core/src/model_ipc.rs: messages of the local model process, each behind its length, and the
-- check of the bootstrap token in ale-modeld/src/main.rs.
-- The stream is the bytes not yet read; the codec (the crate prost) is a parameter.
pub mod Laws
pub mod Token
use Prim.Native.Nat.{bit_or, bit_xor}
use ale_my_eyes_desktop.Prelude.{
  ℕ, zero, suc, ◌+◌, ◌-◌, ◌≤◌, ◌≡◌, Bool, true, false, not, ◌&&◌, ◌||◌, Option, none, some, List,
  [], ◌∷◌, ◌++◌, ltb, leb, ◌==◌, if◌then◌else◌, length, take, drop,
}
use ale_my_eyes_desktop.Prelude.Bytes.{Bytes, to_be_bytes, from_be_bytes}
use ale_my_eyes_desktop.Prelude.Text.{Text}
use ale_my_eyes_desktop.Prelude.Result.{Result, ok, err, ◌>>=◌, ◌>>◌, fail_if}

abbrev pub model_ipc_version : ℕ
model_ipc_version = 2

abbrev pub max_model_ipc_message_bytes : ℕ
max_model_ipc_message_bytes = 33554432

pub data IpcRequestKind : Type 0 where
  authenticate health schedule cancel configure_remote shutdown : IpcRequestKind
  configure_models configure_scheduler : IpcRequestKind

-- `IpcRequestKind::try_from`
unfoldable pub kind_of : ℕ → Option IpcRequestKind
kind_of zero = some authenticate
kind_of (suc zero) = some health
kind_of (suc (suc zero)) = some schedule
kind_of (suc (suc (suc zero))) = some cancel
kind_of (suc (suc (suc (suc zero)))) = some configure_remote
kind_of (suc (suc (suc (suc (suc zero))))) = some shutdown
kind_of (suc (suc (suc (suc (suc (suc zero)))))) = some configure_models
kind_of (suc (suc (suc (suc (suc (suc (suc zero))))))) = some configure_scheduler
kind_of (suc (suc (suc (suc (suc (suc (suc (suc n)))))))) = none

-- `kind` is the number on the wire, here never negative.
pub record IpcEnvelope : Type 0 where
  pub protocol_version : ℕ
  pub request_id : Text
  pub kind : ℕ
  pub payload : Bytes

pub data IpcReplyStatus : Type 0 where
  ok_status error_status decision_required : IpcReplyStatus

-- The codec at one message type.
pub record Codec (M : Type 0) : Type 0 where
  pub encode_to_vec : M → Bytes
  pub decode : Bytes → Option M

pub data IoError : Type 0 where
  invalid_input invalid_data unexpected_eof would_block : IoError

-- `read_exact` fails where the stream ends first.
unfoldable pub read_exact : ℕ → Bytes → Result IoError (Bytes × Bytes)
read_exact n stream = do
  fail_if (ltb (length stream) n) unexpected_eof
  ok (take n stream, drop n stream)

module _ {M : Type 0} (codec : Codec M) where
  -- The bytes that `write_message` puts on the stream.
  unfoldable pub write_message : M → Result IoError Bytes
  write_message message =
      let encoded = codec.encode_to_vec message in
      do
        fail_if (ltb max_model_ipc_message_bytes (length encoded)) invalid_input
        ok (to_be_bytes 4 (length encoded) ++ encoded)

  abbrev pub decoded : Option M → Bytes → Result IoError (M × Bytes)
  decoded none rest = err invalid_data
  decoded (some m) rest = ok (m, rest)

  abbrev pub read_body : ℕ → Bytes → Result IoError (M × Bytes)
  read_body size stream = do
    fail_if (size == 0 || ltb max_model_ipc_message_bytes size) invalid_data
    body ← read_exact size stream
    decoded (codec.decode body.0) body.1

  -- Returns the message and what is left on the stream.
  unfoldable pub read_message : Bytes → Result IoError (M × Bytes)
  read_message stream = do prefix ← read_exact 4 stream; read_body (from_be_bytes prefix.0) prefix.1

  -- `read_message_with_budget`: the permits of the semaphore are bytes, taken before the body is
  -- read; a frame that fails to be read gives them back. Returns the permits left.
  unfoldable pub read_message_with_budget : ℕ → Bytes → Result IoError (M × Bytes × ℕ)
  read_message_with_budget budget stream = do
    prefix ← read_exact 4 stream
    let size = from_be_bytes prefix.0
    fail_if (size == 0 || ltb max_model_ipc_message_bytes size) invalid_data
    fail_if (ltb budget size) would_block
    body ← read_exact size prefix.1
    message ← decoded (codec.decode body.0) body.1
    ok (message.0, message.1, budget - size)

-- `constant_time_eq`: the fold over the pairs of bytes.
unfoldable pub differences : ℕ → Bytes → Bytes → ℕ
differences acc [] right = acc
differences acc (a ∷ left) [] = acc
differences acc (a ∷ left) (b ∷ right) = differences (bit_or acc (bit_xor a b)) left right

unfoldable pub constant_time_eq : Bytes → Bytes → Bool
constant_time_eq left right =
    if not (length left == length right) then false else differences 0 left right == 0

abbrev pub is_authenticate : Option IpcRequestKind → Bool
is_authenticate (some authenticate) = true
is_authenticate _ = false

-- The first message of a connection.
unfoldable pub authenticated : IpcEnvelope → Bytes → Bool
authenticated auth token =
    auth.protocol_version == model_ipc_version
    && is_authenticate (kind_of auth.kind)
    && constant_time_eq auth.payload token
