-- ===== src/Ipc.antt =====
-- src/ipc.rs: messages between the command line and the daemon.
pub mod Frames
pub mod Deadlines
use ssh_gateway.Prelude.{
  ℕ, zero, suc, Text, str, Bool, true, false, Option, none, some, [], ◌∷◌, ◌++◌, ◌+◌, ◌*◌, ◌/◌, ◌%◌,
  ◌^◌, ◌==◌, ◌⊎◌, inl, inr, if◌then◌else◌, length,
}
use ssh_gateway.Errors.{Result, ok, err, ipc, io, ◌>>=◌}
use ssh_gateway.Externals.{saturating_add}
use ssh_gateway.Protocol.{Request}

-- The JSON of a message, by a message or a value, and what the stream's reader says at its end.
pub record FrameCodec (T : Type 0) : Type 0 where
  pub to_vec : T → Text ⊎ Text
  pub from_slice : Text → Text ⊎ T
  pub eof : Text

-- `(len as u32).to_be_bytes()`
unfoldable pub to_be_bytes : ℕ → Text
to_be_bytes n = n / 2 ^ 24 % 256 ∷ n / 2 ^ 16 % 256 ∷ n / 2 ^ 8 % 256 ∷ n % 256 ∷ []

-- `u32::from_be_bytes`, of four bytes
unfoldable pub from_be_bytes : Text → ℕ
from_be_bytes (a ∷ b ∷ c ∷ d ∷ []) = a * 2 ^ 24 + b * 2 ^ 16 + c * 2 ^ 8 + d
from_be_bytes _ = 0

unfoldable pub prepended : ℕ → Option (Text × Text) → Option (Text × Text)
prepended c none = none
prepended c (some (front, rest)) = some (c ∷ front, rest)

-- `read_exact`: that many bytes, and what is left.
unfoldable pub read_exact : ℕ → Text → Option (Text × Text)
unfolding prepended
read_exact zero stream = some ([], stream)
read_exact (suc n) [] = none
read_exact (suc n) (c ∷ stream) = prepended c (read_exact n stream)

module _ {T : Type 0} (codec : FrameCodec T) where
  unfoldable pub framed : Text ⊎ Text → Result Text
  framed (inl m) = err (ipc (str "serialize request: " ++ m))
  framed (inr payload) = ok (to_be_bytes (length payload) ++ payload)

  -- The bytes that are written.
  unfoldable pub write_frame : T → Result Text
  unfolding framed
  write_frame value = framed (codec.to_vec value)

  unfoldable pub or_eof : Option (Text × Text) → Result (Text × Text)
  or_eof none = err (io codec.eof)
  or_eof (some r) = ok r

  unfoldable pub decoded_frame : Text → Text ⊎ T → Result (T × Text)
  decoded_frame rest (inl m) = err (ipc (str "decode frame: " ++ m))
  decoded_frame rest (inr value) = ok (value, rest)

  -- The value, and what is left of the stream.
  unfoldable pub read_frame : Text → Result (T × Text)
  unfolding or_eof decoded_frame
  read_frame stream = or_eof (read_exact 4 stream) >>= λ head.
      or_eof (read_exact (from_be_bytes head.0) head.1) >>= λ body.
      decoded_frame body.1 (codec.from_slice body.0)

abbrev pub exec_deadline : Option ℕ → Option ℕ
exec_deadline none = some 900
exec_deadline (some seconds) = if seconds == 0 then none else some (saturating_add seconds 25)

-- `response_timeout`, in seconds; `none` is to wait for ever
unfoldable pub response_timeout : Request → Option ℕ
response_timeout (Request.exec profile command cwd timeout env) = exec_deadline timeout
response_timeout Request.ping = some 15
response_timeout Request.profile_list = some 15
response_timeout (Request.profile_show name) = some 15
response_timeout (Request.profile_validate name) = some 15
response_timeout (Request.profile_policy name) = some 15
response_timeout (Request.profile_create p) = some 15
response_timeout (Request.profile_delete name hash) = some 15
response_timeout Request.approval_list = some 15
response_timeout (Request.approval_show id) = some 15
response_timeout (Request.approval_reject id) = some 15
response_timeout Request.approval_cleanup = some 15
response_timeout _ = some 900
