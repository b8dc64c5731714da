-- ===== src/Samples/Messages.antt =====
-- Messages to the daemon, and how long their answers are waited for.
use ssh_gateway.Prelude.{
  Text, ℕ, Option, str, none, [], ◌++◌, ◌≡◌, ◌<◌, ◌≢◌, ◌⊎◌, ◌≤◌, ◌^◌, ◌↔◌, refl, arith, inr, length,
  subst,
}
use mathlib.Core.Sum.{inr-injective}
use ssh_gateway.Errors.{ok, err, io}
use ssh_gateway.Protocol.{Request}
use ssh_gateway.Ipc.{
  FrameCodec, to_be_bytes, from_be_bytes, prepended, read_exact, framed, write_frame, or_eof,
  decoded_frame, read_frame, response_timeout,
}
use ssh_gateway.Ipc.Frames.{read_frame-write_frame}
use ssh_gateway.Ipc.Deadlines.{Outlasts, daemon_deadline, timeout_or, response_timeout-Outlasts}

abbrev quoted : FrameCodec Text
quoted = record { to_vec = λ t. inr t; from_slice = λ t. inr t; eof = [] }

abbrev hello : Text
hello = str "hello"

quoted_law : (v p : Text) → quoted.to_vec v ≡ inr p → quoted.from_slice p ≡ inr v
quoted_law v p h = cc

hello_short : (p : Text) → quoted.to_vec hello ≡ inr p → length p < 2 ^ 32
unfolding str
hello_short p h = subst (λ (s : Text). length s < 2 ^ 32) (inr-injective hello p h) (omega arith)

hello_written : write_frame quoted hello ≡ ok (to_be_bytes 5 ++ hello)
unfolding write_frame framed str
hello_written = refl

read_frame-write_frame_example :
    read_frame quoted ((to_be_bytes 5 ++ hello) ++ hello) ≡ ok (hello, hello)
read_frame-write_frame_example =
    read_frame-write_frame quoted quoted_law hello (to_be_bytes 5 ++ hello) hello hello_short
      hello_written

cut_off : read_frame quoted (to_be_bytes 5 ++ str "hel") ≡ err (io [])
unfolding read_frame or_eof decoded_frame read_exact prepended from_be_bytes to_be_bytes str
cut_off = refl

abbrev unlimited : Option ℕ
unlimited = none

response_timeout-Outlasts_example :
    Outlasts
      (daemon_deadline (timeout_or unlimited 3600))
      (response_timeout (Request.exec (str "web") (str "make") none unlimited []))
    ↔ ((unlimited ≢ none) ⊎ ((0 < 3600) × (3600 ≤ 890)))
response_timeout-Outlasts_example =
    response_timeout-Outlasts (str "web") (str "make") none unlimited [] 3600
