-- ===== src/Ipc/Frames.antt =====
-- What is written is read again.
use ssh_gateway.Prelude.{
  ℕ, Text, some, [], ◌∷◌, ◌++◌, ◌<◌, ◌^◌, ◌≡◌, refl, arith, ◌⊎◌, inl, inr, length, sym, subst,
}
use mathlib.Core.List.{append_assoc}
use ssh_gateway.Errors.{ok, ok-injective}
use ssh_gateway.Ipc.{
  FrameCodec, to_be_bytes, from_be_bytes, prepended, read_exact, framed, write_frame, or_eof,
  decoded_frame, read_frame,
}

from_be_bytes-to_be_bytes : (n : ℕ) → n < 2 ^ 32 → from_be_bytes (to_be_bytes n) ≡ n
unfolding from_be_bytes to_be_bytes
from_be_bytes-to_be_bytes n h = omega arith

read_exact-append : (p rest : Text) → read_exact (length p) (p ++ rest) ≡ some (p, rest)
unfolding read_exact prepended
read_exact-append [] rest = refl
read_exact-append (c ∷ p) rest = rw (read_exact-append p rest)

header :
    (p rest : Text)
    → read_exact 4 (to_be_bytes (length p) ++ rest) ≡ some (to_be_bytes (length p), rest)
unfolding read_exact prepended to_be_bytes
header p rest = refl

framed-ok :
    {T : Type 0} (codec : FrameCodec T) (o : Text ⊎ Text) {bytes : Text}
    → framed codec o ≡ ok bytes
    → (p : Text) × (o ≡ inr p) × (bytes ≡ to_be_bytes (length p) ++ p)
unfolding framed
framed-ok codec (inl m) h = absurd (cc)
framed-ok codec (inr p) h = (p, refl, sym (ok-injective h))

module _ {T : Type 0} (codec : FrameCodec T) where
  -- A message that was written to the stream is read from it, with what follows left over, if its JSON
  -- is read as the message and is shorter than 2 ^ 32 bytes.
  pub read_frame-write_frame :
      (law : (v : T) (p : Text) → codec.to_vec v ≡ inr p → codec.from_slice p ≡ inr v) (v : T)
      (bytes rest : Text)
      → ((p : Text) → codec.to_vec v ≡ inr p → length p < 2 ^ 32)
      → write_frame codec v ≡ ok bytes
      → read_frame codec (bytes ++ rest) ≡ ok (v, rest)
  unfolding write_frame read_frame or_eof decoded_frame
  read_frame-write_frame law v bytes rest short h =
      let (p, e, b) = framed-ok codec (codec.to_vec v) {bytes = bytes} h in
      let whole = append_assoc (to_be_bytes (length p)) p rest in
      subst (λ (s : Text). read_frame codec (s ++ rest) ≡ ok (v, rest)) (sym b)
        (subst (λ (s : Text). read_frame codec s ≡ ok (v, rest)) (sym whole)
          (rw (
            header p (p ++ rest),
            from_be_bytes-to_be_bytes (length p) (short p e),
            read_exact-append p rest,
            law v p e,
          )))
