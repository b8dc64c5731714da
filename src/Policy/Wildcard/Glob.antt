-- ===== src/Policy/Wildcard/Glob.antt =====
-- What a wildcard pattern means, with no search order in it.
use ssh_gateway.Prelude.{ℕ, Text, true, [], ◌∷◌, ◌≡◌, ◌≢◌, refl, arith}
use ssh_gateway.Policy.Wildcard.{only_stars}

pub data Glob : Text → Text → Type 0 where
  empty : Glob [] []
  byte : {q c : ℕ} {p v : Text} → q ≢ b'*' → q ≡ c → Glob p v → Glob (q ∷ p) (c ∷ v)
  leave : {q : ℕ} {p v : Text} → q ≡ b'*' → Glob p v → Glob (q ∷ p) v
  take : {q c : ℕ} {p v : Text} → q ≡ b'*' → Glob (q ∷ p) v → Glob (q ∷ p) (c ∷ v)

-- The pattern `*p`.
abbrev pub starred : Text → Text
starred p = b'*' ∷ p

module _ {p : Text} where
  pub byte_inv : {q c : ℕ} {v : Text} → q ≢ b'*' → Glob (q ∷ p) (c ∷ v) → (q ≡ c) × Glob p v
  byte_inv h (byte _ e d) = (e, d)
  byte_inv h (leave e d) = absurd (h e)
  byte_inv h (take e d) = absurd (h e)

  pub star_at_end : {q : ℕ} → q ≡ b'*' → Glob (q ∷ p) [] → Glob p []
  star_at_end h (leave e d) = d

  byte_at_end : {q : ℕ} → q ≢ b'*' → ¬ Glob (q ∷ p) []
  byte_at_end h (leave e d) = h e

  -- A star takes the first byte, or what follows it matches already.
  pub must_take :
      {q c : ℕ} {v : Text} → q ≡ b'*' → Glob (q ∷ p) (c ∷ v) → ¬ Glob p (c ∷ v) → Glob (q ∷ p) v
  must_take h (byte n e d) no_match = absurd (n h)
  must_take h (leave e d) no_match = absurd (no_match d)
  must_take h (take e d) no_match = d

  pub two_stars : {q r : ℕ} {v : Text} → q ≡ b'*' → r ≡ b'*' → Glob (q ∷ r ∷ p) v → Glob (r ∷ p) v
  two_stars h k (byte n e d) = absurd (n h)
  two_stars h k (leave e d) = d
  two_stars h k (take e d) = take k (two_stars h k d)

  -- Wherever the literal byte `q` is found, the pattern behind it begins after the first byte.
  pub drop_byte :
      {s q c : ℕ} (v : Text) → s ≡ b'*' → q ≢ b'*' → Glob (s ∷ q ∷ p) (c ∷ v) → Glob (s ∷ p) v
  drop_byte v h k (byte n e d) = absurd (n h)
  drop_byte v h k (leave e d) = leave h (byte_inv k d).1
  drop_byte [] h k (take e (leave _ d)) = absurd (byte_at_end k d)
  drop_byte (x ∷ v) h k (take e d) = take h (drop_byte v h k d)

pub only_stars→Glob : (p : Text) → only_stars p ≡ true → Glob p []
unfolding only_stars
only_stars→Glob [] h = empty
only_stars→Glob (q ∷ p) h = leave (ground arith) (only_stars→Glob p (ground arith))

pub Glob→only_stars : {p v : Text} → Glob p v → v ≡ [] → only_stars p ≡ true
unfolding only_stars
Glob→only_stars empty h = refl
Glob→only_stars (byte n e d) h = cc
Glob→only_stars (leave e d) h = ground (arith, Glob→only_stars d h)
Glob→only_stars (take e d) h = cc
