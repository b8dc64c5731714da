-- ===== src/Policy/Wildcard/Literal.antt =====
-- src/policy.rs, `wildcard_match`: equal bytes are consumed before a star is looked for, so a star
-- of the pattern that meets a star of the value is read as a literal byte.
use ssh_gateway.Prelude.{
  ℕ, zero, suc, ◌+◌, ◌*◌, ◌≤◌, Text, false, some, none, [], ◌∷◌, ◌++◌, length, ◌≡◌, refl, arith,
  length-append, ==_iff,
}
use ssh_gateway.Policy.Wildcard.{scan, retry, wildcard_match, rounds}
use ssh_gateway.Policy.Wildcard.Glob.{Glob, empty, leave, take, starred}
use ssh_gateway.Policy.Wildcard.Correct.{step-Glob}

le-mul_suc : (a b : ℕ) → a + 1 ≤ (a + 1) * (b + 1)
le-mul_suc a b = grind arith

abbrev trailing_star : Text → Text
trailing_star w = w ++ b'*' ∷ []

module _ (x : ℕ) (rest : Text) where
  abbrev star_then : Text → Text
  star_then w = w ++ b'*' ∷ x ∷ rest

  scan-trailing_star :
      (f : ℕ) (w : Text)
      → length w + 2 ≤ f
      → scan f (trailing_star w) (star_then w) none ≡ some false
  unfolding scan retry
  scan-trailing_star zero w h = absurd (omega arith)
  scan-trailing_star (suc zero) w h = absurd (omega arith)
  scan-trailing_star (suc (suc f)) [] h = refl
  scan-trailing_star (suc (suc f)) (c ∷ w) h =
      rw ((==_iff c c).1 refl) (scan-trailing_star (suc f) w (omega arith))

  Glob-star : (v : Text) → Glob (starred []) v
  Glob-star [] = leave refl empty
  Glob-star (c ∷ v) = take refl (Glob-star v)

  Glob-trailing_star : (w : Text) → Glob (trailing_star w) (star_then w)
  Glob-trailing_star [] = Glob-star (b'*' ∷ x ∷ rest)
  Glob-trailing_star (c ∷ w) =
      step-Glob c c (trailing_star w) (star_then w) refl (Glob-trailing_star w)

  enough_rounds : (w : Text) → length w + 2 ≤ rounds (trailing_star w) (star_then w)
  enough_rounds w = omega (
    arith,
    length-append w (b'*' ∷ x ∷ rest),
    le-mul_suc (length (star_then w)) (length (trailing_star w)),
  )

  -- A pattern that is a text and a star refuses every value that is the same text, a star and at
  -- least one more byte, although the pattern, read with stars, matches it: `rm *` refuses
  -- `rm *.log`.
  pub wildcard_match-trailing_star :
      (w : Text)
      → (wildcard_match (trailing_star w) (star_then w) ≡ false)
        × Glob (trailing_star w) (star_then w)
  unfolding wildcard_match
  wildcard_match-trailing_star w = (
    rw (scan-trailing_star (rounds (trailing_star w) (star_then w)) w (enough_rounds w)),
    Glob-trailing_star w,
  )
