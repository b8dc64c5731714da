-- ===== src/Policy/Wildcard.antt =====
-- src/policy.rs, `wildcard_match`: patterns in which `*` stands for any run of bytes. The two
-- cursors are the suffixes they point at, and `star` and `mark` are one optional pair of suffixes.
pub mod Glob
pub mod Correct
pub mod Literal
use ssh_gateway.Prelude.{
  ℕ, zero, suc, ◌+◌, ◌*◌, Text, Bool, true, false, Option, none, some, [], ◌∷◌, ◌==◌, length,
  if◌then◌else◌,
}

-- the last loop and the final test
unfoldable pub only_stars : Text → Bool
only_stars [] = true
only_stars (q ∷ p) = if q == b'*' then only_stars p else false

-- The pattern behind the last star, and the text from its mark on.
abbrev pub Back : Type 0
Back = Option (Text × Text)

-- `p = s + 1; mark += 1; v = mark`, or the early return
unfoldable pub retry : (Text → Text → Back → Option Bool) → Back → Option Bool
retry next none = some false
retry next (some (p, [])) = next p [] (some (p, []))
retry next (some (p, x ∷ mark)) = next p mark (some (p, mark))

-- the loop; `none` means that the fuel ran out
unfoldable pub scan : ℕ → Text → Text → Back → Option Bool
scan zero p v back = none
scan (suc f) p [] back = some (only_stars p)
scan (suc f) [] (c ∷ v) back = retry (scan f) back
scan (suc f) (q ∷ p) (c ∷ v) back =
    let onward = scan f p v back in
    let wild = scan f p (c ∷ v) (some (p, c ∷ v)) in
    if q == c then onward else if q == b'*' then wild else retry (scan f) back

abbrev pub rounds : Text → Text → ℕ
rounds pattern value = (length value + 1) * (length pattern + 1)

-- An exhausted loop would count as no match; it never is exhausted.
abbrev pub or_false : Option Bool → Bool
or_false none = false
or_false (some b) = b

unfoldable pub wildcard_match : Text → Text → Bool
unfolding scan retry only_stars
wildcard_match pattern value = or_false (scan (rounds pattern value) pattern value none)
