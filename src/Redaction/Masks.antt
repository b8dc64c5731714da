-- ===== src/Redaction/Masks.antt =====
-- Putting marks into a text brings in no text that has no byte of a mark.
use ssh_gateway.Prelude.{
  ℕ, Text, Bool, true, not, ==_iff, [], ◌∷◌, ◌++◌, ◌≡◌, refl, subst, ◌⊎◌, inl, inr, ◌==◌, arith,
  &&-true, any, All, starts_with,
}
use ssh_gateway.Redaction.{key_mark}

-- Whether a byte stands in one of the marks; the longer one has the bytes of both.
abbrev pub in_mark : ℕ → Bool
in_mark c = any (λ d. c == d) key_mark

-- No byte of the text stands in a mark.
abbrev pub is_free : Text → Bool
is_free s = not (any in_mark s)

-- The text occurs somewhere, at a byte.
abbrev pub At : Text → Text → Type 0
At s [] = ⊥
At s (c ∷ t) = (starts_with (c ∷ t) s ≡ true) ⊎ At s t

-- The second text is the first one with stretches replaced by marks.
pub data Masks : Text → Text → Type 0 where
  done : Masks [] []
  kept : (c : ℕ) {t u : Text} → Masks t u → Masks (c ∷ t) (c ∷ u)
  masked :
      (gone : Text) (m : ℕ) (mark : Text) {t u : Text}
      → All (λ d. in_mark d ≡ true) (m ∷ mark)
      → Masks t u
      → Masks (gone ++ t) ((m ∷ mark) ++ u)

not_in_mark : (c d : ℕ) (s : Text) → is_free (d ∷ s) ≡ true → in_mark c ≡ true → (c == d) ≡ true → ⊥
not_in_mark c d s f i e =
    let same : in_mark d ≡ true = subst (λ (b : ℕ). in_mark b ≡ true) ((==_iff c d).0 e) i in
    ground (arith, same, f)

starts_with-head :
    (c d : ℕ) (t s : Text)
    → starts_with (c ∷ t) (d ∷ s) ≡ true
    → ((c == d) ≡ true) × (starts_with t s ≡ true)
unfolding starts_with
starts_with-head c d t s h = &&-true (c == d) (starts_with t s) h

is_free-tail : (d : ℕ) (s : Text) → is_free (d ∷ s) ≡ true → is_free s ≡ true
is_free-tail d s f = ground arith

pub starts_with-Masks :
    (s : Text) {t u : Text}
    → Masks t u
    → is_free s ≡ true
    → starts_with u s ≡ true
    → starts_with t s ≡ true
unfolding starts_with
starts_with-Masks [] m f h = refl
starts_with-Masks (d ∷ s) done f h = h
starts_with-Masks (d ∷ s) (kept c {t} {u} m) f h =
    let (e, later) = starts_with-head c d u s h in
    ground (arith, e, starts_with-Masks s m (is_free-tail d s f) later)
starts_with-Masks (d ∷ s) (masked gone b mark {t} {u} i m) f h =
    absurd (not_in_mark b d s f i.0 (starts_with-head b d (mark ++ u) s h).0)

At-append : (s gone t : Text) → At s t → At s (gone ++ t)
At-append s [] t h = h
At-append s (c ∷ gone) t h = inr (At-append s gone t h)

pub At-mark :
    (d : ℕ) (s mark u : Text)
    → is_free (d ∷ s) ≡ true
    → All (λ c. in_mark c ≡ true) mark
    → At (d ∷ s) (mark ++ u)
    → At (d ∷ s) u
unfolding starts_with
At-mark d s [] u f i h = h
At-mark d s (c ∷ mark) u f i (inr h) = At-mark d s mark u f i.1 h
At-mark d s (c ∷ mark) u f i (inl h) =
    absurd (not_in_mark c d s f i.0 (starts_with-head c d (mark ++ u) s h).0)

pub At-Masks :
    (d : ℕ) (s : Text) {t u : Text}
    → Masks t u
    → is_free (d ∷ s) ≡ true
    → At (d ∷ s) u
    → At (d ∷ s) t
At-Masks d s done f h = h
At-Masks d s (kept c m) f (inl h) = inl (starts_with-Masks (d ∷ s) (kept c m) f h)
At-Masks d s (kept c m) f (inr h) = inr (At-Masks d s m f h)
At-Masks d s (masked gone b mark {t} {u} i m) f h =
    At-append (d ∷ s) gone t (At-Masks d s m f (At-mark d s (b ∷ mark) u f i h))
