-- ===== src/Policy/Wildcard/Correct.antt =====
-- `wildcard_match` ends within its rounds, is sound, and is complete on values without a star.
use ssh_gateway.Prelude.{
  ℕ, zero, suc, ◌+◌, ◌*◌, ◌≤◌, ◌<◌, Text, Bool, true, false, Option, none, some, [], ◌∷◌, ◌==◌,
  length, ◌≡◌, ◌≢◌, ◌⊎◌, ◌↔◌, sym, ◌∙◌, inl, inr, refl, arith, All, Bool-cases, ==_iff,
}
use ssh_gateway.Policy.Wildcard.{Back, scan, retry, only_stars, wildcard_match, rounds}
use ssh_gateway.Policy.Wildcard.Glob.{
  Glob, byte, leave, take, starred, byte_inv, star_at_end, must_take, two_stars, drop_byte,
  only_stars→Glob, Glob→only_stars,
}

-- Patterns in play are shorter than `k`, the marked text is no longer than `m`, and the value's
-- cursor stands in the marked text.
abbrev Bounded : ℕ → ℕ → Text → Back → Type 0
Bounded k m v none = Unit {0}
Bounded k m v (some (p, mark)) = (length p < k) × (length mark ≤ m) × (length v ≤ length mark)

abbrev Ends : Option Bool → Type 0
Ends o = (b : Bool) × (o ≡ some b)

Total : ℕ → ℕ → Type 0
Total k f =
    (m : ℕ) (p v : Text) (back : Back)
    → length p < k
    → length v ≤ m
    → Bounded k m v back
    → m * k + length p < f
    → Ends (scan f p v back)

retry-Ends :
    (k f m c : ℕ) (v : Text) (back : Back)
    → Total k f
    → Bounded k m (c ∷ v) back
    → m * k < suc f
    → Ends (retry (scan f) back)
unfolding retry Total
retry-Ends k f m c v none next hb hf = (false, refl)
retry-Ends k f m c v (some (p, [])) next hb hf = absurd (omega arith)
retry-Ends k f zero c v (some (p, x ∷ mark)) next hb hf = absurd (omega arith)
retry-Ends k f (suc m) c v (some (p, x ∷ mark)) next hb hf =
    next m p mark (some (p, mark)) hb.0 (omega arith) (omega arith) (omega arith)

scan-Total : (k f : ℕ) → Total k f
unfolding scan Total
scan-Total k zero m p v back hp hv hb hf = absurd (omega arith)
scan-Total k (suc f) m p [] back hp hv hb hf = (only_stars p, refl)
scan-Total k (suc f) m [] (c ∷ v) back hp hv hb hf =
    retry-Ends k f m c v back (scan-Total k f) hb (omega arith)
scan-Total k (suc f) m (q ∷ p) (c ∷ v) back hp hv hb hf = elim (Bool-cases (q == c)) [
  | inl same ↦
      rw same
        (scan-Total k f m p v back (omega arith) (omega arith) (shorter back hb) (omega arith))
  | inr other ↦ elim (Bool-cases (q == b'*')) [
    | inl star ↦
        rw (other, star)
          (scan-Total k f m p (c ∷ v) (some (p, c ∷ v)) (omega arith) hv (omega arith)
            (omega arith))
    | inr lit ↦ rw (other, lit) (retry-Ends k f m c v back (scan-Total k f) hb (omega arith))
  ]
]
  where
    shorter : (b : Back) → Bounded k m (c ∷ v) b → Bounded k m v b
    shorter none h = tt
    shorter (some (sp, mark)) h = (h.0, h.1, omega arith)

-- The loop of `wildcard_match` ends within the rounds that it is given, on every pattern and value.
pub scan-Ends : (pattern value : Text) → Ends (scan (rounds pattern value) pattern value none)
unfolding Total
scan-Ends pattern value =
    scan-Total (length pattern + 1) (rounds pattern value) (length value) pattern value none
      (omega arith) (omega arith) tt (omega arith)

-- Soundness: what is true now, or of the last star.
abbrev BackMatches : Back → Type 0
BackMatches none = ⊥
BackMatches (some (p, mark)) = Glob (starred p) mark

Sound : ℕ → Type 0
Sound f = (p v : Text) (back : Back) → scan f p v back ≡ some true → Glob p v ⊎ BackMatches back

retry-Sound : (f : ℕ) (back : Back) → Sound f → retry (scan f) back ≡ some true → BackMatches back
unfolding retry Sound
retry-Sound f none next h = ground arith
retry-Sound f (some (p, [])) next h = elim (next p [] (some (p, [])) h) [
  | inl d ↦ leave refl d
  | inr d ↦ d
]
retry-Sound f (some (p, x ∷ mark)) next h = elim (next p mark (some (p, mark)) h) [
  | inl d ↦ take refl (leave refl d)
  | inr d ↦ take refl d
]

pub step-Glob : (q c : ℕ) (p v : Text) → q ≡ c → Glob p v → Glob (q ∷ p) (c ∷ v)
step-Glob q c p v e d = elim (Bool-cases (q == b'*')) [
  | inl star ↦ take ((==_iff q b'*').0 star) (leave ((==_iff q b'*').0 star) d)
  | inr lit ↦ byte (ground arith) e d
]

scan-Sound : (f : ℕ) → Sound f
unfolding scan Sound
scan-Sound zero p v back h = ground arith
scan-Sound (suc f) p [] back h = inl (only_stars→Glob p (ground arith))
scan-Sound (suc f) [] (c ∷ v) back h = inr (retry-Sound f back (scan-Sound f) h)
scan-Sound (suc f) (q ∷ p) (c ∷ v) back h = elim (Bool-cases (q == c)) [
  | inl same ↦ elim (scan-Sound f p v back (rw same at h)) [
    | inl d ↦ inl (step-Glob q c p v ((==_iff q c).0 same) d)
    | inr d ↦ inr d
  ]
  | inr other ↦ elim (Bool-cases (q == b'*')) [
    | inl star ↦ inl (
        wild ((==_iff q b'*').0 star)
          (scan-Sound f p (c ∷ v) (some (p, c ∷ v)) (rw (other, star) at h)))
    | inr lit ↦ inr (retry-Sound f back (scan-Sound f) (rw (other, lit) at h))
  ]
]
  where
    wild : q ≡ b'*' → Glob p (c ∷ v) ⊎ Glob (starred p) (c ∷ v) → Glob (q ∷ p) (c ∷ v)
    wild e (inl d) = leave e d
    wild e (inr d) = rw e d

-- Completeness. How the cursors relate to the last star: what the star's pattern matches from the
-- mark on, the pattern's cursor matches from the value's.
abbrev Linked : Text → Text → Back → Type 0
Linked p v none = Unit {0}
Linked p v (some (sp, mark)) =
    (Glob sp mark → Glob p v) × (Glob (starred sp) mark → Glob (starred p) v)

-- The match that is still in question.
abbrev Asked : Text → Text → Back → Type 0
Asked p v none = Glob p v
Asked p v (some (sp, mark)) = Glob (starred sp) mark

abbrev IsPlain : Text → Type 0
IsPlain v = All (λ c. c ≢ b'*') v

abbrev BackIsPlain : Back → Type 0
BackIsPlain none = Unit {0}
BackIsPlain (some (p, mark)) = IsPlain mark

Complete : ℕ → Type 0
Complete f =
    (p v : Text) (back : Back)
    → scan f p v back ≡ some false
    → Linked p v back
    → IsPlain v
    → BackIsPlain back
    → ¬ Asked p v back

-- The cursors do not match, so the question is about the star's next choice.
retry-Complete :
    (f c : ℕ) (p v : Text) (back : Back)
    → Complete f
    → retry (scan f) back ≡ some false
    → Linked p (c ∷ v) back
    → BackIsPlain back
    → ¬ Glob p (c ∷ v)
    → ¬ Asked p (c ∷ v) back
unfolding retry Complete
retry-Complete f c p v none next h l b no_match a = no_match a
retry-Complete f c p v (some (sp, [])) next h l b no_match a = no_match (l.0 (star_at_end refl a))
retry-Complete f c p v (some (sp, x ∷ mark)) next h l b no_match a =
    next sp mark (some (sp, mark)) h (λ d. d, λ d. d) b.1 b.1
      (must_take refl a (λ d. no_match (l.0 d)))

empty-Complete :
    (p : Text) (back : Back) → only_stars p ≡ false → Linked p [] back → ¬ Asked p [] back
empty-Complete p none h l a = ground (arith, Glob→only_stars a refl)
empty-Complete p (some (sp, mark)) h l a =
    ground (arith, Glob→only_stars (star_at_end refl (l.1 a)) refl)

byte-Complete :
    (q c : ℕ) (p v : Text) (back : Back)
    → q ≡ c
    → q ≢ b'*'
    → Linked (q ∷ p) (c ∷ v) back
    → (Linked p v back → ¬ Asked p v back)
    → ¬ Asked (q ∷ p) (c ∷ v) back
byte-Complete q c p v none e n l next a = next tt (byte_inv n a).1
byte-Complete q c p v (some (sp, mark)) e n l next a =
    next (λ d. (byte_inv n (l.0 d)).1, λ d. drop_byte v refl n (l.1 d)) a

star-Complete :
    (q : ℕ) (p v : Text) (back : Back)
    → q ≡ b'*'
    → Linked (q ∷ p) v back
    → ¬ Glob (starred p) v
    → ¬ Asked (q ∷ p) v back
star-Complete q p v none e l no_match a = no_match (rw e at a)
star-Complete q p v (some (sp, mark)) e l no_match a = no_match (rw e at (two_stars refl e (l.1 a)))

scan-Complete : (f : ℕ) → Complete f
unfolding scan Complete
scan-Complete zero p v back h l pv pb = ground arith
scan-Complete (suc f) p [] back h l pv pb = empty-Complete p back (ground arith) l
scan-Complete (suc f) [] (c ∷ v) back h l pv pb =
    retry-Complete f c [] v back (scan-Complete f) h l pb (λ d. elim d [ ])
scan-Complete (suc f) (q ∷ p) (c ∷ v) back h l pv pb = elim (Bool-cases (q == c)) [
  | inl same ↦
      byte-Complete q c p v back (eq same) (λ e. pv.0 (sym (eq same) ∙ e)) l
        λ l'. scan-Complete f p v back (rw same at h) l' pv.1 pb
  | inr other ↦ elim (Bool-cases (q == b'*')) [
    | inl star ↦
        star-Complete q p (c ∷ v) back ((==_iff q b'*').0 star) l (
          scan-Complete f p (c ∷ v) (some (p, c ∷ v)) (rw (other, star) at h) (λ d. d, λ d. d) pv
            pv)
    | inr lit ↦
        retry-Complete f c (q ∷ p) v back (scan-Complete f) (rw (other, lit) at h) l pb
          λ d. absurd (ground (arith, byte_inv {p = p} {q = q} {c = c} {v = v} (ground arith) d))
  ]
]
  where
    eq : (q == c) ≡ true → q ≡ c
    eq e = (==_iff q c).0 e

-- Where `wildcard_match` is true, the pattern, read with every star as any run of bytes, matches the
-- whole value, whatever its bytes.
pub wildcard_match_sound :
    (pattern value : Text) → wildcard_match pattern value ≡ true → Glob pattern value
unfolding wildcard_match Sound
wildcard_match_sound pattern value h =
    let (b, e) = scan-Ends pattern value in
    elim (scan-Sound (rounds pattern value) pattern value none (ground arith)) [
      | inl d ↦ d
      | inr d ↦ absurd d
    ]

wildcard_match_complete :
    (pattern value : Text)
    → IsPlain value
    → Glob pattern value
    → wildcard_match pattern value ≡ true
unfolding wildcard_match Complete
wildcard_match_complete pattern value plain d =
    let (b, e) = scan-Ends pattern value in
    let refuted = λ (h : scan (rounds pattern value) pattern value none ≡ some false).
      scan-Complete (rounds pattern value) pattern value none h tt plain tt d in
    elim (Bool-cases b) [ inl h ↦ ground arith | inr h ↦ absurd (refuted (ground arith)) ]

-- On a value without a star byte, `wildcard_match` is true exactly when the pattern, read with every
-- star as any run of bytes, matches the whole value.
pub wildcard_match-plain_iff :
    (pattern value : Text)
    → IsPlain value
    → (wildcard_match pattern value ≡ true) ↔ Glob pattern value
wildcard_match-plain_iff pattern value plain =
    (wildcard_match_sound pattern value, wildcard_match_complete pattern value plain)
