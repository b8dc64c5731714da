-- ===== src/Redaction/Loop.antt =====
-- The loop over private keys ends within its turns.
use ssh_gateway.Prelude.{
  ℕ, zero, suc, Text, str, [], ◌∷◌, ◌++◌, ◌≤◌, ◌<◌, ◌≡◌, refl, ap, inl, inr, ◌==◌, arith,
  Bool-cases, Option, none, some, Option-cases, is_some, length, length-append, starts_with,
}
use ssh_gateway.Redaction.{
  key_mark, put_before, split_at, prepend, split_line, after_end, at_begin, key_blocks,
  redact_private_key_blocks,
}
use ssh_gateway.Redaction.Hidden.{split_at-Parts}

-- What was found is not empty.
abbrev Found : Option (Text × Text) → Type 0
Found none = Unit
Found (some (before, rest)) = 0 < length rest

prepend-Found : (c : ℕ) (o : Option (Text × Text)) → Found o → Found (prepend c o)
unfolding prepend
prepend-Found c none h = tt
prepend-Found c (some (before, rest)) h = h

split_at-Found : (pattern t : Text) → Found (split_at pattern t)
unfolding split_at
split_at-Found pattern [] = tt
split_at-Found pattern (c ∷ t) = elim (Bool-cases (starts_with (c ∷ t) pattern)) [
  | inl e ↦ rw e (omega arith)
  | inr e ↦ rw e (prepend-Found c (split_at pattern t) (split_at-Found pattern t))
]

length-split_line : (t : Text) → length (split_line t).1 ≤ length t
unfolding split_line
length-split_line [] = omega arith
length-split_line (c ∷ t) = elim (Bool-cases (c == 10)) [
  | inl e ↦ rw e (omega arith)
  | inr e ↦ rw e (omega (arith, length-split_line t))
]

length-split_line-lt : (t : Text) → 0 < length t → length (split_line t).1 < length t
unfolding split_line
length-split_line-lt [] h = absurd (omega arith)
length-split_line-lt (c ∷ t) h = elim (Bool-cases (c == 10)) [
  | inl e ↦ rw e (omega arith)
  | inr e ↦ rw e (omega (arith, length-split_line t))
]

-- The part that was found is no longer than the whole.
length-found : (t before rest : Text) → t ≡ before ++ rest → length rest ≤ length t
length-found t before rest h =
    let sum = length-append before rest in
    let same : length t ≡ length (before ++ rest) = ap (λ (x : Text). length x) h in
    omega (arith, sum, same)

-- The text behind the line that was found is shorter.
body-lt :
    (t before rest : Text)
    → split_at (str "-----BEGIN ") t ≡ some (before, rest)
    → length (split_line rest).1 < length t
body-lt t before rest e =
    let parts : t ≡ before ++ rest = rw e at (split_at-Parts (str "-----BEGIN ") t) in
    let some_left : 0 < length rest = rw e at (split_at-Found (str "-----BEGIN ") t) in
    omega (arith, length-split_line-lt rest some_left, length-found t before rest parts)

module _ (more other : Text → Option Text) (n : ℕ)
    (same : (t : Text) → length t < n → more t ≡ other t) where
  after_end-same :
      (body : Text)
      → length body < n
      → after_end more (split_at (str "-----END ") body)
        ≡ after_end other (split_at (str "-----END ") body)
  unfolding after_end
  after_end-same body l = elim (Option-cases (split_at (str "-----END ") body)) [
    | inl e ↦ rw e
    | inr (r, e) ↦
        let parts : body ≡ r.0 ++ r.1 = rw e at (split_at-Parts (str "-----END ") body) in
        rw e (
          same (split_line r.1).1
            (omega (arith, length-split_line r.1, length-found body r.0 r.1 parts)))
  ]

  at_begin-same :
      (t : Text)
      → length t ≤ n
      → at_begin more t (split_at (str "-----BEGIN ") t)
        ≡ at_begin other t (split_at (str "-----BEGIN ") t)
  unfolding at_begin
  at_begin-same t l = elim (Option-cases (split_at (str "-----BEGIN ") t)) [
    | inl e ↦ rw e
    | inr (r, e) ↦
        let (header, body) = split_line r.1 in
        let shorter : length body < n = omega (arith, body-lt t r.0 r.1 e) in
        elim (Bool-cases (is_some (split_at (str "PRIVATE KEY") header))) [
          | inl key ↦
              rw (e, key)
                (ap (λ (x : Option Text). put_before r.0 (put_before key_mark x))
                  (after_end-same body shorter))
          | inr other_line ↦
              rw (e, other_line)
                (ap (λ (x : Option Text). put_before r.0 (put_before header x)) (same body shorter))
        ]
  ]

-- The loop has ended, with a text.
abbrev Ended : Option Text → Type 0
Ended o = (u : Text) × (o ≡ some u)

put_before-Ended : (front : Text) (o : Option Text) → Ended o → Ended (put_before front o)
put_before-Ended front o (u, e) = rw e (front ++ u, refl)

module _ (more : Text → Option Text) (n : ℕ)
    (ends : (t : Text) → length t < n → Ended (more t)) where
  after_end-Ended :
      (body : Text) → length body < n → Ended (after_end more (split_at (str "-----END ") body))
  unfolding after_end
  after_end-Ended body l = elim (Option-cases (split_at (str "-----END ") body)) [
    | inl e ↦ rw e ([], refl)
    | inr (r, e) ↦
        let parts : body ≡ r.0 ++ r.1 = rw e at (split_at-Parts (str "-----END ") body) in
        rw e (
          ends (split_line r.1).1
            (omega (arith, length-split_line r.1, length-found body r.0 r.1 parts)))
  ]

  at_begin-Ended :
      (t : Text) → length t ≤ n → Ended (at_begin more t (split_at (str "-----BEGIN ") t))
  unfolding at_begin
  at_begin-Ended t l = elim (Option-cases (split_at (str "-----BEGIN ") t)) [
    | inl e ↦ rw e (t, refl)
    | inr (r, e) ↦
        let (header, body) = split_line r.1 in
        let shorter = body-lt t r.0 r.1 e in
        elim (Bool-cases (is_some (split_at (str "PRIVATE KEY") header))) [
          | inl key ↦
              rw (e, key)
                (put_before-Ended r.0 _
                  (put_before-Ended key_mark _ (after_end-Ended body (omega (arith, shorter)))))
          | inr other_line ↦
              rw (e, other_line)
                (put_before-Ended r.0 _
                  (put_before-Ended header _ (ends body (omega (arith, shorter)))))
        ]
  ]

key_blocks-same :
    (f g : ℕ) (t : Text) → length t < f → length t < g → key_blocks f t ≡ key_blocks g t
unfolding key_blocks
key_blocks-same zero g t h k = absurd (omega arith)
key_blocks-same (suc f) zero t h k = absurd (omega arith)
key_blocks-same (suc f) (suc g) t h k =
    at_begin-same (key_blocks f) (key_blocks g) (length t)
      (λ u l. key_blocks-same f g u (omega arith) (omega arith)) t (omega arith)

key_blocks-Ended : (f : ℕ) (t : Text) → length t < f → Ended (key_blocks f t)
unfolding key_blocks
key_blocks-Ended zero t h = absurd (omega arith)
key_blocks-Ended (suc f) t h =
    at_begin-Ended (key_blocks f) (length t) (λ u l. key_blocks-Ended f u (omega arith)) t
      (omega arith)

-- With any number of turns above the text's number of bytes, the loop over private key blocks comes to
-- its end before they are used up, and always with the same text.
pub redact_private_key_blocks-Ends :
    (f : ℕ) (t : Text) → length t < f → key_blocks f t ≡ some (redact_private_key_blocks t)
unfolding redact_private_key_blocks
redact_private_key_blocks-Ends f t h =
    let (u, e) = key_blocks-Ended (suc (length t)) t (omega arith) in
    rw (key_blocks-same f (suc (length t)) t h (omega arith), e) refl
