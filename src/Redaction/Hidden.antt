-- ===== src/Redaction/Hidden.antt =====
-- What the redaction hides.
use ssh_gateway.Prelude.{
  ℕ, zero, suc, Text, str, true, false, not, ==_iff, List, [], ◌∷◌, ◌++◌, ◌-◌, ◌≡◌, ◌≢◌, refl, sym,
  subst, ap, ◌∙◌, inl, inr, ◌==◌, arith, Bool-cases, any, All, Any, is_empty, starts_with, length,
  Option, none, some, Option-cases, is_some,
}
use mathlib.Core.List.{append-nil, append_assoc}
use ssh_gateway.Redaction.{
  SecretRedactor, redacted_mark, key_mark, replace_from, replace, replace_all, split_at, prepend,
  split_line, after_end, at_begin, key_blocks, redact_private_key_blocks, redact,
}
use ssh_gateway.Redaction.Masks.{
  Masks, done, kept, masked, in_mark, is_free, At, starts_with-Masks, At-mark, At-Masks,
}

abbrev Marks : Text → Type 0
Marks mark = All (λ c. in_mark c ≡ true) mark

all-Marks : (mark : Text) → any (λ c. not (in_mark c)) mark ≡ false → Marks mark
all-Marks [] h = tt
all-Marks (c ∷ mark) h = (ground arith, all-Marks mark (ground arith))

key_mark-Marks : Marks key_mark
key_mark-Marks = all-Marks key_mark (unfold str in refl)

redacted_mark-Marks : Marks redacted_mark
redacted_mark-Marks = all-Marks redacted_mark (unfold str in refl)

-- What is behind the bytes that a match skips.
abbrev Behind : Text → Text → Type 0
Behind t u = (gone rest : Text) × (t ≡ gone ++ rest) × Masks rest u

module _ (pattern : Text) (b : ℕ) (mark : Text) (i : Marks (b ∷ mark)) where
  replace_from-Masks :
      (t : Text)
      → Masks t (replace_from pattern (b ∷ mark) 0 t)
        × ((k : ℕ) → Behind t (replace_from pattern (b ∷ mark) k t))
  unfolding replace_from
  replace_from-Masks [] =
      (done, elim [ zero ↦ ([], [], refl, done) | suc k ↦ ([], [], refl, done) ])
  replace_from-Masks (c ∷ t) =
      let (same, behind) = replace_from-Masks t in
      let now : Masks (c ∷ t) (replace_from pattern (b ∷ mark) 0 (c ∷ t)) =
        elim (Bool-cases (starts_with (c ∷ t) pattern)) [
          | inl e ↦
              let (gone, rest, s, m) = behind (length pattern - 1) in
              let put = (b ∷ mark) ++ replace_from pattern (b ∷ mark) (length pattern - 1) t in
              rw e (subst (λ (x : Text). Masks (c ∷ x) put) (sym s) (masked (c ∷ gone) b mark i m))
          | inr e ↦ rw e (kept c same)
        ] in
      (
        now,
        elim [
          | zero ↦ ([], c ∷ t, refl, now)
          | suc k ↦
              let (gone, rest, s, m) = behind k in (c ∷ gone, rest, ap (λ (x : Text). c ∷ x) s, m)
        ],
      )

-- A text of the caller's, which is not empty and has no byte of a mark.
module _ (d : ℕ) (s : Text) (f : is_free (d ∷ s) ≡ true) where
  replaced-gone :
      (b : ℕ) (mark : Text) (i : Marks (b ∷ mark)) (k : ℕ) (t : Text)
      → At (d ∷ s) (replace_from (d ∷ s) (b ∷ mark) k t)
      → ⊥
  unfolding replace_from
  replaced-gone b mark i k [] h = h
  replaced-gone b mark i (suc k) (c ∷ t) h = replaced-gone b mark i k t h
  replaced-gone b mark i zero (c ∷ t) h = elim (Bool-cases (starts_with (c ∷ t) (d ∷ s))) [
    | inl e ↦
        let rest = replace_from (d ∷ s) (b ∷ mark) (length (d ∷ s) - 1) t in
        replaced-gone b mark i (length (d ∷ s) - 1) t (At-mark d s (b ∷ mark) rest f i (rw e at h))
    | inr e ↦
        let found : At (d ∷ s) (c ∷ replace_from (d ∷ s) (b ∷ mark) 0 t) = rw e at h in
        let same = kept c (replace_from-Masks (d ∷ s) b mark i t).0 in
        elim found [
          | inl now ↦ ground (arith, e, starts_with-Masks (d ∷ s) same f now)
          | inr later ↦ replaced-gone b mark i 0 t later
        ]
  ]

-- The two parts make up the text.
abbrev pub Parts : Text → Option (Text × Text) → Type 0
Parts t none = Unit
Parts t (some (before, rest)) = t ≡ before ++ rest

prepend-Parts :
    (c : ℕ) (t : Text) (o : Option (Text × Text)) → Parts t o → Parts (c ∷ t) (prepend c o)
unfolding prepend
prepend-Parts c t none h = tt
prepend-Parts c t (some (before, rest)) h = ap (λ (x : Text). c ∷ x) h

pub split_at-Parts : (pattern t : Text) → Parts t (split_at pattern t)
unfolding split_at
split_at-Parts pattern [] = tt
split_at-Parts pattern (c ∷ t) = elim (Bool-cases (starts_with (c ∷ t) pattern)) [
  | inl e ↦ rw e refl
  | inr e ↦ rw e (prepend-Parts c t (split_at pattern t) (split_at-Parts pattern t))
]

pub split_line-append : (t : Text) → t ≡ (split_line t).0 ++ (split_line t).1
unfolding split_line
split_line-append [] = refl
split_line-append (c ∷ t) = elim (Bool-cases (c == 10)) [
  | inl e ↦ rw e
  | inr e ↦ rw e (ap (λ (x : Text). c ∷ x) (split_line-append t))
]

same-Masks : (t : Text) → Masks t t
same-Masks [] = done
same-Masks (c ∷ t) = kept c (same-Masks t)

append-Masks : (before : Text) {t u : Text} → Masks t u → Masks (before ++ t) (before ++ u)
append-Masks [] m = m
append-Masks (c ∷ before) m = kept c (append-Masks before m)

mark-Masks :
    (mark gone : Text) {t u : Text}
    → Marks mark
    → is_empty mark ≡ false
    → Masks t u
    → Masks (gone ++ t) (mark ++ u)
mark-Masks [] gone i n m = absurd (cc)
mark-Masks (b ∷ mark) gone i n m = masked gone b mark i m

replace-Masks :
    (pattern mark t : Text) → Marks mark → is_empty mark ≡ false → Masks t (replace pattern mark t)
unfolding replace
replace-Masks pattern [] t i n = absurd (cc)
replace-Masks pattern (b ∷ mark) t i n = (replace_from-Masks pattern b mark i t).0

-- Nothing is claimed of a loop that is still going.
abbrev Covers : Option Text → (Text → Type 0) → Type 0
Covers none P = Unit
Covers (some u) P = P u

module _ (more : Text → Option Text) (m : (t : Text) → Covers (more t) (Masks t)) where
  after_end-Behind :
      (body : Text) → Covers (after_end more (split_at (str "-----END ") body)) (Behind body)
  unfolding after_end
  after_end-Behind body = elim (Option-cases (split_at (str "-----END ") body)) [
    | inl e ↦ rw e (body, [], sym (append-nil body), done)
    | inr (r, e) ↦
        let parts : body ≡ r.0 ++ r.1 = rw e at (split_at-Parts (str "-----END ") body) in
        let (line, rest) = split_line r.1 in
        let behind =
          parts
          ∙ ap (λ (x : Text). r.0 ++ x) (split_line-append r.1)
          ∙ sym (append_assoc r.0 line rest) in
        elim (Option-cases (more rest)) [
          | inl o ↦ rw (e, o) tt
          | inr (u, o) ↦ rw (e, o) (r.0 ++ line, rest, behind, (rw o at (m rest)))
        ]
  ]

  at_begin-Masks : (t : Text) → Covers (at_begin more t (split_at (str "-----BEGIN ") t)) (Masks t)
  unfolding at_begin
  at_begin-Masks t = elim (Option-cases (split_at (str "-----BEGIN ") t)) [
    | inl e ↦ rw e (same-Masks t)
    | inr (r, e) ↦
        let (header, body) = split_line r.1 in
        let parts : t ≡ r.0 ++ r.1 = rw e at (split_at-Parts (str "-----BEGIN ") t) in
        let whole : t ≡ r.0 ++ (header ++ body) =
          parts ∙ ap (λ (x : Text). r.0 ++ x) (split_line-append r.1) in
        elim (Bool-cases (is_some (split_at (str "PRIVATE KEY") header))) [
          | inl key ↦ elim (Option-cases (after_end more (split_at (str "-----END ") body))) [
            | inl o ↦ rw (e, key, o) tt
            | inr (u, o) ↦
                let (gone, rest, s, k) : Behind body u = rw o at (after_end-Behind body) in
                let inner : r.0 ++ (header ++ body) ≡ r.0 ++ ((header ++ gone) ++ rest) =
                  ap (λ (x : Text). r.0 ++ x)
                    (ap (λ (x : Text). header ++ x) s ∙ sym (append_assoc header gone rest)) in
                rw (e, key, o)
                  (subst (λ (x : Text). Masks x (r.0 ++ (key_mark ++ u))) (sym (whole ∙ inner))
                    (append-Masks r.0
                      (mark-Masks key_mark (header ++ gone) key_mark-Marks (unfold str in refl) k)))
          ]
          | inr other ↦ elim (Option-cases (more body)) [
            | inl o ↦ rw (e, other, o) tt
            | inr (u, o) ↦
                rw (e, other, o)
                  (subst (λ (x : Text). Masks x (r.0 ++ (header ++ u))) (sym whole)
                    (append-Masks r.0 (append-Masks header (rw o at (m body)))))
          ]
        ]
  ]

key_blocks-Masks : (f : ℕ) (t : Text) → Covers (key_blocks f t) (Masks t)
unfolding key_blocks
key_blocks-Masks zero t = tt
key_blocks-Masks (suc f) t = at_begin-Masks (key_blocks f) (key_blocks-Masks f) t

redact_private_key_blocks-Masks : (t : Text) → Masks t (redact_private_key_blocks t)
unfolding redact_private_key_blocks
redact_private_key_blocks-Masks t = elim (Option-cases (key_blocks (suc (length t)) t)) [
  | inl e ↦ rw e (same-Masks t)
  | inr (u, e) ↦ rw e (rw e at (key_blocks-Masks (suc (length t)) t))
]

starts_with-append : (s after : Text) → starts_with (s ++ after) s ≡ true
unfolding starts_with
starts_with-append [] after = refl
starts_with-append (c ∷ s) after = ground (arith, starts_with-append s after, ==_iff c c)

At-middle : (d : ℕ) (s before after : Text) → At (d ∷ s) (before ++ ((d ∷ s) ++ after))
At-middle d s [] after = inl (starts_with-append (d ∷ s) after)
At-middle d s (c ∷ before) after = inr (At-middle d s before after)

module _ (d : ℕ) (s : Text) (f : is_free (d ∷ s) ≡ true) where
  replace-gone :
      (mark t : Text) → Marks mark → is_empty mark ≡ false → At (d ∷ s) (replace (d ∷ s) mark t) → ⊥
  unfolding replace
  replace-gone [] t i n h = absurd (cc)
  replace-gone (b ∷ mark) t i n h = replaced-gone d s f b mark i 0 t h

  replace_all-At :
      (secrets : List Text) (t : Text) → At (d ∷ s) (replace_all secrets t) → At (d ∷ s) t
  unfolding replace_all
  replace_all-At [] t h = h
  replace_all-At (secret ∷ secrets) t h =
      At-Masks d s (replace-Masks secret redacted_mark t redacted_mark-Marks (unfold str in refl)) f
        (replace_all-At secrets (replace secret redacted_mark t) h)

  replace_all-gone :
      (secrets : List Text) (t : Text)
      → Any (λ x. x ≡ d ∷ s) secrets
      → At (d ∷ s) (replace_all secrets t)
      → ⊥
  unfolding replace_all
  replace_all-gone [] t m h = m
  replace_all-gone (secret ∷ secrets) t (inl e) h =
      let now : At (d ∷ s) (replace (d ∷ s) redacted_mark t) =
        subst (λ (x : Text). At (d ∷ s) (replace x redacted_mark t)) e
          (replace_all-At secrets (replace secret redacted_mark t) h) in
      replace-gone redacted_mark t redacted_mark-Marks (unfold str in refl) now
  replace_all-gone (secret ∷ secrets) t (inr m) h =
      replace_all-gone secrets (replace secret redacted_mark t) m h

pub redact-hides :
    (self : SecretRedactor) (secret input before after : Text)
    → is_empty secret ≡ false
    → is_free secret ≡ true
    → Any (λ s. s ≡ secret) self.secrets
    → redact self input ≢ before ++ (secret ++ after)
unfolding redact
redact-hides self [] input before after n f m h = absurd (cc)
redact-hides self (d ∷ s) input before after n f m h =
    let text = replace_all self.secrets input in
    let here : At (d ∷ s) (redact_private_key_blocks text) =
      subst (At (d ∷ s)) (sym h) (At-middle d s before after) in
    replace_all-gone d s f self.secrets input m
      (At-Masks d s (redact_private_key_blocks-Masks text) f here)
