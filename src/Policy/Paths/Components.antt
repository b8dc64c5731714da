-- ===== src/Policy/Paths/Components.antt =====
-- The parts that `normalize_remote_path` keeps, and what a normalized path reads back as.
use ssh_gateway.Prelude.{
  ℕ, Text, text_eq, text_eq_iff, starts_with, true, List, [], ◌∷◌, ◌++◌, ◌==◌, ◌||◌, ◌≡◌, ◌≢◌, refl,
  arith, All, All-append, Bool-cases, inl, inr, ap, sym, ◌∙◌,
}
use ssh_gateway.Errors.{ok}
use mathlib.Core.List.{reverse, reverse-cons, append_assoc, reverse-reverse, append-nil}
use ssh_gateway.Policy.Paths.{
  slash, dot, dot_dot, cons_head, split, pop, push_part, collect, join, components,
  normalize_remote_path,
}

abbrev pub NoSlash : Text → Type 0
NoSlash = All (λ c. c ≢ slash)

-- A part that names a directory entry: not empty, not `.`, not `..`, and with no slash in it.
pub record IsClean (part : Text) : Type 0 where
  pub nonempty : part ≢ []
  pub not_dot : part ≢ dot
  pub not_dot_dot : part ≢ dot_dot
  pub no_slash : NoSlash part

cons_head-NoSlash :
    (c : ℕ) (parts : List Text) → c ≢ slash → All NoSlash parts → All NoSlash (cons_head c parts)
cons_head-NoSlash c [] n h = ((n, tt), tt)
cons_head-NoSlash c (p ∷ ps) n h = ((n, h.0), h.1)

split-NoSlash : (s : Text) → All NoSlash (split s)
unfolding split
split-NoSlash [] = (tt, tt)
split-NoSlash (c ∷ s) = elim (Bool-cases (c == slash)) [
  | inl e ↦ rw e (tt, split-NoSlash s)
  | inr e ↦ rw e (cons_head-NoSlash c (split s) (ground arith) (split-NoSlash s))
]

pop-IsClean : (parts : List Text) → All IsClean parts → All IsClean (pop parts)
pop-IsClean [] h = h
pop-IsClean (p ∷ ps) h = h.1

push_part-IsClean :
    (parts : List Text) (part : Text)
    → All IsClean parts
    → NoSlash part
    → All IsClean (push_part parts part)
unfolding push_part
push_part-IsClean parts part h n = elim (Bool-cases (text_eq part [] || text_eq part dot)) [
  | inl e ↦ rw e h
  | inr e ↦ elim (Bool-cases (text_eq part dot_dot)) [
    | inl d ↦ rw (e, d) (pop-IsClean parts h)
    | inr d ↦
        rw (e, d)
          (
            record {
              nonempty = ground (arith, text_eq_iff part []);
              not_dot = ground (arith, text_eq_iff part dot);
              not_dot_dot = ground (arith, text_eq_iff part dot_dot);
              no_slash = n;
            },
            h,
          )
  ]
]

collect-IsClean :
    (parts rest : List Text)
    → All IsClean parts
    → All NoSlash rest
    → All IsClean (collect parts rest)
unfolding collect
collect-IsClean parts [] h n = h
collect-IsClean parts (p ∷ ps) h n =
    collect-IsClean (push_part parts p) ps (push_part-IsClean parts p h n.0) n.1

All-reverse {ℓ} : {A : Type ℓ} (P : A → Type 0) (xs : List A) → All P xs → All P (reverse xs)
All-reverse P [] h = tt
All-reverse P (x ∷ xs) h =
    rw (reverse-cons x xs) (All-append P (reverse xs) (x ∷ []) (All-reverse P xs h.1) (h.0, tt))

-- Every part of a resolved path is clean.
pub components-IsClean : (path : Text) → All IsClean (components path)
unfolding components
components-IsClean path =
    All-reverse IsClean (collect [] (split path))
      (collect-IsClean [] (split path) tt (split-NoSlash path))

-- A clean part is pushed.
push_part-clean :
    (parts : List Text) (part : Text) → IsClean part → push_part parts part ≡ part ∷ parts
unfolding push_part
push_part-clean parts part h = ground (
  arith,
  text_eq_iff part [],
  text_eq_iff part dot,
  text_eq_iff part dot_dot,
  h.nonempty,
  h.not_dot,
  h.not_dot_dot,
)

collect-clean :
    (parts rest : List Text) → All IsClean rest → collect parts rest ≡ reverse rest ++ parts
unfolding collect
collect-clean parts [] h = refl
collect-clean parts (p ∷ ps) h =
    rw (push_part-clean parts p h.0, collect-clean (p ∷ parts) ps h.1, reverse-cons p ps)
      (sym (append_assoc (reverse ps) (p ∷ []) parts))

split-part : (p : Text) → NoSlash p → split p ≡ p ∷ []
unfolding split
split-part [] n = refl
split-part (c ∷ p) n = ground (arith, split-part p n.1, n.0)

split-append : (p s : Text) → NoSlash p → split (p ++ slash ∷ s) ≡ p ∷ split s
unfolding split
split-append [] s n = refl
split-append (c ∷ p) s n = ground (arith, split-append p s n.1, n.0)

split-join : (p : Text) (ps : List Text) → All IsClean (p ∷ ps) → split (join (p ∷ ps)) ≡ p ∷ ps
unfolding join
split-join p [] h = split-part p h.0.no_slash
split-join p (q ∷ ps) h =
    split-append p (join (q ∷ ps)) h.0.no_slash ∙ ap (◌∷◌ p) (split-join q ps h.1)

collect-empty_part : (parts rest : List Text) → collect parts ([] ∷ rest) ≡ collect parts rest
unfolding collect push_part text_eq
collect-empty_part parts rest = refl

split-slash : (s : Text) → split (slash ∷ s) ≡ [] ∷ split s
unfolding split
split-slash s = refl

-- What a normalized path resolves to is the parts that it was joined from.
pub components-join : (ps : List Text) → All IsClean ps → components (slash ∷ join ps) ≡ ps
unfolding components join
components-join [] h = unfold collect split push_part text_eq in refl
components-join (p ∷ ps) h =
    rw
      (
        split-slash (join (p ∷ ps)),
        collect-empty_part [] (split (join (p ∷ ps))),
        split-join p ps h,
        collect-clean [] (p ∷ ps) h,
        append-nil (reverse (p ∷ ps)),
      )
      (reverse-reverse (p ∷ ps))

starts_with-slash : (s : Text) → starts_with (slash ∷ s) (slash ∷ []) ≡ true
unfolding starts_with
starts_with-slash s = refl

pub normalize_absolute :
    (path : Text)
    → starts_with path (slash ∷ []) ≡ true
    → normalize_remote_path path ≡ ok (slash ∷ join (components path))
unfolding normalize_remote_path
normalize_absolute path h = rw h

-- A normalized path is absolute, and normalizing it again changes nothing.
pub normalize_remote_path_idem :
    (path normalized : Text)
    → normalize_remote_path path ≡ ok normalized
    → normalize_remote_path normalized ≡ ok normalized
normalize_remote_path_idem path normalized h = elim (Bool-cases (starts_with path (slash ∷ []))) [
  | inl e ↦ ground (
    arith,
    normalize_absolute path e,
    normalize_absolute (slash ∷ join (components path))
        (starts_with-slash (join (components path))),
    components-join (components path) (components-IsClean path),
  )
  | inr e ↦ unfold normalize_remote_path in ground arith
]
