-- ===== src/Prelude/Lists.antt =====
-- Lists measured by native numbers, and predicates on their elements that compute.
use Prim.Native.Nat.{ℕ, zero, suc, ◌+◌}
use mathlib.Core.Path.{◌≡◌, subst}
use mathlib.Core.Logic.{◌⊎◌, inl, inr}
use mathlib.Core.Bool.{Bool, true, false, ◌||◌}
use mathlib.Core.List.{List, [], ◌∷◌, ◌++◌}
use mathlib.Core.Option.{Option, none, some}
use native.Mathlib.Omega.{arith}
use ssh_gateway.Prelude.Tests.{if◌then◌else◌, Bool-cases}

module _ {ℓ} {A : Type ℓ} where
  abbrev pub length : List A → ℕ
  length [] = 0
  length (x ∷ xs) = suc (length xs)

  abbrev pub get_elem? : List A → ℕ → Option A
  get_elem? [] i = none
  get_elem? (x ∷ xs) zero = some x
  get_elem? (x ∷ xs) (suc i) = get_elem? xs i

  -- `iter().any(p)`
  abbrev pub any : (A → Bool) → List A → Bool
  any p [] = false
  any p (x ∷ xs) = p x || any p xs

  -- `iter().find(p)`
  abbrev pub find? : (A → Bool) → List A → Option A
  find? p [] = none
  find? p (x ∷ xs) = if p x then some x else find? p xs

  -- `retain(p)`, and the rows that a WHERE clause selects
  abbrev pub keep : (A → Bool) → List A → List A
  keep p [] = []
  keep p (x ∷ xs) = if p x then x ∷ keep p xs else keep p xs

  abbrev pub count : (A → Bool) → List A → ℕ
  count p [] = 0
  count p (x ∷ xs) = if p x then suc (count p xs) else count p xs

  -- `UPDATE … SET … WHERE …`; the number of changed rows is `count`.
  unfoldable pub update : (A → Bool) → (A → A) → List A → List A
  update p f [] = []
  update p f (x ∷ xs) = (if p x then f x else x) ∷ update p f xs

  -- `is_empty()`
  abbrev pub is_empty : List A → Bool
  is_empty [] = true
  is_empty (x ∷ xs) = false

  abbrev pub All : (A → Type 0) → List A → Type 0
  All P [] = Unit
  All P (x ∷ xs) = P x × All P xs

  abbrev pub Any : (A → Type 0) → List A → Type 0
  Any P [] = ⊥
  Any P (x ∷ xs) = P x ⊎ Any P xs

  pub length-append : (xs ys : List A) → length (xs ++ ys) ≡ length xs + length ys
  length-append [] ys = omega arith
  length-append (x ∷ xs) ys = omega (arith, length-append xs ys)

  -- The elements that pass are a witness of the test.
  pub any-Any : (p : A → Bool) (xs : List A) → any p xs ≡ true → Any (λ x. p x ≡ true) xs
  any-Any p [] h = ground arith
  any-Any p (x ∷ xs) h = ground (arith, any-Any p xs)

  pub Any-any : (p : A → Bool) (xs : List A) → Any (λ x. p x ≡ true) xs → any p xs ≡ true
  Any-any p [] h = elim h [ ]
  Any-any p (x ∷ xs) (inl h) = ground arith
  Any-any p (x ∷ xs) (inr h) = ground (arith, Any-any p xs h)

  pub Any-map : (P Q : A → Type 0) (xs : List A) → ((x : A) → P x → Q x) → Any P xs → Any Q xs
  Any-map P Q [] f h = elim h [ ]
  Any-map P Q (x ∷ xs) f (inl h) = inl (f x h)
  Any-map P Q (x ∷ xs) f (inr h) = inr (Any-map P Q xs f h)

  pub All-map : (P Q : A → Type 0) (xs : List A) → ((x : A) → P x → Q x) → All P xs → All Q xs
  All-map P Q [] f h = tt
  All-map P Q (x ∷ xs) f h = (f x h.0, All-map P Q xs f h.1)

  -- What `find` returns passes the test.
  pub find?-eq_some : (p : A → Bool) (xs : List A) {x : A} → find? p xs ≡ some x → p x ≡ true
  find?-eq_some p [] h = ground arith
  find?-eq_some p (y ∷ ys) {x} h = ground (arith, find?-eq_some p ys {x = x})

  pub All-append :
      (P : A → Type 0) (front back : List A) → All P front → All P back → All P (front ++ back)
  All-append P (x ∷ front) back all rest = (all.0, All-append P front back all.1 rest)
  All-append P [] back all rest = rest

  pub All-keep : (P : A → Type 0) (p : A → Bool) (xs : List A) → All P xs → All P (keep p xs)
  All-keep P p [] h = tt
  All-keep P p (x ∷ xs) h = elim (Bool-cases (p x)) [
    | inl e ↦ rw e (h.0, All-keep P p xs h.1)
    | inr e ↦ rw e (All-keep P p xs h.1)
  ]

  pub All-update :
      (P : A → Type 0) (p : A → Bool) (f : A → A) (xs : List A)
      → ((x : A) → P x → P (f x))
      → All P xs
      → All P (update p f xs)
  unfolding update
  All-update P p f [] h all = tt
  All-update P p f (x ∷ xs) h all = elim (Bool-cases (p x)) [
    | inl e ↦ rw e (h x all.0, All-update P p f xs h all.1)
    | inr e ↦ rw e (all.0, All-update P p f xs h all.1)
  ]

  -- The same, where the change meets the test.
  pub All-update_where :
      (P : A → Type 0) (p : A → Bool) (f : A → A) (xs : List A)
      → ((x : A) → p x ≡ true → P x → P (f x))
      → All P xs
      → All P (update p f xs)
  unfolding update
  All-update_where P p f [] h all = tt
  All-update_where P p f (x ∷ xs) h all = elim (Bool-cases (p x)) [
    | inl e ↦ rw e (h x e all.0, All-update_where P p f xs h all.1)
    | inr e ↦ rw e (all.0, All-update_where P p f xs h all.1)
  ]

  -- A kept element is an element that passes the test.
  pub keep-Any :
      (P : A → Type 0) (p : A → Bool) (xs : List A)
      → Any P (keep p xs)
      → Any (λ x. P x × (p x ≡ true)) xs
  keep-Any P p [] h = h
  keep-Any P p (x ∷ xs) h = elim (Bool-cases (p x)) [
    | inl e ↦
        let m : Any P (x ∷ keep p xs) = rw e at h in
        elim m [ inl here ↦ inl (here, e) | inr there ↦ inr (keep-Any P p xs there) ]
    | inr e ↦ inr (keep-Any P p xs (rw e at h))
  ]

module _ {A : Type 0} where
  -- What `find` returns is an element of the list.
  pub find?-Any : (p : A → Bool) (xs : List A) {x : A} → find? p xs ≡ some x → Any (λ y. y ≡ x) xs
  find?-Any p [] h = ground arith
  find?-Any p (y ∷ ys) {x} h = ground (arith, find?-Any p ys {x = x})

  pub All-lookup : (P : A → Type 0) (xs : List A) {x : A} → All P xs → Any (λ y. y ≡ x) xs → P x
  All-lookup P [] h m = absurd m
  All-lookup P (y ∷ ys) h (inl e) = subst P e h.0
  All-lookup P (y ∷ ys) h (inr m) = All-lookup P ys h.1 m
