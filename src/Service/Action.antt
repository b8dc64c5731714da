-- ===== src/Service/Action.antt =====
-- Fallible code that changes a state. The state comes back after an error too.
use ssh_gateway.Prelude.{◌≡◌, inl, inr}
use ssh_gateway.Errors.{ArrtError, Result, ok, err, Result-cases}

abbrev pub Action : Type 0 → Type 0 → Type 0
Action S A = S → Result A × S

abbrev pub and_then {ℓ} :
    {S A : Type 0} {B : Type ℓ} → Result A × S → (A → S → B) → (ArrtError → S → B) → B
and_then (ok a, s) next fail = next a s
and_then (err e, s) next fail = fail e s

infixl 5 ◌>>=◌ ◌>>◌
abbrev pub ◌>>=◌ : {S A B : Type 0} → Action S A → (A → Action S B) → Action S B
◌>>=◌ m next s = and_then (m s) next (λ e t. (err e, t))

abbrev pub ◌>>◌ : {S B : Type 0} → Action S (Unit {0}) → Action S B → Action S B
m >> next = m >>= λ _. next

module _ {S : Type 0} {A : Type 0} where
  abbrev pub pure : A → Action S A
  pure a s = (ok a, s)

  abbrev pub fail : ArrtError → Action S A
  fail e s = (err e, s)

  -- `?` on a value
  abbrev pub lift : Result A → Action S A
  lift r s = (r, s)

  -- The error as a value, where the code goes on behind it.
  abbrev pub attempt : Action S A → Action S (Result A)
  attempt m s = (ok (m s).0, (m s).1)

  abbrev pub gets : (S → A) → Action S A
  gets f s = (ok (f s), s)

abbrev pub modify : {S : Type 0} → (S → S) → Action S (Unit {0})
modify f s = (ok tt, f s)

-- A chain that succeeds has gone through its first action.
pub >>=-ran :
    {S A B : Type 0} (m : Action S A) (next : A → Action S B) (s : S) {b : B}
    → ((m >>= next) s).0 ≡ ok b
    → (a : A) × ((m s).0 ≡ ok a) × ((m >>= next) s ≡ next a (m s).1)
>>=-ran m next s h = elim (Result-cases (m s).0) [
  | inl (a, e) ↦ (a, e, rw e)
  | inr (why, e) ↦ absurd (cc (rw e at h))
]
