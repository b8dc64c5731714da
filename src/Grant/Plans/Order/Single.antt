-- ===== src/Grant/Plans/Order/Single.antt =====
-- Single plans: the newest of a table, and the shape of a plan that is claimed or advanced.
use ssh_gateway.Prelude.{
  is_none, ℕ, suc, Text, Bool, true, false, Option, none, some, List, [], ◌∷◌, ◌<◌, ◌≡◌, refl,
  arith, Any, Bool-cases, Option-cases, inl, inr, is_empty, length, ltb, subst,
}
use ssh_gateway.Errors.{ok}
use ssh_gateway.Grant.Service.{require}
use ssh_gateway.Grant.Plans.{
  PlanStatus, pending, approved, executing, completed, failed, rejected, expired, PlanRow, Plans,
  is_executing, status_after, newest, newer, is_started, claims_index,
}
use ssh_gateway.Grant.Plans.Order

pub newest-Any : (rows : Plans) {r : PlanRow} → newest rows ≡ some r → Any (λ s. s ≡ r) rows
unfolding newest
newest-Any [] h = absurd (cc)
newest-Any (s ∷ rows) {r} h = elim (Option-cases (newest rows)) [
  | inl e ↦ let m : newer s none ≡ some r = rw e at h in inl (ground arith)
  | inr (t, e) ↦ elim (Bool-cases (ltb s.created_at t.created_at)) [
    | inl f ↦ inr (newest-Any rows (ground (arith, e, f)))
    | inr f ↦ let m : newer s (some t) ≡ some r = rw e at h in inl (ground (arith, f))
  ]
]

-- The test of the element that is found.
pub tested :
    (q : PlanRow → Bool) (rows : Plans) {r : PlanRow}
    → Any (λ s. (s ≡ r) × (q s ≡ true)) rows
    → q r ≡ true
tested q [] m = absurd m
tested q (s ∷ rows) (inl (e, t)) = subst (λ (z : PlanRow). q z ≡ true) e t
tested q (s ∷ rows) (inr m) = tested q rows m

pub nonempty : {A : Type 0} (xs : List A) → is_empty xs ≡ false → 0 < length xs
nonempty [] h = cc
nonempty (a ∷ xs) h = omega arith

pub require-true : (b : Bool) (m : Text) → require b m ≡ ok tt → b ≡ true
require-true true m h = refl
require-true false m h = cc

pub started :
    (s : PlanStatus) (next : ℕ) (claimed lease : Option ℕ) (n : ℕ)
    → is_started s ≡ true
    → is_none claimed ≡ true
    → Order.Shape s next claimed lease n
    → next < n
started approved next claimed lease n e c h = h.0
started executing next none lease n e c h = absurd (cc)
started executing next (some i) lease n e c h = absurd (cc)
started pending next claimed lease n e c h = cc
started completed next claimed lease n e c h = cc
started failed next claimed lease n e c h = cc
started rejected next claimed lease n e c h = cc
started expired next claimed lease n e c h = cc

pub advanced :
    (s : PlanStatus) (next : ℕ) (claimed lease : Option ℕ) (n i : ℕ)
    → is_executing s ≡ true
    → claims_index claimed i ≡ true
    → Order.Shape s next claimed lease n
    → Order.Shape (status_after i n) (suc next) none none n
advanced executing next claimed lease n i e c h = ground arith
advanced pending next claimed lease n i e c h = cc
advanced approved next claimed lease n i e c h = cc
advanced completed next claimed lease n i e c h = cc
advanced failed next claimed lease n i e c h = cc
advanced rejected next claimed lease n i e c h = cc
advanced expired next claimed lease n i e c h = cc
