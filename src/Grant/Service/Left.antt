-- ===== src/Grant/Service/Left.antt =====
-- The uses that are left of a grant, and what each operation on grants does to them.
use ssh_gateway.Prelude.{
  any, All, All-update, All-append, leb, ℕ, suc, Text, text_eq, text_eq_iff, Bool, true, Option,
  none, some, List, [], ◌∷◌, ◌++◌, ◌+◌, ◌-◌, ◌≤◌, ◌≡◌, ◌==◌, refl, arith, if◌then◌else◌, count,
  keep, update, Bool-cases, inl, inr, ==_iff, ◌&&◌,
}
use ssh_gateway.Errors.{Result, ok, err}
use ssh_gateway.Externals.{Externals}
use ssh_gateway.Approval.Rows.{ApprovalRow}
use ssh_gateway.Grant.Rows.{
  GrantStatus, active, exhausted, revoked, expired, GrantRow, Grants, is_active, has_uses,
  is_usable, status_after, use_once,
}
use ssh_gateway.Grant.Service.{
  clashes, GrantService, Grant, Required, revoke, expire_grants, insert_grant, new_grant, attempts,
  is_active_id,
}
use ssh_gateway.Grant.Service.Trace.{granted, taken}

abbrev uses_left : GrantStatus → Option ℕ → ℕ → ℕ
uses_left active (some m) used = m - used
uses_left _ _ used = 0

abbrev row_left : Text → GrantRow → ℕ
row_left id r = if text_eq r.id id then uses_left r.status r.max_uses r.used_count else 0

-- The uses that are left of a grant.
abbrev pub left : Text → Grants → ℕ
left id [] = 0
left id (r ∷ rows) = row_left id r + left id rows

abbrev pub IsLimited : Option ℕ → Type 0
IsLimited none = ⊥
IsLimited (some m) = Unit

-- The code only stores grants with a limit.
abbrev pub Limited : Grants → Type 0
Limited = All (λ r. IsLimited r.max_uses)

status_after-left :
    (s : GrantStatus) (m : Option ℕ) (used : ℕ)
    → IsLimited m
    → (is_active s && has_uses m used) ≡ true
    → suc (uses_left (status_after s m used) m (suc used)) ≤ uses_left s m used
status_after-left active (some m) used l h = ground arith
status_after-left exhausted (some m) used l h = cc
status_after-left revoked (some m) used l h = cc
status_after-left expired (some m) used l h = cc
status_after-left s none used l h = absurd l

use_once-left :
    (id other : Text) (now : ℕ) (r : GrantRow)
    → IsLimited r.max_uses
    → is_usable other now r ≡ true
    → row_left id (use_once r) + (if text_eq other id then 1 else 0) ≤ row_left id r
use_once-left id other now r l h = ground (
  arith,
  status_after-left r.status r.max_uses r.used_count l,
  text_eq_iff r.id other,
  text_eq_iff r.id id,
  text_eq_iff other id,
)

update_use-left :
    (id other : Text) (now : ℕ) (rows : Grants)
    → Limited rows
    → left id (update (is_usable other now) use_once rows)
        + (if text_eq other id then count (is_usable other now) rows else 0)
      ≤ left id rows
unfolding update
update_use-left id other now [] l = ground arith
update_use-left id other now (r ∷ rows) l = elim (Bool-cases (is_usable other now r)) [
  | inl e ↦
      rw e
        (ground (arith, use_once-left id other now r l.0 e, update_use-left id other now rows l.1))
  | inr e ↦ rw e (ground (arith, update_use-left id other now rows l.1))
]

-- A change that adds no use to a row.
update-left :
    (id : Text) (p : GrantRow → Bool) (f : GrantRow → GrantRow) (rows : Grants)
    → ((r : GrantRow) → row_left id (f r) ≤ row_left id r)
    → left id (update p f rows) ≤ left id rows
unfolding update
update-left id p f [] h = omega arith
update-left id p f (r ∷ rows) h = ground (arith, h r, update-left id p f rows h)

pub keep-left :
    (id : Text) (p : GrantRow → Bool) (rows : Grants) → left id (keep p rows) ≤ left id rows
keep-left id p [] = omega arith
keep-left id p (r ∷ rows) = ground (arith, keep-left id p rows)

append-left :
    (id : Text) (rows : Grants) (r : GrantRow)
    → left id (rows ++ r ∷ []) ≡ left id rows + row_left id r
append-left id [] r = omega arith
append-left id (s ∷ rows) r = omega (arith, append-left id rows r)

pub expire_grants-left :
    (id : Text) (now : ℕ) (rows : Grants) → left id (expire_grants now rows) ≤ left id rows
unfolding expire_grants
expire_grants-left id now rows =
    update-left id (λ r. is_active r.status && leb r.expires_at now) _ rows (λ r. ground arith)

pub expire_grants-Limited :
    (now : ℕ) (rows : Grants) → Limited rows → Limited (expire_grants now rows)
unfolding expire_grants
expire_grants-Limited now rows l =
    All-update (λ r. IsLimited r.max_uses) (λ r. is_active r.status && leb r.expires_at now) _ rows
      (λ r h. h) l

update_use-Limited :
    (other : Text) (now : ℕ) (rows : Grants)
    → Limited rows
    → Limited (update (is_usable other now) use_once rows)
update_use-Limited other now rows l =
    All-update (λ r. IsLimited r.max_uses) (is_usable other now) use_once rows (λ r h. h) l

pub attempts-left :
    (id : Text) (clock : ℕ → ℕ) (i : ℕ) (selected rows : Grants)
    → Limited rows
    → (taken id (attempts clock i selected rows).0 + left id (attempts clock i selected rows).1
        ≤ left id rows)
      × Limited (attempts clock i selected rows).1
unfolding attempts
attempts-left id clock i [] rows l = (omega arith, l)
attempts-left id clock i (r ∷ selected) rows l =
    let used = update (is_usable r.id (clock i)) use_once rows in
    let kept = update_use-Limited r.id (clock i) rows l in
    let less = update_use-left id r.id (clock i) rows l in
    let rest = attempts-left id clock (suc i) selected used kept in
    elim (Bool-cases (count (is_usable r.id (clock i)) rows == 1)) [
      | inl e ↦
          rw e (ground (arith, less, (==_iff (count (is_usable r.id (clock i)) rows) 1).0 e), kept)
      | inr e ↦ rw e (ground (arith, less, rest.0), rest.1)
    ]

pub insert_grant-left :
    (x : Externals) (id other : Text) (rows : Grants) (made : Result GrantRow)
    → ((r : GrantRow) → made ≡ ok r → (r.id ≡ other) × IsLimited r.max_uses)
    → Limited rows
    → (left id (insert_grant x rows made).1
        ≤ left id rows + granted id other (insert_grant x rows made).0)
      × Limited (insert_grant x rows made).1
unfolding insert_grant
insert_grant-left x id other rows (err e) h l = (omega arith, l)
insert_grant-left x id other rows (ok r) h l = elim (Bool-cases (any (clashes r) rows)) [
  | inl e ↦ rw e (omega arith, l)
  | inr e ↦ rw e (
    ground (arith, append-left id rows r, (h r refl).0),
    All-append (λ r. IsLimited r.max_uses) rows (r ∷ []) l ((h r refl).1, tt),
  )
]

pub new_grant-IsLimited :
    (x : Externals) (self : GrantService) (g : Grant) (required : Required) (expected : Option Text)
    (now : ℕ) (id : Text) (approvals : List ApprovalRow) (r : GrantRow)
    → new_grant x self g required expected now id approvals ≡ ok r
    → (r.id ≡ id) × IsLimited r.max_uses
unfolding new_grant
new_grant-IsLimited x self g required expected now id approvals r h = ground arith

pub revoke-left :
    (id other : Text) (rows : Grants)
    → Limited rows
    → (left id (revoke other rows).1 ≤ left id rows) × Limited (revoke other rows).1
unfolding revoke
revoke-left id other rows l =
    let end = λ (r : GrantRow). record r { status = revoked } in
    let fewer = update-left id (is_active_id other) end rows (λ r. ground arith) in
    let limits =
      All-update (λ r. IsLimited r.max_uses) (is_active_id other) end rows (λ r h. h) l in
    elim (Bool-cases (count (is_active_id other) rows == 1)) [
      | inl e ↦ rw e (fewer, limits)
      | inr e ↦ rw e (fewer, limits)
    ]
