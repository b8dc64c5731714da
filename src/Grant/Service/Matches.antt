-- ===== src/Grant/Service/Matches.antt =====
-- What `consume` may return.
use ssh_gateway.Prelude.{
  keep-Any, ℕ, suc, Text, text_eq_iff, option_eq_iff, true, Option, none, some, [], ◌∷◌, ◌≡◌, ◌<◌,
  ◌⊎◌, inl, inr, refl, arith, Any, Any-map, Bool-cases, count, keep, update, ◌==◌,
}
use ssh_gateway.Grant.Rows.{
  active, GrantRow, Grants, is_match, is_usable, use_once, insert_ordered, ordered, covers_task,
  precedes,
}
use ssh_gateway.Grant.Service.{GrantService, consume, attempts, expire_grants}

-- The row serves the request at that moment.
pub record Serves (self : GrantService) (profile rule_id : Text) (task : Option Text) (now : ℕ)
    (r : GrantRow) : Type 0 where
  pub profile_is : r.profile ≡ profile
  pub rule_is : r.rule_id ≡ rule_id
  pub namespace_is : r.authorization_namespace ≡ self.namespace
  pub active_is : r.status ≡ active
  pub live : now < r.expires_at
  pub task_is : (r.task_id ≡ none) ⊎ (r.task_id ≡ task)

covers_task-is : (t task : Option Text) → covers_task t task ≡ true → (t ≡ none) ⊎ (t ≡ task)
covers_task-is none task h = inl refl
covers_task-is (some t) task h = inr ((option_eq_iff (some t) task).0 h)

is_match-Serves :
    (self : GrantService) (profile rule_id : Text) (task : Option Text) (now : ℕ) (r : GrantRow)
    → is_match self.namespace profile rule_id task now r ≡ true
    → Serves self profile rule_id task now r
is_match-Serves self profile rule_id task now r h = record {
  profile_is = ground (arith, text_eq_iff r.profile profile);
  rule_is = ground (arith, text_eq_iff r.rule_id rule_id);
  namespace_is = ground (arith, option_eq_iff r.authorization_namespace self.namespace);
  active_is = ground arith;
  live = ground arith;
  task_is = covers_task-is r.task_id task (ground arith);
}

-- The loop returns the id of a row that was selected.
attempts-selected :
    (clock : ℕ → ℕ) (i : ℕ) (selected rows : Grants) {id : Text}
    → (attempts clock i selected rows).0 ≡ some id
    → Any (λ r. r.id ≡ id) selected
unfolding attempts
attempts-selected clock i [] rows h = absurd (cc)
attempts-selected clock i (r ∷ selected) rows {id} h =
    let used = update (is_usable r.id (clock i)) use_once rows in
    elim (Bool-cases (count (is_usable r.id (clock i)) rows == 1)) [
      | inl e ↦ inl (ground arith)
      | inr e ↦ inr (attempts-selected clock (suc i) selected used {id = id} (rw e at h))
    ]

insert_ordered-Any :
    (P : GrantRow → Type 0) (r : GrantRow) (rows : Grants)
    → Any P (insert_ordered r rows)
    → Any P (r ∷ rows)
unfolding insert_ordered
insert_ordered-Any P r [] h = h
insert_ordered-Any P r (s ∷ rows) h = elim (Bool-cases (precedes r s)) [
  | inl e ↦ rw e at h
  | inr e ↦
      let m : Any P (s ∷ insert_ordered r rows) = rw e at h in
      elim m [
        | inl here ↦ inr (inl here)
        | inr there ↦ elim (insert_ordered-Any P r rows there) [
          | inl first ↦ inl first
          | inr later ↦ inr (inr later)
        ]
      ]
]

ordered-Any : (P : GrantRow → Type 0) (rows : Grants) → Any P (ordered rows) → Any P rows
unfolding ordered
ordered-Any P [] h = h
ordered-Any P (r ∷ rows) h = elim (insert_ordered-Any P r (ordered rows) h) [
  | inl first ↦ inl first
  | inr later ↦ inr (ordered-Any P rows later)
]

-- A consumption only returns the id of a row of the table behind the expiry whose profile and rule
-- are the requested ones, whose namespace is the service's, which is active and not expired, and
-- whose task is the request's if it has one.
pub consume-Serves :
    (self : GrantService) (profile rule_id : Text) (task : Option Text) (t0 t1 : ℕ) (clock : ℕ → ℕ)
    (rows : Grants) (id : Text)
    → (consume self profile rule_id task t0 t1 clock rows).0 ≡ some id
    → Any (λ r. (r.id ≡ id) × Serves self profile rule_id task t1 r) (expire_grants t0 rows)
unfolding consume
consume-Serves self profile rule_id task t0 t1 clock rows id h =
    let p = is_match self.namespace profile rule_id task t1 in
    let selected = keep p (expire_grants t0 rows) in
    let found = attempts-selected clock 0 (ordered selected) (expire_grants t0 rows) {id = id} h in
    Any-map _ _ (expire_grants t0 rows)
      (λ r m. (m.0, is_match-Serves self profile rule_id task t1 r m.1))
      (keep-Any (λ r. r.id ≡ id) p (expire_grants t0 rows)
        (ordered-Any (λ r. r.id ≡ id) selected found))
