-- ===== src/Grant/Rows.antt =====
-- src/grant.rs: the columns of the approval_grants table, and what its statements test.
use ssh_gateway.Prelude.{
  ℕ, suc, Text, text_eq, option_eq, Bool, true, false, Option, none, some, List, [], ◌∷◌, ◌==◌, ltb,
  leb, ◌&&◌, ◌||◌, if◌then◌else◌,
}

pub data GrantStatus : Type 0 where
  active exhausted revoked expired : GrantStatus

-- `scope_json` is made of the scope's kind, the profile and the rule, and no statement tests it.
pub record GrantRow : Type 0 where
  pub id : Text
  pub profile : Text
  pub rule_id : Text
  pub task_id : Option Text
  pub scope : Text
  pub created_at : ℕ
  pub expires_at : ℕ
  pub max_uses : Option ℕ
  pub used_count : ℕ
  pub status : GrantStatus
  pub created_from_approval_id : Text
  pub created_by : Text
  pub authorization_namespace : Option Text

abbrev pub Grants : Type 0
Grants = List GrantRow

abbrev pub is_active : GrantStatus → Bool
is_active GrantStatus.active = true
is_active _ = false

-- `(max_uses IS NULL OR used_count<max_uses)`
abbrev pub has_uses : Option ℕ → ℕ → Bool
has_uses none used = true
has_uses (some m) used = ltb used m

-- `(task_id IS NULL OR task_id=?)`
abbrev pub covers_task : Option Text → Option Text → Bool
covers_task none task = true
covers_task (some t) task = option_eq (some t) task

-- The WHERE clause of the SELECT in `consume`.
abbrev pub is_match : Option Text → Text → Text → Option Text → ℕ → GrantRow → Bool
is_match namespace profile rule_id task_id now r =
    text_eq r.profile profile
    && (text_eq r.rule_id rule_id
        && (option_eq r.authorization_namespace namespace
            && (is_active r.status
                && (ltb now r.expires_at
                    && (covers_task r.task_id task_id && has_uses r.max_uses r.used_count)))))

-- The WHERE clause of the UPDATE in `consume`.
abbrev pub is_usable : Text → ℕ → GrantRow → Bool
is_usable id now r =
    text_eq r.id id
    && (is_active r.status && (ltb now r.expires_at && has_uses r.max_uses r.used_count))

-- `CASE WHEN max_uses IS NOT NULL AND used_count+1>=max_uses THEN 'exhausted' ELSE status END`
abbrev pub status_after : GrantStatus → Option ℕ → ℕ → GrantStatus
status_after s none used = s
status_after s (some m) used = if leb m (suc used) then GrantStatus.exhausted else s

abbrev pub use_once : GrantRow → GrantRow
use_once r = record r {
  used_count = suc r.used_count;
  status = status_after r.status r.max_uses r.used_count;
}

abbrev rank : Option Text → ℕ
rank none = 1
rank (some t) = 0

-- `ORDER BY CASE WHEN task_id IS NULL THEN 1 ELSE 0 END,created_at DESC`
abbrev pub precedes : GrantRow → GrantRow → Bool
precedes r s =
    ltb (rank r.task_id) (rank s.task_id)
    || (rank r.task_id == rank s.task_id && leb s.created_at r.created_at)

unfoldable pub insert_ordered : GrantRow → Grants → Grants
insert_ordered r [] = r ∷ []
insert_ordered r (s ∷ rows) =
    let rest = insert_ordered r rows in if precedes r s then r ∷ s ∷ rows else s ∷ rest

unfoldable pub ordered : Grants → Grants
unfolding insert_ordered
ordered [] = []
ordered (r ∷ rows) = insert_ordered r (ordered rows)
