-- ===== src/Policy/Paths/Confined.antt =====
-- `require_path` confines a path to the allowed roots, whatever `.`, `..` and `//` it is spelt with.
use ssh_gateway.Prelude.{
  ℕ, Text, text_eq, text_eq→eq, starts_with, Bool, true, false, List, [], ◌∷◌, ◌++◌, ◌||◌, ◌≡◌, ◌≢◌,
  ◌↔◌, ◌⊎◌, refl, arith, All, Any, any-Any, Any-any, Any-map, Bool-cases, inl, inr, ap, ◌∙◌,
  if◌then◌else◌, is_empty,
}
use mathlib.Core.List.{append_assoc}
use ssh_gateway.Errors.{ok, ◌>>=◌}
use ssh_gateway.Config.{AgentPolicyConfig}
use ssh_gateway.Policy.Paths.{
  slash, join, components, normalize_remote_path, covers, allowed_roots, require_path, within_roots,
  outside,
}
use ssh_gateway.Policy.Paths.Components.{NoSlash, IsClean, components-IsClean, normalize_absolute}

-- The first list of parts begins the second.
abbrev pub Prefix : List Text → List Text → Type 0
Prefix [] ps = Unit {0}
Prefix (r ∷ rs) [] = ⊥
Prefix (r ∷ rs) (p ∷ ps) = (r ≡ p) × Prefix rs ps

abbrev pub IsAbsolute : Text → Type 0
IsAbsolute path = starts_with path (slash ∷ []) ≡ true

-- The parts, each behind a slash, with a last slash.
slashed : List Text → Text
slashed [] = slash ∷ []
slashed (p ∷ ps) = slash ∷ p ++ slashed ps

slashed_tail : List Text → Text
slashed_tail [] = []
slashed_tail (p ∷ ps) = p ++ slashed ps

slashed-eq : (ps : List Text) → slashed ps ≡ slash ∷ slashed_tail ps
unfolding slashed slashed_tail
slashed-eq [] = refl
slashed-eq (p ∷ ps) = refl

-- Parts without slashes are told apart by the slash behind them.
starts_with-part :
    (x y s t : Text)
    → NoSlash x
    → NoSlash y
    → (starts_with (x ++ slash ∷ s) (y ++ slash ∷ t) ≡ true) ↔ ((y ≡ x) × (starts_with s t ≡ true))
unfolding starts_with
starts_with-part [] [] s t hx hy = ground arith
starts_with-part [] (c ∷ y) s t hx hy = ground (arith, hy.0)
starts_with-part (c ∷ x) [] s t hx hy = ground (arith, hx.0)
starts_with-part (c ∷ x) (d ∷ y) s t hx hy = ground (arith, starts_with-part x y s t hx.1 hy.1)

starts_with-slashed :
    (ps rs : List Text)
    → All IsClean ps
    → All IsClean rs
    → (starts_with (slashed ps) (slashed rs) ≡ true) ↔ Prefix rs ps
unfolding slashed starts_with
starts_with-slashed ps [] hp hr = (λ h. tt, λ h. rw (slashed-eq ps))
starts_with-slashed [] ([] ∷ rs) hp hr = absurd (hr.0.nonempty refl)
starts_with-slashed [] ((c ∷ r) ∷ rs) hp hr = ground arith
starts_with-slashed (p ∷ ps) (r ∷ rs) hp hr =
    let parts =
      starts_with-part p r (slashed_tail ps) (slashed_tail rs) hp.0.no_slash hr.0.no_slash in
    let rest = rw (slashed-eq ps, slashed-eq rs) at (starts_with-slashed ps rs hp.1 hr.1) in
    rw (slashed-eq ps, slashed-eq rs)
      (λ h. ((parts.0 h).0, rest.0 (parts.0 h).1), λ h. parts.1 (h.0, rest.1 h.1))

-- A text with a last byte begins with another one: the texts are equal, or the first goes on.
starts_with-snoc :
    (s t : Text) (c : ℕ)
    → (text_eq s t || starts_with s (t ++ c ∷ [])) ≡ starts_with (s ++ c ∷ []) (t ++ c ∷ [])
unfolding starts_with text_eq
starts_with-snoc [] [] c = ground arith
starts_with-snoc [] (b ∷ []) c = ground arith
starts_with-snoc [] (b ∷ d ∷ t) c = ground arith
starts_with-snoc (a ∷ s) [] c = ground arith
starts_with-snoc (a ∷ s) (b ∷ t) c = ground (arith, starts_with-snoc s t c)

slashed-join : (p : Text) (ps : List Text) → slash ∷ join (p ∷ ps) ++ slash ∷ [] ≡ slashed (p ∷ ps)
unfolding slashed join
slashed-join p [] = refl
slashed-join p (q ∷ ps) =
    ap (◌∷◌ slash)
      (append_assoc p (slash ∷ join (q ∷ ps)) (slash ∷ []) ∙ ap (◌++◌ p) (slashed-join q ps))

join-nonempty : (p : Text) (ps : List Text) → IsClean p → join (p ∷ ps) ≢ []
unfolding join
join-nonempty [] ps h = absurd (h.nonempty refl)
join-nonempty (c ∷ p) [] h = λ e. cc
join-nonempty (c ∷ p) (q ∷ ps) h = λ e. cc

abbrev normal : List Text → Text
normal ps = slash ∷ join ps

not_root : (r : Text) (rs : List Text) → IsClean r → text_eq (normal (r ∷ rs)) (slash ∷ []) ≡ false
not_root r rs h = elim (Bool-cases (text_eq (normal (r ∷ rs)) (slash ∷ []))) [
  | inl e ↦ absurd (join-nonempty r rs h (cc (text_eq→eq (normal (r ∷ rs)) (slash ∷ []) e)))
  | inr e ↦ e
]

covers-slashed :
    (ps : List Text) (r : Text) (rs : List Text)
    → IsClean r
    → covers (normal ps) (ok (normal (r ∷ rs)))
      ≡ starts_with (normal ps ++ slash ∷ []) (slashed (r ∷ rs))
unfolding covers
covers-slashed ps r rs h =
    rw (not_root r rs h, starts_with-snoc (normal ps) (normal (r ∷ rs)) slash)
      (ap (starts_with (normal ps ++ slash ∷ [])) (slashed-join r rs))

root_is_shorter :
    (r : Text) (rs : List Text)
    → IsClean r
    → starts_with (normal [] ++ slash ∷ []) (slashed (r ∷ rs)) ≡ false
unfolding slashed starts_with join
root_is_shorter [] rs h = absurd (h.nonempty refl)
root_is_shorter (c ∷ r) rs h = ground (arith, h.no_slash.0)

-- A root that is no `/` covers exactly the paths that its parts begin.
covers-cons :
    (ps : List Text) (r : Text) (rs : List Text)
    → All IsClean ps
    → All IsClean (r ∷ rs)
    → (covers (normal ps) (ok (normal (r ∷ rs))) ≡ true) ↔ Prefix (r ∷ rs) ps
covers-cons [] r rs hp hr =
    rw (covers-slashed [] r rs hr.0, root_is_shorter r rs hr.0) (λ h. cc, λ h. absurd h)
covers-cons (p ∷ ps) r rs hp hr =
    rw (covers-slashed (p ∷ ps) r rs hr.0, slashed-join p ps)
      (starts_with-slashed (p ∷ ps) (r ∷ rs) hp hr)

covers-normal :
    (ps rs : List Text)
    → All IsClean ps
    → All IsClean rs
    → (covers (normal ps) (ok (normal rs)) ≡ true) ↔ Prefix rs ps
covers-normal ps [] hp hr = (λ h. tt, λ h. unfold covers join text_eq in refl)
covers-normal ps (r ∷ rs) hp hr = covers-cons ps r rs hp hr

-- The path lies under the root: both are absolute, and the root's parts begin the path's.
abbrev pub Under : Text → Text → Type 0
Under path root = IsAbsolute root × Prefix (components root) (components path)

covers-Under :
    (path root : Text)
    → (covers (normal (components path)) (normalize_remote_path root) ≡ true) ↔ Under path root
covers-Under path root = elim (Bool-cases (starts_with root (slash ∷ []))) [
  | inl e ↦
      let law =
        covers-normal (components path) (components root) (components-IsClean path)
          (components-IsClean root) in
      rw (normalize_absolute root e) (λ h. (e, law.0 h), λ h. law.1 h.1)
  | inr e ↦ unfold normalize_remote_path covers in ground arith
]

within_roots-Under :
    (roots : List Text) (path : Text) (write : Bool)
    → (within_roots roots write path (normal (components path)) ≡ ok tt) ↔ Any (Under path) roots
unfolding within_roots outside
within_roots-Under roots path write = (
  λ h.
      Any-map (Covers) (Under path) roots (λ r. (covers-Under path r).0)
        (any-Any covers_root roots (ground arith)),
  λ h. rw (
      Any-any covers_root roots
        (Any-map (Under path) Covers roots (λ r. (covers-Under path r).1) h)),
)
  where
    covers_root : Text → Bool
    covers_root root = covers (normal (components path)) (normalize_remote_path root)

    Covers : Text → Type 0
    Covers root = covers_root root ≡ true

roots-confine :
    (roots : List Text) (path : Text) (write : Bool)
    → ((if is_empty roots
          then ok tt
          else normalize_remote_path path >>= within_roots roots write path)
        ≡ ok tt)
      ↔ ((roots ≡ []) ⊎ (IsAbsolute path × Any (Under path) roots))
roots-confine [] path write = (λ h. inl refl, λ h. refl)
roots-confine (r ∷ rs) path write = elim (Bool-cases (starts_with path (slash ∷ []))) [
  | inl e ↦
      let law = within_roots-Under (r ∷ rs) path write in
      rw (normalize_absolute path e)
        (λ h. inr (e, law.0 h), elim [ inl h ↦ cc | inr h ↦ law.1 h.1 ])
  | inr e ↦ unfold normalize_remote_path in rw e (λ h. cc, elim [ inl h ↦ cc | inr h ↦ cc ])
]

-- With roots configured, a path is accepted exactly if it is absolute and lies under one of them,
-- both spelt in any way. With none configured every path is accepted.
pub require_path-confines :
    (policy : AgentPolicyConfig) (path : Text) (write : Bool)
    → (require_path policy path write ≡ ok tt) ↔ (
        (allowed_roots policy write ≡ [])
        ⊎ (IsAbsolute path × Any (Under path) (allowed_roots policy write)))
unfolding require_path
require_path-confines policy path write = roots-confine (allowed_roots policy write) path write
