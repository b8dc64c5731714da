-- ===== src/Session/Tables.antt =====
-- A hash map from strings, as the list of its entries.
use ssh_gateway.Prelude.{
  Text, text_eq, text_eq_refl, true, false, Option, none, some, List, [], ◌∷◌, ◌≡◌, refl, arith,
  if◌then◌else◌, All, Bool-cases, inl, inr,
}

module _ {V : Type 0} where
  abbrev pub get : Text → List (Text × V) → Option V
  get key [] = none
  get key ((other, value) ∷ entries) = if text_eq other key then some value else get key entries

  abbrev pub remove : Text → List (Text × V) → List (Text × V)
  remove key [] = []
  remove key ((other, value) ∷ entries) =
      if text_eq other key then remove key entries else (other, value) ∷ remove key entries

  -- `get_mut` and a change of the value behind it
  abbrev pub modify : Text → (V → V) → List (Text × V) → List (Text × V)
  modify key f [] = []
  modify key f ((other, value) ∷ entries) =
      if text_eq other key
      then (other, f value) ∷ entries
      else (other, value) ∷ modify key f entries

  -- Each key has one entry.
  abbrev pub Distinct : List (Text × V) → Type 0
  Distinct [] = Unit
  Distinct ((key, value) ∷ entries) = All (λ e. text_eq key e.0 ≡ false) entries × Distinct entries

  pub get-remove : (key : Text) (entries : List (Text × V)) → get key (remove key entries) ≡ none
  get-remove key [] = refl
  get-remove key ((other, value) ∷ entries) = elim (Bool-cases (text_eq other key)) [
    | inl e ↦ rw e (get-remove key entries)
    | inr e ↦ rw (e, e) (get-remove key entries)
  ]

  pub get-remove_other :
      (key other : Text) (entries : List (Text × V))
      → ((k : Text) → text_eq k key ≡ true → text_eq k other ≡ false)
      → get other (remove key entries) ≡ get other entries
  get-remove_other key other [] differ = refl
  get-remove_other key other ((k, value) ∷ entries) differ =
      ground (arith, differ k, get-remove_other key other entries differ)

  -- Each entry is the one that its key looks up.
  pub Distinct-get :
      (entries : List (Text × V)) → Distinct entries → All (λ e. get e.0 entries ≡ some e.1) entries
  Distinct-get [] d = tt
  Distinct-get ((key, value) ∷ entries) d =
      (rw (text_eq_refl key), later entries d.0 (Distinct-get entries d.1))
    where
      later :
          (rest : List (Text × V))
          → All (λ e. text_eq key e.0 ≡ false) rest
          → All (λ e. get e.0 entries ≡ some e.1) rest
          → All (λ e. get e.0 ((key, value) ∷ entries) ≡ some e.1) rest
      later [] a b = tt
      later (e ∷ rest) a b = (rw a.0 b.0, later rest a.1 b.1)
