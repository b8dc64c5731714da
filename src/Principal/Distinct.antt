-- ===== src/Principal/Distinct.antt =====
-- Different principals are hashed from different bytes.
use ssh_gateway.Prelude.{
  ℕ, Text, str, List, [], ◌∷◌, ◌++◌, ◌≤◌, ◌≡◌, refl, arith, length, All, ap, ◌∙◌, sym,
  unwrap_or_default,
}
use mathlib.Core.List.{append_assoc}
use ssh_gateway.Protocol.{CallerType, human_cli, agent_cli, mcp}
use ssh_gateway.Externals.{u64_max}
use ssh_gateway.Principal.{Principal, debug, to_be_bytes, framed, fields, hash_input}

same_length : (s t u v : Text) → length s ≡ length t → (s ++ u) ≡ (t ++ v) → (s ≡ t) × (u ≡ v)
same_length [] [] u v e h = (refl, h)
same_length [] (b ∷ t) u v e h = absurd (omega (arith, e))
same_length (a ∷ s) [] u v e h = absurd (omega (arith, e))
same_length (a ∷ s) (b ∷ t) u v e h =
    let head : a ≡ b = cc in
    let tail : (s ++ u) ≡ (t ++ v) = cc in
    let rest = same_length s t u v (omega (arith, e)) tail in (cc, rest.1)

big_endian :
    (m n : ℕ) (u v : Text)
    → m ≤ u64_max
    → n ≤ u64_max
    → (to_be_bytes m ++ u) ≡ (to_be_bytes n ++ v)
    → (m ≡ n) × (u ≡ v)
unfolding to_be_bytes
big_endian m n u v hm hn h = ground arith

framed-split :
    (s t u v : Text)
    → length s ≤ u64_max
    → length t ≤ u64_max
    → (framed s ++ u) ≡ (framed t ++ v)
    → (s ≡ t) × (u ≡ v)
unfolding framed
framed-split s t u v hs ht h =
    let flat =
      sym (append_assoc (to_be_bytes (length s)) s u)
      ∙ h
      ∙ append_assoc (to_be_bytes (length t)) t v in
    let (e, body) = big_endian (length s) (length t) (s ++ u) (t ++ v) hs ht flat in
    same_length s t u v e body

-- `value.len() as u64` is the length itself.
abbrev pub Fits : Text → Type 0
Fits value = length value ≤ u64_max

hash_input-injective :
    (values others : List Text)
    → length values ≡ length others
    → All Fits values
    → All Fits others
    → hash_input values ≡ hash_input others
    → values ≡ others
unfolding hash_input
hash_input-injective [] [] e hv ho h = refl
hash_input-injective [] (o ∷ others) e hv ho h = absurd (omega (arith, e))
hash_input-injective (v ∷ values) [] e hv ho h = absurd (omega (arith, e))
hash_input-injective (v ∷ values) (o ∷ others) e hv ho h =
    let split = framed-split v o (hash_input values) (hash_input others) hv.0 ho.0 h in
    let first = split.0 in
    let rest = hash_input-injective values others (omega (arith, e)) hv.1 ho.1 split.1 in cc

abbrev first_byte : Text → ℕ
first_byte [] = 0
first_byte (c ∷ s) = c

debug-injective : (c d : CallerType) → debug c ≡ debug d → c ≡ d
unfolding debug str
debug-injective human_cli human_cli h = refl
debug-injective agent_cli agent_cli h = refl
debug-injective mcp mcp h = refl
debug-injective human_cli agent_cli h = absurd (omega (arith, ap first_byte h))
debug-injective human_cli mcp h = absurd (omega (arith, ap first_byte h))
debug-injective agent_cli human_cli h = absurd (omega (arith, ap first_byte h))
debug-injective agent_cli mcp h = absurd (omega (arith, ap first_byte h))
debug-injective mcp human_cli h = absurd (omega (arith, ap first_byte h))
debug-injective mcp agent_cli h = absurd (omega (arith, ap first_byte h))

-- Two principals are hashed from the same bytes only if they have the same caller type, tenant,
-- resource, subject and client, a missing one counting as the empty text, all of them of lengths
-- that fit 64 bits. No text can run over into the next.
pub hash_input-separates :
    (p q : Principal)
    → All Fits (fields p)
    → All Fits (fields q)
    → hash_input (fields p) ≡ hash_input (fields q)
    → (p.caller_type ≡ q.caller_type)
      × (unwrap_or_default p.tenant_id ≡ unwrap_or_default q.tenant_id)
      × (unwrap_or_default p.resource ≡ unwrap_or_default q.resource)
      × (unwrap_or_default p.subject ≡ unwrap_or_default q.subject)
      × (unwrap_or_default p.client_id ≡ unwrap_or_default q.client_id)
hash_input-separates p q hp hq h =
    let same = hash_input-injective (fields p) (fields q) refl hp hq h in
    (debug-injective p.caller_type q.caller_type (cc), cc, cc, cc, cc)
