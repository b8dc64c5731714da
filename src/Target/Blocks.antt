-- ===== src/Target/Blocks.antt =====
-- src/target.rs, `public_v4`: octet by octet against the reserved address blocks.
use ssh_gateway.Prelude.{ℕ, ◌+◌, ◌*◌, ◌/◌, ◌^◌, ◌<◌, true, List, [], ◌∷◌, ◌≡◌, ◌↔◌, All, arith}
use ssh_gateway.Target.{public_v4}

-- The address as a 32-bit number.
abbrev pub number : ℕ → ℕ → ℕ → ℕ → ℕ
number a b c d = a * 16777216 + b * 65536 + c * 256 + d

-- A block by its first address and the number of its free low bits: 10.0.0.0/8 has 24.
pub record Block : Type 0 where
  pub first : ℕ
  pub free : ℕ

abbrev pub InBlock : ℕ → Block → Type 0
InBlock n b = n / 2 ^ b.free ≡ b.first / 2 ^ b.free

abbrev block : ℕ → ℕ → ℕ → ℕ → Block
block a b c free = record { first = number a b c 0; free = free }

-- 0/8, 10/8, 127/8, 224/3, 100.64/10, 169.254/16, 172.16/12, 192.0/16, 192.168/16, 192.88.99/24,
-- 198.18/15, 198.51.100/24 and 203.0.113/24.
abbrev pub reserved : List Block
reserved =
    block 0 0 0 24
    ∷ block 10 0 0 24
    ∷ block 127 0 0 24
    ∷ block 224 0 0 29
    ∷ block 100 64 0 22
    ∷ block 169 254 0 16
    ∷ block 172 16 0 20
    ∷ block 192 0 0 16
    ∷ block 192 168 0 16
    ∷ block 192 88 99 8
    ∷ block 198 18 0 17
    ∷ block 198 51 100 8
    ∷ block 203 0 113 8
    ∷ []

-- An IPv4 address counts as public exactly if it lies in none of the reserved blocks.
pub public_v4-reserved :
    (a b c d : ℕ)
    → a < 256
    → b < 256
    → c < 256
    → d < 256
    → (public_v4 a b c d ≡ true) ↔ All (λ r. ¬ InBlock (number a b c d) r) reserved
unfolding public_v4
public_v4-reserved a b c d ha hb hc hd = ground arith
