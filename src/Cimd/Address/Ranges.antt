-- ===== src/Cimd/Address/Ranges.antt =====
-- cimd.rs: `public_v4` against the list of the address blocks that it refuses.
use eri.Common.{
  ℕ, ◌+◌, ◌-◌, ◌*◌, ◌/◌, ◌^◌, ◌<◌, ◌≡◌, Bool, not, List, [], ◌∷◌, ◌||◌, any, ap, map, ◌∙◌, sym,
  subst, false, Bool-cases, nat_beq_iff, inl, inr, ◌≢◌, refl, nat_beq, arith,
}
use eri.Cimd.Address.{public_v4, public_ip, v4}

-- A block in CIDR notation: the first address and the length of the prefix.
pub record Block : Type 0 where
  pub first : ℕ
  pub prefix : ℕ

abbrev pub address : ℕ → ℕ → ℕ → ℕ → ℕ
address a b c d = a * 2 ^ 24 + b * 2 ^ 16 + c * 2 ^ 8 + d

abbrev block : ℕ → ℕ → ℕ → ℕ → Block
block a b c prefix = record { first = address a b c 0; prefix = prefix }

-- The address has the prefix of the block.
abbrev pub in_block : ℕ → Block → Bool
in_block ip b = nat_beq (ip / 2 ^ (32 - b.prefix)) (b.first / 2 ^ (32 - b.prefix))

-- The blocks that are not reached over the public Internet, and 192.2.0.0/16.
abbrev pub refused_blocks : List Block
refused_blocks =
    block 0 0 0 8
    ∷ block 10 0 0 8
    ∷ block 127 0 0 8
    ∷ block 224 0 0 3
    ∷ block 100 64 0 10
    ∷ block 169 254 0 16
    ∷ block 172 16 0 12
    ∷ block 192 0 0 16
    ∷ block 192 168 0 16
    ∷ block 192 2 0 16
    ∷ block 192 31 196 24
    ∷ block 192 52 193 24
    ∷ block 192 88 99 24
    ∷ block 192 175 48 24
    ∷ block 198 18 0 15
    ∷ block 198 51 100 24
    ∷ block 203 0 113 24
    ∷ []

-- The prefixes of an address, by its octets.
module _ (a b c d : ℕ) (hb : b < 256) (hc : c < 256) (hd : d < 256) where
  prefix-3 : address a b c d / 2 ^ 29 ≡ a / 32
  prefix-3 = omega arith

  prefix-8 : address a b c d / 2 ^ 24 ≡ a
  prefix-8 = omega arith

  prefix-10 : address a b c d / 2 ^ 22 ≡ a * 4 + b / 64
  prefix-10 = omega arith

  prefix-12 : address a b c d / 2 ^ 20 ≡ a * 16 + b / 16
  prefix-12 = omega arith

  prefix-15 : address a b c d / 2 ^ 17 ≡ a * 128 + b / 2
  prefix-15 = omega arith

  prefix-16 : address a b c d / 2 ^ 16 ≡ a * 256 + b
  prefix-16 = omega arith

  prefix-24 : address a b c d / 2 ^ 8 ≡ a * 65536 + b * 256 + c
  prefix-24 = omega arith

-- The test of each block on the octets, in the order of the blocks.
abbrev octet_tests : ℕ → ℕ → ℕ → List Bool
octet_tests a b c =
    nat_beq a 0
    ∷ nat_beq a 10
    ∷ nat_beq a 127
    ∷ nat_beq (a / 32) 7
    ∷ nat_beq (a * 4 + b / 64) 401
    ∷ nat_beq (a * 256 + b) 43518
    ∷ nat_beq (a * 16 + b / 16) 2753
    ∷ nat_beq (a * 256 + b) 49152
    ∷ nat_beq (a * 256 + b) 49320
    ∷ nat_beq (a * 256 + b) 49154
    ∷ nat_beq (a * 65536 + b * 256 + c) 12591044
    ∷ nat_beq (a * 65536 + b * 256 + c) 12596417
    ∷ nat_beq (a * 65536 + b * 256 + c) 12605539
    ∷ nat_beq (a * 65536 + b * 256 + c) 12627760
    ∷ nat_beq (a * 128 + b / 2) 25353
    ∷ nat_beq (a * 65536 + b * 256 + c) 12989284
    ∷ nat_beq (a * 65536 + b * 256 + c) 13303921
    ∷ []

block_tests :
    (a b c d : ℕ)
    → b < 256
    → c < 256
    → d < 256
    → map (in_block (address a b c d)) refused_blocks ≡ octet_tests a b c
block_tests a b c d hb hc hd = cc (
  prefix-3 a b c d hb hc hd,
  prefix-8 a b c d hb hc hd,
  prefix-10 a b c d hb hc hd,
  prefix-12 a b c d hb hc hd,
  prefix-15 a b c d hb hc hd,
  prefix-16 a b c d hb hc hd,
  prefix-24 a b c d hb hc hd,
)

any-map : (p : Block → Bool) (xs : List Block) → any p xs ≡ any (λ t. t) (map p xs)
unfolding any
any-map p [] = refl
any-map p (x ∷ xs) = ap (λ t. p x || t) (any-map p xs)

-- What is to be shown of three octets.
abbrev Agrees : ℕ → ℕ → ℕ → Type 0
Agrees a b c = public_v4 a b c ≡ not (any (λ t. t) (octet_tests a b c))

module _ (b c : ℕ) (hb : b < 256) (hc : c < 256) where
  Agrees-100 : Agrees 100 b c
  unfolding public_v4 any
  Agrees-100 = ground arith

  Agrees-169 : Agrees 169 b c
  unfolding public_v4 any
  Agrees-169 = ground arith

  Agrees-172 : Agrees 172 b c
  unfolding public_v4 any
  Agrees-172 = ground arith

  Agrees-192 : Agrees 192 b c
  unfolding public_v4 any
  Agrees-192 = ground arith

  Agrees-198 : Agrees 198 b c
  unfolding public_v4 any
  Agrees-198 = ground arith

  Agrees-203 : Agrees 203 b c
  unfolding public_v4 any
  Agrees-203 = ground arith

beq_of_ne : (m n : ℕ) → m ≢ n → nat_beq m n ≡ false
beq_of_ne m n h = ground arith

-- Another first octet is refused by itself.
abbrev first_octet : ℕ → Bool
first_octet a = nat_beq a 0 || nat_beq a 10 || nat_beq a 127 || nat_beq (a / 32) 7

module _ (a b c : ℕ) (hb : b < 256) (hc : c < 256) (ha : a < 256) (h1 : a ≢ 100) (h2 : a ≢ 169)
    (h3 : a ≢ 172) (h4 : a ≢ 192) (h5 : a ≢ 198) (h6 : a ≢ 203) where
  public_v4-other : public_v4 a b c ≡ not (first_octet a)
  unfolding public_v4
  public_v4-other = ground arith

  octet_tests-other : any (λ t. t) (octet_tests a b c) ≡ first_octet a
  unfolding any
  octet_tests-other = ground (
    arith,
    beq_of_ne (a * 4 + b / 64) 401 (omega arith),
    beq_of_ne (a * 256 + b) 43518 (omega arith),
    beq_of_ne (a * 16 + b / 16) 2753 (omega arith),
    beq_of_ne (a * 256 + b) 49152 (omega arith),
    beq_of_ne (a * 256 + b) 49320 (omega arith),
    beq_of_ne (a * 256 + b) 49154 (omega arith),
    beq_of_ne (a * 65536 + b * 256 + c) 12591044 (omega arith),
    beq_of_ne (a * 65536 + b * 256 + c) 12596417 (omega arith),
    beq_of_ne (a * 65536 + b * 256 + c) 12605539 (omega arith),
    beq_of_ne (a * 65536 + b * 256 + c) 12627760 (omega arith),
    beq_of_ne (a * 128 + b / 2) 25353 (omega arith),
    beq_of_ne (a * 65536 + b * 256 + c) 12989284 (omega arith),
    beq_of_ne (a * 65536 + b * 256 + c) 13303921 (omega arith),
  )

  Agrees-other : Agrees a b c
  Agrees-other = public_v4-other ∙ sym (ap not octet_tests-other)

-- A statement holds at every number if it holds at one and at all others.
split_at : (P : ℕ → Type 0) (n a : ℕ) → P n → (a ≢ n → P a) → P a
split_at P n a here other = elim (Bool-cases (nat_beq a n)) [
  | inl same ↦ subst P (sym ((nat_beq_iff a n).0 same)) here
  | inr differs ↦ other (ground arith)
]

public_v4-eq-octets : (a b c : ℕ) → a < 256 → b < 256 → c < 256 → Agrees a b c
public_v4-eq-octets a b c ha hb hc =
    let P = λ (n : ℕ). Agrees n b c in
    split_at P 100 a (Agrees-100 b c hb hc) λ h1. split_at P 169 a (Agrees-169 b c hb hc) λ h2.
      split_at P 172 a (Agrees-172 b c hb hc) λ h3. split_at P 192 a (Agrees-192 b c hb hc) λ h4.
        split_at P 198 a (Agrees-198 b c hb hc) λ h5.
          split_at P 203 a (Agrees-203 b c hb hc)
            λ h6. Agrees-other a b c hb hc ha h1 h2 h3 h4 h5 h6

-- For octets, `public_ip` accepts an IPv4 address exactly when no refused block has it.
pub public_ip-eq-blocks :
    (a b c d : ℕ)
    → a < 256
    → b < 256
    → c < 256
    → d < 256
    → public_ip (v4 a b c d) ≡ not (any (in_block (address a b c d)) refused_blocks)
unfolding public_ip
public_ip-eq-blocks a b c d ha hb hc hd =
    rw (any-map, block_tests a b c d hb hc hd) (public_v4-eq-octets a b c ha hb hc)
