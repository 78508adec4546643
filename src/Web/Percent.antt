-- ===== src/Web/Percent.antt =====
-- web.rs: `valid_percent`, a loop over the positions of a form's text.
use eri.Common.{
  ℕ, zero, suc, ◌+◌, ◌≤◌, ◌<◌, ◌≡◌, Text, Bool, true, false, not, ◌&&◌, ◌||◌, Option, none, some,
  [], ◌∷◌, length, ltb, leb, nat_beq, is_ascii_digit, if◌then◌else◌, arith, refl, Bool-cases, inl,
  inr, ap, ◌∙◌, ◌-◌, sym, nat_beq_iff,
}

abbrev pub is_ascii_hexdigit : ℕ → Bool
is_ascii_hexdigit b = is_ascii_digit b || (leb b'A' b && leb b b'F') || (leb b'a' b && leb b b'f')

-- `b[i]`; no index out of range is read.
unfoldable pub byte_at : Text → ℕ → ℕ
byte_at [] i = 0
byte_at (b ∷ s) zero = b
byte_at (b ∷ s) (suc i) = byte_at s i

-- The test in the body of the loop.
abbrev pub bad_escape : Text → ℕ → Bool
bad_escape b i =
    leb (length b) (i + 2)
    || not (is_ascii_hexdigit (byte_at b (i + 1)))
    || not (is_ascii_hexdigit (byte_at b (i + 2)))

-- `while i < b.len()`, with fuel; `none` if the fuel runs out.
unfoldable pub valid_percent_from : ℕ → Text → ℕ → Option Bool
unfolding byte_at
valid_percent_from zero b i = none
valid_percent_from (suc fuel) b i =
    let rest = valid_percent_from fuel b (i + (if nat_beq (byte_at b i) b'%' then 3 else 1)) in
    if ltb i (length b)
    then (if nat_beq (byte_at b i) b'%' && bad_escape b i then some false else rest)
    else some true

unfoldable pub valid_percent : Text → Bool
unfolding valid_percent_from
valid_percent raw = elim (valid_percent_from (suc (length raw)) raw 0) [
  | none ↦ false
  | some verdict ↦ verdict
]

-- The reference: after a percent sign, two hexadecimal digits are still to come.
unfoldable pub well_encoded : ℕ → Text → Bool
well_encoded zero [] = true
well_encoded (suc digits) [] = false
well_encoded zero (b ∷ s) = well_encoded (if nat_beq b b'%' then 2 else 0) s
well_encoded (suc digits) (b ∷ s) = is_ascii_hexdigit b && well_encoded digits s

unfoldable pub drop : ℕ → Text → Text
drop zero s = s
drop (suc n) [] = []
drop (suc n) (b ∷ s) = drop n s

drop-byte_at : (b : Text) (i : ℕ) → i < length b → drop i b ≡ byte_at b i ∷ drop (suc i) b
unfolding drop byte_at
drop-byte_at [] i h = absurd (omega arith)
drop-byte_at (c ∷ s) zero h = refl
drop-byte_at (c ∷ s) (suc i) h = drop-byte_at s i (omega arith)

drop-nil : (b : Text) (i : ℕ) → length b ≤ i → drop i b ≡ []
unfolding drop
drop-nil [] zero h = refl
drop-nil [] (suc i) h = refl
drop-nil (c ∷ s) zero h = absurd (omega arith)
drop-nil (c ∷ s) (suc i) h = drop-nil s i (omega arith)

-- An escape that is cut short, or whose digits are no digits.
well_encoded-bad :
    (b : Text) (i : ℕ)
    → i < length b
    → byte_at b i ≡ b'%'
    → bad_escape b i ≡ true
    → well_encoded 0 (drop i b) ≡ false
unfolding well_encoded
well_encoded-bad b i h percent bad = elim (Bool-cases (ltb (suc i) (length b))) [
  | inl second ↦ elim (Bool-cases (ltb (suc (suc i)) (length b))) [
    | inl third ↦ ground (
      arith,
      drop-byte_at b i h,
      drop-byte_at b (suc i) (ground arith),
      drop-byte_at b (suc (suc i)) (ground arith),
    )
    | inr short ↦ ground (
      arith,
      drop-byte_at b i h,
      drop-byte_at b (suc i) (ground arith),
      drop-nil b (suc (suc i)) (ground arith),
    )
  ]
  | inr short ↦ ground (arith, drop-byte_at b i h, drop-nil b (suc i) (ground arith))
]

good_parts : (x y z : Bool) → (x || not y || not z) ≡ false → (x ≡ false) × (y ≡ true) × (z ≡ true)
good_parts x y z h = ground arith

well_encoded-escape :
    (x y z : ℕ) (s : Text)
    → x ≡ b'%'
    → is_ascii_hexdigit y ≡ true
    → is_ascii_hexdigit z ≡ true
    → well_encoded 0 (x ∷ y ∷ z ∷ s) ≡ well_encoded 0 s
unfolding well_encoded
well_encoded-escape x y z s percent hy hz = rw (percent, hy, hz)

well_encoded-good :
    (b : Text) (i : ℕ)
    → i < length b
    → byte_at b i ≡ b'%'
    → bad_escape b i ≡ false
    → well_encoded 0 (drop i b) ≡ well_encoded 0 (drop (i + 3) b)
well_encoded-good b i h percent good =
    let (inside, hy, hz) =
      good_parts (leb (length b) (i + 2)) (is_ascii_hexdigit (byte_at b (i + 1)))
        (is_ascii_hexdigit (byte_at b (i + 2))) good in
    let e : i + 1 ≡ suc i = omega arith in
    let e' : i + 2 ≡ suc (suc i) = omega arith in
    let e'' : i + 3 ≡ suc (suc (suc i)) = omega arith in
    let short : suc (suc i) < length b = ground arith in
    rw
      (
        drop-byte_at b i h,
        drop-byte_at b (suc i) (omega arith),
        drop-byte_at b (suc (suc i)) short,
        e'',
      )
      (well_encoded-escape (byte_at b i) (byte_at b (suc i)) (byte_at b (suc (suc i)))
        (drop (suc (suc (suc i))) b) percent (rw (← e) hy) (rw (← e') hz))

well_encoded-plain :
    (b : Text) (i : ℕ)
    → i < length b
    → nat_beq (byte_at b i) b'%' ≡ false
    → well_encoded 0 (drop i b) ≡ well_encoded 0 (drop (i + 1) b)
unfolding well_encoded
well_encoded-plain b i h plain = ground (arith, drop-byte_at b i h)

-- With fuel above the bytes left, the loop ends with the verdict of the reference.
valid_percent_from-lem :
    (fuel : ℕ) (b : Text) (i : ℕ)
    → length b - i < fuel
    → valid_percent_from fuel b i ≡ some (well_encoded 0 (drop i b))
unfolding valid_percent_from well_encoded
valid_percent_from-lem zero b i h = absurd (omega arith)
valid_percent_from-lem (suc fuel) b i h = elim (Bool-cases (ltb i (length b))) [
  | inr over ↦ rw (over, drop-nil b i (ground arith))
  | inl more ↦
      let more' : i < length b = ground arith in
      elim (Bool-cases (nat_beq (byte_at b i) b'%')) [
        | inr plain ↦
            rw (more, plain)
              (valid_percent_from-lem fuel b (i + 1) (omega arith)
                ∙ ap some (sym (well_encoded-plain b i more' plain)))
        | inl percent ↦
            let sign = (nat_beq_iff (byte_at b i) b'%').0 percent in
            elim (Bool-cases (bad_escape b i)) [
              | inl bad ↦
                  rw (more, percent, bad) (ap some (sym (well_encoded-bad b i more' sign bad)))
              | inr good ↦
                  rw (more, percent, good)
                    (valid_percent_from-lem fuel b (i + 3) (omega arith)
                      ∙ ap some (sym (well_encoded-good b i more' sign good)))
            ]
      ]
]

-- The loop always ends within its bound of rounds, and accepts exactly the texts in which two hexadecimal digits follow every percent sign.
pub valid_percent-eq-reference :
    (raw : Text)
    → (valid_percent_from (suc (length raw)) raw 0 ≡ some (well_encoded 0 raw))
      × (valid_percent raw ≡ well_encoded 0 raw)
unfolding valid_percent drop
valid_percent-eq-reference raw =
    let ends = valid_percent_from-lem (suc (length raw)) raw 0 (omega arith) in
    (ends, ground (arith, ends))
