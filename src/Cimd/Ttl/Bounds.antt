-- ===== src/Cimd/Ttl/Bounds.antt =====
-- cimd.rs: the bounds of `cache_ttl`, and what forbids a response to be kept.
use eri.Common.{
  ℕ, ◌+◌, ◌≤◌, ◌<◌, ◌≡◌, ◌≢◌, inl, inr, Text, bytes, Option, none, some, List, [], ◌∷◌, In, min, ap,
  text_eq, text_beq_iff, arith, parse_u64, Option-cases, refl,
}
use eri.Cimd.Ttl.{
  Directive, read_directive, take_age, maximum_age, cache_ttl, directives_of, max_cache_ttl,
  remaining,
}

-- A directive `max-age` with this number of seconds.
pub record Declares (directive : Text) (seconds : ℕ) : Type 0 where
  pub read : Directive
  pub accepted : read_directive directive ≡ some read
  pub named : read.name ≡ bytes "max-age"
  pub stated : Text
  pub valued : read.value ≡ some stated
  pub parsed : parse_u64 stated ≡ some seconds

-- What the loop has read: no directive was refused, and each `max-age` bounds the result.
abbrev pub Reads : Option ℕ → List Text → ℕ → Type 0
Reads current directives age =
    ((least : ℕ) → current ≡ some least → age ≤ least)
    × ((directive : Text) → In directive directives → read_directive directive ≢ none)
    × ((directive : Text) (seconds : ℕ)
        → In directive directives
        → Declares directive seconds
        → age ≤ seconds)

-- A bound in force stays in force.
take_age-keeps :
    (current next : Option ℕ) (d : Directive) (least : ℕ)
    → take_age current d ≡ some next
    → current ≡ some least
    → (m : ℕ) × (next ≡ some m) × (m ≤ least)
unfolding take_age
take_age-keeps current none d least run e = absurd (ground arith)
take_age-keeps current (some m) d least run e = (m, refl, ground arith)

take_age-bounds :
    (current next : Option ℕ) (directive : Text) (seconds : ℕ) (s : Declares directive seconds)
    → take_age current s.read ≡ some next
    → (m : ℕ) × (next ≡ some m) × (m ≤ seconds)
unfolding take_age
take_age-bounds current none directive seconds s run =
    absurd (ground (arith, s.named, s.valued, s.parsed, text_beq_iff s.read.name (bytes "max-age")))
take_age-bounds current (some m) directive seconds s run = (
  m,
  refl,
  ground (arith, s.named, s.valued, s.parsed, text_beq_iff s.read.name (bytes "max-age")),
)

maximum_age-cons :
    (current : Option ℕ) (directive : Text) (directives : List Text) (age : ℕ)
    → maximum_age current (directive ∷ directives) ≡ some (some age)
    → (d : Directive) × (next : Option ℕ) × (read_directive directive ≡ some d)
      × (take_age current d ≡ some next)
      × (maximum_age next directives ≡ some (some age))
unfolding maximum_age
maximum_age-cons current directive directives age run =
    elim (Option-cases (read_directive directive)) [
      | inl refused ↦ absurd (ground arith)
      | inr (d, read) ↦ elim (Option-cases (take_age current d)) [
        | inl refused ↦ absurd (ground arith)
        | inr (next, taken) ↦ (d, next, read, taken, ground arith)
      ]
    ]

maximum_age-Reads :
    (current : Option ℕ) (directives : List Text) (age : ℕ)
    → maximum_age current directives ≡ some (some age)
    → Reads current directives age
unfolding maximum_age
maximum_age-Reads current [] age run =
    (λ least e. ground arith, λ d i. elim i [ ], λ d s i. elim i [ ])
maximum_age-Reads current (directive ∷ directives) age run =
    let (d, next, read, taken, rest) = maximum_age-cons current directive directives age run in
    let (least_of_rest, accepted_in_rest, declared_in_rest) =
      maximum_age-Reads next directives age rest in
    (
      λ least e.
          let (m, is_m, below) = take_age-keeps current next d least taken e in
          omega (arith, least_of_rest m is_m),
      λ other i. elim i [
        | inl same ↦ λ refused. ground (arith, ap read_directive same)
        | inr later ↦ accepted_in_rest other later
      ],
      λ other seconds i s. elim i [
        | inl same ↦
            let e : s.read ≡ d = ground (arith, ap read_directive same, s.accepted) in
            let (m, is_m, below) = take_age-bounds current next other seconds s (rw e taken) in
            omega (arith, least_of_rest m is_m)
        | inr later ↦ declared_in_rest other seconds later s
      ],
    )

-- A directive that the loop passes: none of the three names that forbid to keep a response.
abbrev pub Allows : Text → Type 0
Allows directive =
    (d : Directive) × (read_directive directive ≡ some d)
    × (d.name ≢ bytes "no-store")
    × (d.name ≢ bytes "no-cache")
    × (d.name ≢ bytes "private")

read_directive-Allows : (directive : Text) → read_directive directive ≢ none → Allows directive
unfolding read_directive
read_directive-Allows directive accepted = elim (Option-cases (read_directive directive)) [
  | inl refused ↦ absurd (accepted refused)
  | inr (d, read) ↦
      let tests = λ (literal : Text). text_beq_iff d.name literal in
      (
        d,
        read,
        ground (arith, tests (bytes "no-store")),
        ground (arith, tests (bytes "no-cache")),
        ground (arith, tests (bytes "private")),
      )
]

-- The directives of a response that may be kept, and how long.
pub record IsCacheable (headers : List Text) (response_age ttl : ℕ) : Type 0 where
  pub positive : 0 < ttl
  pub bounded : ttl + response_age ≤ max_cache_ttl
  pub allowed : (directive : Text) → In directive (directives_of headers) → Allows directive
  pub declared :
      (directive : Text) (seconds : ℕ)
      → In directive (directives_of headers)
      → Declares directive seconds
      → ttl + response_age ≤ seconds

cache_ttl-age :
    (headers : List Text) (response_age ttl : ℕ)
    → cache_ttl (some headers) response_age ≡ some ttl
    → (age : ℕ) × (maximum_age none (directives_of headers) ≡ some (some age))
      × (remaining (min age max_cache_ttl) response_age ≡ some ttl)
unfolding cache_ttl
cache_ttl-age headers response_age ttl run =
    elim (Option-cases (maximum_age none (directives_of headers))) [
      | inl refused ↦ absurd (ground arith)
      | inr (none, silent) ↦ absurd (ground arith)
      | inr (some age, read) ↦ (age, read, ground arith)
    ]

-- A response that `cache_ttl` lets be kept is kept for at least a second, at most 300 seconds and at most every `max-age` that it declares, each less the response's age; each of its directives is well formed, and none is no-store, no-cache or private.
pub cache_ttl-IsCacheable :
    (headers : List Text) (response_age ttl : ℕ)
    → cache_ttl (some headers) response_age ≡ some ttl
    → IsCacheable headers response_age ttl
cache_ttl-IsCacheable headers response_age ttl run =
    let (age, read, left) = cache_ttl-age headers response_age ttl run in
    let (least, accepted, declared) = maximum_age-Reads none (directives_of headers) age read in
    record {
      positive = ground arith;
      bounded = ground arith;
      allowed = λ directive i. read_directive-Allows directive (accepted directive i);
      declared = λ directive seconds i s. ground (arith, declared directive seconds i s);
    }
