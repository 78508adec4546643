-- ===== src/Web/Escape.antt =====
-- web.rs: `escape`, which writes a text into a page.
use mathlib.Core.List.{append_assoc}
use eri.Common.{
  ℕ, zero, suc, ◌<◌, ◌≡◌, Text, bytes, Bool, true, not, ◌||◌, Option, none, some, [], ◌∷◌, ◌++◌,
  length, all, nat_beq, strip_prefix, if◌then◌else◌, arith, refl, ap, sym, ◌∙◌,
}

-- `str::replace` at a byte.
unfoldable pub replace : ℕ → Text → Text → Text
replace old new [] = []
replace old new (b ∷ s) = (if nat_beq b old then new else b ∷ []) ++ replace old new s

unfoldable pub escape : Text → Text
unfolding replace
escape v = replace b'\'' (bytes "&#39;") (
    replace b'"' (bytes "&quot;")
      (replace b'>' (bytes "&gt;") (replace b'<' (bytes "&lt;") (replace b'&' (bytes "&amp;") v))))

replace-append :
    (old : ℕ) (new x y : Text) → replace old new (x ++ y) ≡ replace old new x ++ replace old new y
unfolding replace
replace-append old new [] y = refl
replace-append old new (b ∷ x) y =
    ap (λ t. (if nat_beq b old then new else b ∷ []) ++ t) (replace-append old new x y)
    ∙ sym (
        append_assoc (if nat_beq b old then new else b ∷ []) (replace old new x)
          (replace old new y))

escape-append : (x y : Text) → escape (x ++ y) ≡ escape x ++ escape y
unfolding escape
escape-append x y =
    rw (replace-append, replace-append, replace-append, replace-append, replace-append)

-- What one byte becomes.
abbrev pub escape_byte : ℕ → Text
escape_byte b =
    if nat_beq b b'&'
    then bytes "&amp;"
    else if nat_beq b b'<'
    then bytes "&lt;"
    else if nat_beq b b'>'
    then bytes "&gt;"
    else if nat_beq b b'"'
    then bytes "&quot;"
    else if nat_beq b b'\''
    then bytes "&#39;"
    else b ∷ []

escape-byte : (b : ℕ) → escape (b ∷ []) ≡ escape_byte b
unfolding escape
escape-byte b = ground arith

escape-cons : (b : ℕ) (s : Text) → escape (b ∷ s) ≡ escape_byte b ++ escape s
escape-cons b s = escape-append (b ∷ []) s ∙ ap (λ t. t ++ escape s) (escape-byte b)

-- The reference: how a browser reads the five character references, within a number of bytes.
abbrev pub read_reference : Text → Option (ℕ × Text)
read_reference s = elim (strip_prefix (bytes "&amp;") s) [
  | some rest ↦ some (b'&', rest)
  | none ↦ elim (strip_prefix (bytes "&lt;") s) [
    | some rest ↦ some (b'<', rest)
    | none ↦ elim (strip_prefix (bytes "&gt;") s) [
      | some rest ↦ some (b'>', rest)
      | none ↦ elim (strip_prefix (bytes "&quot;") s) [
        | some rest ↦ some (b'"', rest)
        | none ↦ elim (strip_prefix (bytes "&#39;") s) [
          | some rest ↦ some (b'\'', rest)
          | none ↦ none
        ]
      ]
    ]
  ]
]

unfoldable pub read_text : ℕ → Text → Text
unfolding strip_prefix
read_text zero s = []
read_text (suc fuel) [] = []
read_text (suc fuel) (b ∷ s) =
    let plain = b ∷ read_text fuel s in
    elim (read_reference (b ∷ s)) [ none ↦ plain | some (c, rest) ↦ c ∷ read_text fuel rest ]

-- The bytes that end an attribute or start a tag.
abbrev pub is_markup : ℕ → Bool
is_markup b = nat_beq b b'<' || nat_beq b b'>' || nat_beq b b'"' || nat_beq b b'\''

abbrev NoMarkup : Text → Type 0
NoMarkup s = all (λ b. not (is_markup b)) s ≡ true

NoMarkup-append : (x y : Text) → NoMarkup x → NoMarkup y → NoMarkup (x ++ y)
unfolding all
NoMarkup-append [] y hx hy = hy
NoMarkup-append (b ∷ x) y hx hy = ground (arith, NoMarkup-append x y)

escape_byte-NoMarkup : (b : ℕ) → NoMarkup (escape_byte b)
unfolding all
escape_byte-NoMarkup b = ground arith

read_text-escape_byte :
    (fuel b : ℕ) (s : Text) → read_text (suc fuel) (escape_byte b ++ s) ≡ b ∷ read_text fuel s
unfolding read_text
read_text-escape_byte fuel b s = ground arith

NoMarkup-escape : (v : Text) → NoMarkup (escape v)
unfolding escape all
NoMarkup-escape [] = refl
NoMarkup-escape (b ∷ v) =
    rw (escape-cons b v)
      (NoMarkup-append (escape_byte b) (escape v) (escape_byte-NoMarkup b) (NoMarkup-escape v))

read_text-escape_from : (fuel : ℕ) (v : Text) → length v < fuel → read_text fuel (escape v) ≡ v
unfolding escape read_text
read_text-escape_from zero v h = absurd (omega arith)
read_text-escape_from (suc fuel) [] h = refl
read_text-escape_from (suc fuel) (b ∷ v) h = rw (escape-cons b v) (
    read_text-escape_byte fuel b (escape v)
    ∙ ap (λ t. b ∷ t) (read_text-escape_from fuel v (omega arith)))

-- An escaped text has no byte that starts a tag or ends an attribute, and a browser that resolves its character references reads the text itself.
pub read_text-escape :
    (v : Text)
    → (all (λ b. not (is_markup b)) (escape v) ≡ true) × (read_text (suc (length v)) (escape v) ≡ v)
read_text-escape v = (NoMarkup-escape v, read_text-escape_from (suc (length v)) v (omega arith))
