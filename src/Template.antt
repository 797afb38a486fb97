-- ===== src/Template.antt =====
-- `fill_template` of framework/helpers/util.py, with `string.Template.substitute` as it reads a text:
-- `$$`, `$name` and `${name}`.
use tempesta_test.Base.{
  ℕ, ◌≡◌, refl, ap, ◌∙◌, Bool, true, false, not, ◌&&◌, ◌||◌, List, [], ◌∷◌, ◌++◌, Option, none,
  some, if◌then◌else◌, leb, ◌==◌, is_empty, Result, ok, raise, ◌>>=◌, value_error, key_error,
  Bool-cases, inl, inr, append-nil, append_assoc, >>=-ok, >>=_assoc,
}
use tempesta_test.Text.{Text, same}

-- Properties, with their values as text.
abbrev pub Properties : Type 0
Properties = List (Text × Text)

unfoldable pub property : Text → Properties → Result Text
property name [] = raise key_error
property name ((n, value) ∷ l) = if same n name then ok value else property name l

abbrev pub is_id_start : ℕ → Bool
is_id_start c = (leb b'a' c && leb c b'z') || (leb b'A' c && leb c b'Z') || (c == b'_')

abbrev pub is_id_char : ℕ → Bool
is_id_char c = is_id_start c || (leb b'0' c && leb c b'9')

-- What was read last: plain text, a `$`, a part of a name, or a part of a name in braces.
pub data Mode : Type 0 where
  plain dollar : Mode
  name braced : Text → Mode

abbrev pub may_follow : Text → ℕ → Bool
may_follow [] c = is_id_start c
may_follow (d ∷ acc) c = is_id_char c

unfoldable pub substitute : Properties → Mode → Text → Result Text
unfolding property
substitute p plain [] = ok []
substitute p plain (c ∷ s) = elim (c == b'$') [
  | true ↦ substitute p dollar s
  | false ↦ substitute p plain s >>= λ rest. ok (c ∷ rest)
]
substitute p dollar [] = raise value_error
substitute p dollar (c ∷ s) = elim (c == b'$') [
  | true ↦ substitute p plain s >>= λ rest. ok (c ∷ rest)
  | false ↦ elim (c == b'{') [
    | true ↦ substitute p (braced []) s
    | false ↦ elim (is_id_start c) [
      | true ↦ substitute p (name (c ∷ [])) s
      | false ↦ raise value_error
    ]
  ]
]
substitute p (name acc) [] = property acc p
substitute p (name acc) (c ∷ s) = elim (is_id_char c) [
  | true ↦ substitute p (name (acc ++ c ∷ [])) s
  | false ↦ property acc p >>= λ value. elim (c == b'$') [
    | true ↦ substitute p dollar s >>= λ rest. ok (value ++ rest)
    | false ↦ substitute p plain s >>= λ rest. ok (value ++ c ∷ rest)
  ]
]
substitute p (braced acc) [] = raise value_error
substitute p (braced acc) (c ∷ s) = elim (may_follow acc c) [
  | true ↦ substitute p (braced (acc ++ c ∷ [])) s
  | false ↦ elim (not (is_empty acc) && (c == b'}')) [
    | false ↦ raise value_error
    | true ↦ property acc p >>= λ value. substitute p plain s >>= λ rest. ok (value ++ rest)
  ]
]

unfoldable pub fill_template : Option Text → Properties → Result (Option Text)
unfolding substitute
fill_template none p = ok none
fill_template (some s) p = substitute p plain s >>= λ filled. ok (some filled)

-- Each dollar sign doubled.
abbrev pub escape : Text → Text
escape [] = []
escape (c ∷ s) = if c == b'$' then c ∷ c ∷ escape s else c ∷ escape s

-- A template by its pieces: words as they are, and the place of a property.
pub data Piece : Type 0 where
  words place : Text → Piece

abbrev pub written : List Piece → Text
written [] = []
written (words s ∷ l) = escape s ++ written l
written (place n ∷ l) = b'$' ∷ b'{' ∷ (n ++ b'}' ∷ written l)

-- What the pieces mean.
abbrev pub meant : Properties → List Piece → Result Text
meant p [] = ok []
meant p (words s ∷ l) = meant p l >>= λ rest. ok (s ++ rest)
meant p (place n ∷ l) = property n p >>= λ value. meant p l >>= λ rest. ok (value ++ rest)

abbrev pub AreIdChars : Text → Type 0
AreIdChars [] = Unit
AreIdChars (c ∷ s) = (is_id_char c ≡ true) × AreIdChars s

abbrev pub IsName : Text → Type 0
IsName [] = ⊥
IsName (c ∷ s) = (is_id_start c ≡ true) × AreIdChars s

abbrev pub HasNames : List Piece → Type 0
HasNames [] = Unit
HasNames (words s ∷ l) = HasNames l
HasNames (place n ∷ l) = IsName n × HasNames l

-- Single rounds of `substitute`.
plain-enter :
    (p : Properties) (c : ℕ) (s : Text)
    → (c == b'$') ≡ true
    → substitute p plain (c ∷ s) ≡ substitute p dollar s
unfolding substitute
plain-enter p c s h = rw (h, substitute)

dollar-sign :
    (p : Properties) (c : ℕ) (s : Text)
    → (c == b'$') ≡ true
    → substitute p dollar (c ∷ s) ≡ (substitute p plain s >>= λ rest. ok (c ∷ rest))
unfolding substitute
dollar-sign p c s h = rw (h, substitute)

plain-other :
    (p : Properties) (c : ℕ) (s : Text)
    → (c == b'$') ≡ false
    → substitute p plain (c ∷ s) ≡ (substitute p plain s >>= λ rest. ok (c ∷ rest))
unfolding substitute
plain-other p c s h = rw (h, substitute)

braced-char :
    (p : Properties) (acc : Text) (c : ℕ) (s : Text)
    → may_follow acc c ≡ true
    → substitute p (braced acc) (c ∷ s) ≡ substitute p (braced (acc ++ c ∷ [])) s
unfolding substitute
braced-char p acc c s h = rw (h, substitute)

braced-end :
    (p : Properties) (d : ℕ) (acc s : Text)
    → substitute p (braced (d ∷ acc)) (b'}' ∷ s)
      ≡ (property (d ∷ acc) p >>= λ value. substitute p plain s >>= λ rest. ok (value ++ rest))
unfolding substitute
braced-end p d acc s = refl

substitute-escape :
    (p : Properties) (s rest : Text)
    → substitute p plain (escape s ++ rest) ≡ (substitute p plain rest >>= λ t. ok (s ++ t))
substitute-escape p [] rest = >>=-ok (substitute p plain rest)
substitute-escape p (c ∷ s) rest = elim (Bool-cases (c == b'$')) [
  | inl sign ↦ rw (
    sign,
    plain-enter p c (c ∷ (escape s ++ rest)) sign,
    dollar-sign p c (escape s ++ rest) sign,
    substitute-escape p s rest,
    >>=_assoc (substitute p plain rest) _ _,
  )
  | inr other ↦ rw (
    other,
    plain-other p c (escape s ++ rest) other,
    substitute-escape p s rest,
    >>=_assoc (substitute p plain rest) _ _,
  )
]

substitute-braced :
    (p : Properties) (d : ℕ) (acc n rest : Text)
    → AreIdChars n
    → substitute p (braced (d ∷ acc)) (n ++ b'}' ∷ rest)
      ≡ (property (d ∷ (acc ++ n)) p >>= λ value. substitute p plain rest >>= λ t. ok (value ++ t))
substitute-braced p d acc [] rest h = rw (append-nil acc) (braced-end p d acc rest)
substitute-braced p d acc (c ∷ n) rest h =
    braced-char p (d ∷ acc) c (n ++ b'}' ∷ rest) h.0
    ∙ substitute-braced p d (acc ++ c ∷ []) n rest h.1
    ∙ (rw (append_assoc acc (c ∷ []) n))

substitute-written :
    (p : Properties) (l : List Piece) → HasNames l → substitute p plain (written l) ≡ meant p l
unfolding substitute
substitute-written p [] h = refl
substitute-written p (words s ∷ l) h =
    substitute-escape p s (written l)
    ∙ ap (λ r. r >>= λ rest. ok (s ++ rest)) (substitute-written p l h)
substitute-written p (place [] ∷ l) h = absurd h.0
substitute-written p (place (c ∷ n) ∷ l) h =
    braced-char p [] c (n ++ b'}' ∷ written l) h.0.0
    ∙ substitute-braced p c [] n (written l) h.0.1
    ∙ ap (λ r. property (c ∷ n) p >>= λ value. r >>= λ rest. ok (value ++ rest))
        (substitute-written p l h.1)

-- Filling a template that is written from words, with each dollar sign doubled, and places
-- `${name}`, with names of identifiers, gives the words and the values of the properties in their
-- order, or raises what the first missing property raises.
pub fill_template-written :
    (p : Properties) (l : List Piece)
    → HasNames l
    → fill_template (some (written l)) p ≡ (meant p l >>= λ s. ok (some s))
unfolding fill_template
fill_template-written p l h = ap (λ r. r >>= λ s. ok (some s)) (substitute-written p l h)
