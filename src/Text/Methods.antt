-- ===== src/Text/Methods.antt =====
-- Python's `str`, as the list of its code points, and the methods that the framework calls. Case
-- mapping and white space are those of ASCII.
use Prim.Native.Char.{code}
use tempesta_test.Base.{
  ℕ, zero, suc, ◌+◌, ◌-◌, length, drop, map, any_of, Bool, true, false, ◌&&◌, ◌||◌, List, [], ◌∷◌,
  ◌++◌, Option, none, some, String, leb, ◌==◌, is_empty, if◌then◌else◌, ℕ_discrete, ite,
}

abbrev pub Text : Type 0
Text = List ℕ

-- The code points of a literal.
abbrev pub codes : String → Text
codes String.[] = []
codes (String.◌∷◌ c s) = code c ∷ codes s

unfoldable pub Text-discrete : Discrete Text
Text-discrete = hlevel ℕ_discrete

-- `s == t`.
abbrev pub same : Text → Text → Bool
same s t = ite (Text-discrete s t) true false

-- `s in l` for a list of texts.
abbrev pub one_of : Text → List Text → Bool
one_of s [] = false
one_of s (t ∷ l) = same s t || one_of s l

abbrev pub lower_char : ℕ → ℕ
lower_char c = if leb b'A' c && leb c b'Z' then c + 32 else c

-- `s.lower()`.
abbrev pub lower : Text → Text
lower = map lower_char

-- What `str.isspace` says of an ASCII character.
abbrev pub is_space : ℕ → Bool
is_space c = (leb 9 c && leb c 13) || (leb 28 c && leb c 32)

abbrev pub is_crlf : ℕ → Bool
is_crlf c = (c == 13) || (c == 10)

-- `s.lstrip(…)` and `s.rstrip(…)` for the characters of a class.
abbrev pub lstrip : (ℕ → Bool) → Text → Text
lstrip p [] = []
lstrip p (c ∷ s) = let rest = lstrip p s in if p c then rest else c ∷ s

abbrev pub rstrip : (ℕ → Bool) → Text → Text
rstrip p [] = []
rstrip p (c ∷ s) = elim (rstrip p s) [ [] ↦ if p c then [] else c ∷ [] | d ∷ r ↦ c ∷ d ∷ r ]

-- `s.strip()`.
abbrev pub strip : Text → Text
strip s = rstrip is_space (lstrip is_space s)

-- `s.split()`, with the word that is being read.
abbrev pub words_from : Text → Text → List Text
words_from [] [] = []
words_from (d ∷ word) [] = (d ∷ word) ∷ []
words_from [] (c ∷ s) = words_from (if is_space c then [] else c ∷ []) s
words_from (d ∷ word) (c ∷ s) = elim (is_space c) [
  | true ↦ (d ∷ word) ∷ words_from [] s
  | false ↦ words_from (d ∷ word ++ c ∷ []) s
]

abbrev pub split_space : Text → List Text
split_space = words_from []

-- `s.partition(c)` at one character: what stands before it, and what after, if it is there.
abbrev pub cut_at : ℕ → Text → Text × Option Text
cut_at c [] = ([], none)
cut_at c (d ∷ s) =
    let (before, after) = cut_at c s in if d == c then ([], some s) else (d ∷ before, after)

-- `s.split(c)` at one character.
abbrev pub split_char : ℕ → Text → List Text
split_char c [] = [] ∷ []
split_char c (d ∷ s) = elim (split_char c s) [
  | [] ↦ (d ∷ []) ∷ []
  | p ∷ parts ↦ if d == c then [] ∷ p ∷ parts else (d ∷ p) ∷ parts
]

-- `sep.join(parts)`.
abbrev pub join : Text → List Text → Text
join sep [] = []
join sep (p ∷ []) = p
join sep (p ∷ q ∷ parts) = p ++ (sep ++ join sep (q ∷ parts))

abbrev pub starts_with : Text → Text → Bool
starts_with s [] = true
starts_with [] (p ∷ pre) = false
starts_with (c ∷ s) (p ∷ pre) = (c == p) && starts_with s pre

abbrev pub ends_in_newline : Text → Bool
ends_in_newline [] = false
ends_in_newline (c ∷ []) = c == 10
ends_in_newline (c ∷ d ∷ s) = ends_in_newline (d ∷ s)

-- `s[-n:]`.
abbrev pub last : ℕ → Text → Text
last n s = drop (length s - n) s

-- `StringIO.readline`: up to the next line feed, which belongs to the line, and the text after it.
abbrev pub readline : Text → Text × Text
readline [] = ([], [])
readline (c ∷ s) =
    let (line, rest) = readline s in if c == 10 then (c ∷ [], s) else (c ∷ line, rest)

abbrev pub has : ℕ → Text → Bool
has c = any_of (λ d. d == c)

-- `s.split(sep)` for a separator that is not empty; `skip` characters of one are still to pass.
abbrev pub split_skip : Text → ℕ → Text → List Text
split_skip sep skip [] = [] ∷ []
split_skip sep (suc skip) (c ∷ s) = split_skip sep skip s
split_skip sep zero (c ∷ s) = elim (starts_with (c ∷ s) sep) [
  | true ↦ [] ∷ split_skip sep (length sep - 1) s
  | false ↦ elim (split_skip sep 0 s) [ [] ↦ (c ∷ []) ∷ [] | p ∷ parts ↦ (c ∷ p) ∷ parts ]
]

abbrev pub split_on : Text → Text → List Text
split_on sep = split_skip sep 0

-- `needle in text`
unfoldable pub is_in : Text → Text → Bool
is_in needle [] = is_empty needle
is_in needle (c ∷ s) = starts_with (c ∷ s) needle || is_in needle s
