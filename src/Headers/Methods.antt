-- ===== src/Headers/Methods.antt =====
-- `HeaderCollection` of framework/deproxy/deproxy_message.py: its fields and the methods that look
-- up, add, replace, remove and list headers.
use tempesta_test.Base.{
  ℕ, Bool, true, false, List, [], ◌∷◌, ◌++◌, Option, none, some, if◌then◌else◌, map, any_of,
}
use tempesta_test.Text.{Text, codes, same, lower}

-- A name as it was written, and its value.
abbrev pub Header : Type 0
Header = Text × Text

pub record HeaderCollection : Type 0 where
  pub headers : List Header
  pub is_expected : Bool
  pub expected_time_delta : ℕ

-- `header[0].lower() == name.lower()`
abbrev pub names : Text → Header → Bool
names name header = same (lower header.0) (lower name)

-- `HeaderCollection()`.
abbrev pub no_headers : HeaderCollection
no_headers = record { headers = []; is_expected = false; expected_time_delta = 0 }

unfoldable pub add : HeaderCollection → Text → Text → HeaderCollection
add c name value = record c { headers = c.headers ++ (name, value) ∷ [] }

unfoldable pub add_all : HeaderCollection → List Header → HeaderCollection
add_all c [] = c
add_all c ((name, value) ∷ l) = add_all (add c name value) l

-- `HeaderCollection(mapping)`, by the items of the mapping.
unfoldable pub from_mapping : List Header → HeaderCollection
unfolding add_all add
from_mapping = add_all no_headers

unfoldable pub set_expected : HeaderCollection → ℕ → HeaderCollection
set_expected c delta = record c { is_expected = true; expected_time_delta = delta }

-- `name in headers`
unfoldable pub contains : HeaderCollection → Text → Bool
contains c name = any_of (names name) c.headers

unfoldable pub first_value : Text → List Header → Option Text
first_value key [] = none
first_value key ((name, value) ∷ l) =
    if names key (name, value) then some value else first_value key l

-- `headers[key]`; `none` is the `None` that the method returns by falling off its end.
unfoldable pub get_item : HeaderCollection → Text → Option Text
unfolding first_value
get_item c key = first_value key c.headers

-- The loop of `__setitem__`: the list with the first match replaced, if there is a match.
unfoldable pub replace_first : Text → Text → List Header → Option (List Header)
replace_first key value [] = none
replace_first key value ((name, old) ∷ l) = elim (names key (name, old)) [
  | true ↦ some ((name, value) ∷ l)
  | false ↦ elim (replace_first key value l) [ none ↦ none | some l' ↦ some ((name, old) ∷ l') ]
]

-- `headers[key] = value`
unfoldable pub set_item : HeaderCollection → Text → Text → HeaderCollection
unfolding replace_first add
set_item c key value = elim (replace_first key value c.headers) [
  | none ↦ add c (lower key) value
  | some l ↦ record c { headers = l }
]

unfoldable pub values_of : Text → List Header → List Text
values_of name [] = []
values_of name ((n, value) ∷ l) =
    let rest = values_of name l in if names name (n, value) then value ∷ rest else rest

unfoldable pub find_all : HeaderCollection → Text → List Text
unfolding values_of
find_all c name = values_of name c.headers

unfoldable pub without : Text → List Header → List Header
without name [] = []
without name (h ∷ l) = let rest = without name l in if names name h then rest else h ∷ rest

unfoldable pub delete_all : HeaderCollection → Text → HeaderCollection
unfolding without
delete_all c name = record c { headers = without name c.headers }

unfoldable pub keys : HeaderCollection → List Text
keys c = map (λ h. lower h.0) c.headers

unfoldable pub values : HeaderCollection → List Text
values c = map (λ h. h.1) c.headers

-- `headers.get(key, default)`; the default of every call is `None`.
unfoldable pub get : HeaderCollection → Text → Option Text
unfolding contains get_item
get c key = if contains c key then get_item c key else none

abbrev pub crlf : Text
crlf = codes "\r\n"

unfoldable pub show_lines : List Header → Text
show_lines [] = []
show_lines ((name, value) ∷ l) = name ++ (codes ": " ++ (value ++ (crlf ++ show_lines l)))

-- `str(headers)`
unfoldable pub show : HeaderCollection → Text
unfolding show_lines
show c = show_lines c.headers
