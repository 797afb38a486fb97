-- ===== src/Headers/Lookup.antt =====
-- What a lookup finds after each change of a collection, in terms of the names in lower case.
use tempesta_test.Base.{
  ◌≡◌, refl, ◌↔◌, ◌≢◌, true, false, List, [], ◌∷◌, ◌++◌, Option, none, some, if◌then◌else◌, arith,
  Option-cases, inl, inr, any_of,
}
use tempesta_test.Text.{Text, same, lower, lower_idem}
use tempesta_test.Headers.Methods.{
  Header, HeaderCollection, names, add, contains, first_value, get_item, replace_first, set_item,
  values_of, find_all, without, delete_all, get,
}

first_value-append :
    (j : Text) (l : List Header) (n v : Text)
    → first_value j (l ++ (n, v) ∷ []) ≡ (elim (first_value j l) [
      | none ↦ if same (lower n) (lower j) then some v else none
      | some w ↦ some w
    ])
unfolding first_value
first_value-append j [] n v = ground arith
first_value-append j ((m, w) ∷ l) n v = ground (arith, first_value-append j l n v)

replace_first-none :
    (k v : Text) (l : List Header) → replace_first k v l ≡ none → first_value k l ≡ none
unfolding replace_first first_value
replace_first-none k v [] h = refl
replace_first-none k v ((n, w) ∷ l) h = ground (arith, replace_first-none k v l)

first_value-replace_first :
    (k v j : Text) (l l' : List Header)
    → replace_first k v l ≡ some l'
    → first_value j l' ≡ (if same (lower k) (lower j) then some v else first_value j l)
unfolding replace_first first_value
first_value-replace_first k v j [] l' h = cc
first_value-replace_first k v j ((n, w) ∷ l) l' h = elim (Option-cases (replace_first k v l)) [
  | inl miss ↦ ground arith
  | inr (m, hit) ↦ ground (arith, first_value-replace_first k v j l m)
]

-- After `headers[key] = value` a lookup by any spelling of the key gives the value, and a lookup
-- by another name gives what it gave before.
get_item-set_item :
    (c : HeaderCollection) (key value j : Text)
    → get_item (set_item c key value) j
      ≡ (if same (lower key) (lower j) then some value else get_item c j)
unfolding get_item set_item
get_item-set_item c k v j = elim (Option-cases (replace_first k v c.headers)) [
  | inl miss ↦ ground (
    arith,
    first_value-append j c.headers (lower k) v,
    replace_first-none k v c.headers,
    lower_idem k,
  )
  | inr (l, hit) ↦ ground (arith, first_value-replace_first k v j c.headers l)
]

values_of-without :
    (k j : Text) (l : List Header)
    → values_of j (without k l) ≡ (if same (lower k) (lower j) then [] else values_of j l)
unfolding values_of without
values_of-without k j [] = ground arith
values_of-without k j ((n, v) ∷ l) = ground (arith, values_of-without k j l)

-- After `delete_all(name)` no value is found under the name in any spelling, and the values of
-- every other name are the same in the same order.
pub find_all-delete_all :
    (c : HeaderCollection) (name j : Text)
    → find_all (delete_all c name) j ≡ (if same (lower name) (lower j) then [] else find_all c j)
unfolding find_all delete_all
find_all-delete_all c k j = values_of-without k j c.headers

values_of-append :
    (j : Text) (l : List Header) (n v : Text)
    → values_of j (l ++ (n, v) ∷ [])
      ≡ values_of j l ++ (if same (lower n) (lower j) then v ∷ [] else [])
unfolding values_of
values_of-append j [] n v = ground arith
values_of-append j ((m, w) ∷ l) n v = ground (arith, values_of-append j l n v)

-- `add` puts the value behind the values that its name has in any spelling, and changes no other
-- name's values.
pub find_all-add :
    (c : HeaderCollection) (name value j : Text)
    → find_all (add c name value) j
      ≡ find_all c j ++ (if same (lower name) (lower j) then value ∷ [] else [])
unfolding find_all add
find_all-add c n v j = values_of-append j c.headers n v

abbrev pub first : List Text → Option Text
first [] = none
first (v ∷ l) = some v

first_value-values_of : (j : Text) (l : List Header) → first_value j l ≡ first (values_of j l)
unfolding first_value values_of
first_value-values_of j [] = refl
first_value-values_of j ((n, v) ∷ l) = ground (arith, first_value-values_of j l)

pub get_item-find_all : (c : HeaderCollection) (j : Text) → get_item c j ≡ first (find_all c j)
unfolding get_item find_all
get_item-find_all c j = first_value-values_of j c.headers

pub first_value-of_absent :
    (j : Text) (l : List Header) → any_of (names j) l ≡ false → first_value j l ≡ none
unfolding first_value
first_value-of_absent j [] h = refl
first_value-of_absent j ((n, v) ∷ l) h = ground (arith, first_value-of_absent j l)

-- `get` and the lookup by `[]` give the same for every name.
pub get-get_item : (c : HeaderCollection) (j : Text) → get c j ≡ get_item c j
unfolding get
get-get_item c j = ground (arith, first_value-of_absent j c.headers)

any_of-values_of : (j : Text) (l : List Header) → (any_of (names j) l ≡ true) ↔ (values_of j l ≢ [])
unfolding values_of
any_of-values_of j [] = ground arith
any_of-values_of j ((n, v) ∷ l) = ground (arith, any_of-values_of j l)

-- A name is in the collection exactly if `find_all` finds a value of it.
pub contains-find_all :
    (c : HeaderCollection) (j : Text) → (contains c j ≡ true) ↔ (find_all c j ≢ [])
unfolding contains find_all
contains-find_all c j = any_of-values_of j c.headers
