-- ===== src/Headers/Multimap.antt =====
-- The abstract view of `HeaderCollection` of framework/deproxy/deproxy_message.py: the spelling of
-- names, and the order of headers of different names, are forgotten.
use mathlib.Core.Quot
use mathlib.Core.Quot.{Quot, Quot-set}
use tempesta_test.Base.{
  ◌≡◌, refl, sym, ap, ◌∙◌, ◌↔◌, Bool-cases, true, false, List, [], ◌∷◌, inl, inr, ℕ_discrete, arith,
}
use tempesta_test.Text.{Text, same, lower, same_iff}
use tempesta_test.Headers.Methods.{Header, HeaderCollection, values_of, find_all}

-- One change that no lookup sees: another spelling of a name, or two headers of different names that
-- change places.
pub data Moves : List Header → List Header → Type 0 where
  respells : (m n v : Text) (l : List Header) → lower m ≡ lower n → Moves ((m, v) ∷ l) ((n, v) ∷ l)
  swaps :
      (h k : Header) (l : List Header)
      → same (lower h.0) (lower k.0) ≡ false
      → Moves (h ∷ k ∷ l) (k ∷ h ∷ l)
  keeps : (h : Header) (l l' : List Header) → Moves l l' → Moves (h ∷ l) (h ∷ l')

abbrev pub Multimap : Type 0
Multimap = Quot Moves

abbrev pub multimap : HeaderCollection → Multimap
multimap c = Quot.mk c.headers

Texts-set : IsSet (List Text)
Texts-set = hlevel (ℕ_discrete)

values_of-Moves :
    (name : Text) (l l' : List Header) → Moves l l' → values_of name l ≡ values_of name l'
unfolding values_of
values_of-Moves name l l' (respells m n v r e) = rw e refl
values_of-Moves name l l' (swaps h k r e) = ground (
  arith,
  same_iff (lower h.0) (lower name),
  same_iff (lower k.0) (lower name),
  same_iff (lower h.0) (lower k.0),
)
values_of-Moves name l l' (keeps h r r' move) = ground (arith, values_of-Moves name r r' move)

-- The values of a name.
pub values_in : Text → Multimap → List Text
values_in name = Quot.lift Texts-set (values_of name) (values_of-Moves name)

abbrev mk_of : List Header → Multimap
mk_of l = Quot.mk l

put : Header → Multimap → Multimap
put h = Quot.lift Quot-set (λ l. Quot.mk (h ∷ l)) (λ l l' move. Quot.sound (keeps h l l' move))

values_in-mk : (name : Text) (l : List Header) → values_in name (Quot.mk l) ≡ values_of name l
unfolding values_in
values_in-mk name l = refl

put-mk :
    (h : Header) (l l' : List Header)
    → ◌≡◌ {A = Multimap} (Quot.mk l) (Quot.mk l')
    → ◌≡◌ {A = Multimap} (Quot.mk (h ∷ l)) (Quot.mk (h ∷ l'))
unfolding put
put-mk h l l' e = ap (put h) e

-- Equal multimaps have the same values.
values_of-mk :
    (l l' : List Header)
    → ◌≡◌ {A = Multimap} (Quot.mk l) (Quot.mk l')
    → (name : Text) → values_of name l ≡ values_of name l'
values_of-mk l l' e name = sym (values_in-mk name l) ∙ ap (values_in name) e ∙ values_in-mk name l'

-- A header whose value is found first can be put in front.
bring :
    (n v : Text) (vs : List Text) (l : List Header)
    → values_of n l ≡ v ∷ vs
    → (q : List Header) × (◌≡◌ {A = Multimap} (Quot.mk l) (Quot.mk ((n, v) ∷ q)))
unfolding values_of
bring n v vs [] h = absurd (ground arith)
bring n v vs ((m, w) ∷ l) h = elim (Bool-cases (same (lower m) (lower n))) [
  | inl found ↦ (
    l,
    Quot.sound (respells m n w l ((same_iff (lower m) (lower n)).0 found))
        ∙ ap (λ (x : Text). mk_of ((n, x) ∷ l)) (value found),
  )
  | inr other ↦
      let (q, e) = bring n v vs l (ground arith) in
      ((m, w) ∷ q, put-mk (m, w) l ((n, v) ∷ q) e ∙ Quot.sound (swaps (m, w) (n, v) q other))
]
  where
    value : same (lower m) (lower n) ≡ true → w ≡ v
    value found = ground arith

values_of-cons :
    (h : Header) (l l' : List Header)
    → ((name : Text) → values_of name (h ∷ l) ≡ values_of name (h ∷ l'))
    → (name : Text) → values_of name l ≡ values_of name l'
unfolding values_of
values_of-cons h l l' e name = ground (arith, e name)

mk_of_values :
    (l l' : List Header)
    → ((name : Text) → values_of name l ≡ values_of name l')
    → ◌≡◌ {A = Multimap} (Quot.mk l) (Quot.mk l')
unfolding values_of
mk_of_values [] [] e = refl
mk_of_values [] ((m, w) ∷ l) e = absurd (ground (arith, e m, same_iff (lower m) (lower m)))
mk_of_values ((n, v) ∷ l) l' e =
    let (q, brought) =
      bring n v (values_of n l) l' (ground (arith, e n, same_iff (lower n) (lower n))) in
    put-mk (n, v) l q
      (mk_of_values l q
        (values_of-cons (n, v) l q (λ name. e name ∙ values_of-mk l' ((n, v) ∷ q) brought name)))
    ∙ sym brought

-- Two collections are equal up to the spelling of names and the order of headers of different
-- names exactly if `find_all` gives the same for every name in both.
pub multimap_iff :
    (c d : HeaderCollection)
    → (multimap c ≡ multimap d) ↔ ((name : Text) → find_all c name ≡ find_all d name)
unfolding find_all
multimap_iff c d = (values_of-mk c.headers d.headers, mk_of_values c.headers d.headers)
