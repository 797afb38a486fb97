-- ===== src/Suite/Capture.antt =====
-- The name of the file that tcpdump writes: `__update_tcpdump_filename` of
-- framework/test_suite/tester.py.
use tempesta_test.Base.{
  ℕ, suc, ◌+◌, ◌≡◌, refl, ap, true, false, List, [], ◌∷◌, ◌++◌, none, some, if◌then◌else◌, Result,
  ok, raise, value_error, arith, any_of,
}
use tempesta_test.Base.Int.{ℤ, pos, negsuc, ◌+ℤ◌}
use tempesta_test.Text.{
  Text, codes, is_in, split_char, has, is_space, int_of, to_base, int_of-to_base, to_base-no_space,
}

-- `str` of an integer.
abbrev pub show_int : ℤ → Text
show_int (pos n) = to_base 10 n
show_int (negsuc n) = codes "-" ++ to_base 10 (suc n)

-- The name that a list of words makes: the first word and the next number.
abbrev next_name : Text → List Text → Result Text
next_name test_id (name ∷ n ∷ rest) = elim (int_of 10 n) [
  | none ↦ raise value_error
  | some i ↦ ok (name ++ (codes " " ++ show_int (i +ℤ pos 1)))
]
next_name test_id _ = ok (test_id ++ codes " 2")

-- `__update_tcpdump_filename`: the identifier of the test, and the global `last_test_id`. What it
-- returns is the new `last_test_id` too.
unfoldable pub update_tcpdump_filename : Text → Text → Result Text
update_tcpdump_filename test_id last_test_id =
    if is_in test_id last_test_id
    then next_name test_id (split_char b' ' last_test_id)
    else ok test_id

no_space_has : (s : Text) → any_of is_space s ≡ false → has b' ' s ≡ false
no_space_has [] h = refl
no_space_has (c ∷ s) h = ground (arith, no_space_has s)

split_char_none : (s : Text) → has b' ' s ≡ false → split_char b' ' s ≡ s ∷ []
split_char_none [] h = refl
split_char_none (c ∷ s) h = rw (split_char_none s (ground arith)) (ground arith)

split_char-append :
    (s t : Text)
    → has b' ' s ≡ false
    → has b' ' t ≡ false
    → split_char b' ' (s ++ b' ' ∷ t) ≡ s ∷ t ∷ []
split_char-append [] t h k = rw (split_char_none t k)
split_char-append (c ∷ s) t h k = rw (split_char-append s t (ground arith) k) (ground arith)

-- If the last name of a tcpdump file is a name without spaces, a space and a number, and the
-- identifier of the test occurs in it, then the new name is that name with the next number,
-- whether or not it is the identifier of the test.
update_tcpdump_filename-numbered :
    (test_id name : Text) (n : ℕ)
    → has b' ' name ≡ false
    → is_in test_id (name ++ b' ' ∷ to_base 10 n) ≡ true
    → update_tcpdump_filename test_id (name ++ b' ' ∷ to_base 10 n)
      ≡ ok (name ++ b' ' ∷ to_base 10 (n + 1))
unfolding update_tcpdump_filename
update_tcpdump_filename-numbered test_id name n h k =
    let words =
      split_char-append name (to_base 10 n) h
        (no_space_has (to_base 10 n) (to_base-no_space 10 n (omega arith) (omega arith))) in
    let plus : pos n +ℤ pos 1 ≡ pos (n + 1) = ground arith in
    rw (k, words, int_of-to_base 10 n (omega arith) (omega arith), next_name)
      (ap (λ i. ok (name ++ b' ' ∷ show_int i)) plus)
