-- ===== src/Helpers/Ports.antt =====
-- framework/helpers/port_checks.py: the ports that a server needs, compared with the output of
-- `netstat` and of `ss`, which the nodes give.
use tempesta_test.Base.{
  ℕ, zero, suc, ◌-◌, ◌≡◌, ◌≢◌, Bool, true, false, not, ◌&&◌, ◌||◌, List, [], ◌∷◌, ◌++◌, none, some,
  if◌then◌else◌, ◌==◌, length, drop, get_elem?, get_last?, is_empty, Result, ok, raise, ◌>>=◌, ◌>>◌,
  check, value_error, index_error, plain_exception, >>=-eq-ok, All, Bool-cases, inl, inr, arith,
}
use tempesta_test.Base.Int.{ℤ, pos, negsuc}
use tempesta_test.Text.{
  Text, codes, same, same_iff, split_space, split_char, starts_with, int_of, to_base,
}
use tempesta_test.Config.Parse.{splitlines}

abbrev pub PortChecks : Type 0
PortChecks = List (Text × ℕ)

-- `add_port_to_checks`, where `is_address` says whether `ipaddress.ip_address` takes the text.
unfoldable pub add_port_to_checks : (Text → Bool) → Text → ℤ → PortChecks → Result PortChecks
add_port_to_checks is_address ip (negsuc n) l = raise value_error
add_port_to_checks is_address ip (pos zero) l = raise value_error
add_port_to_checks is_address ip (pos (suc n)) l =
    check (is_address ip) value_error >> ok (l ++ (ip, suc n) ∷ [])

unfoldable pub clean_ports_to_checks : PortChecks → PortChecks
clean_ports_to_checks l = []

abbrev pub words_of : List Text → List (List Text)
words_of [] = []
words_of (line ∷ l) = split_space line ∷ words_of l

-- The lines of `netstat` behind its two head lines, as words.
abbrev pub listen_lines : Text → List (List Text)
listen_lines netstat = words_of (drop 2 (splitlines netstat))

abbrev pub match_exact : Text → ℕ → Text
match_exact ip port = ip ++ b':' ∷ to_base 10 port

abbrev pub match_common : ℕ → Text
match_common port = codes "0.0.0.0:" ++ to_base 10 port

abbrev pub word_at : ℕ → List Text → Result Text
word_at k l = elim (get_elem? l k) [ none ↦ raise index_error | some a ↦ ok a ]

-- The loop over the lines, for one address and port.
unfoldable pub check_lines : Text → ℕ → List (List Text) → Result (Unit {0})
check_lines ip port [] = ok tt
check_lines ip port (line ∷ l) = word_at 3 line >>= λ a.
    check (not (same a (match_common port) || same a (match_exact ip port))) plain_exception
    >> check_lines ip port l

unfoldable pub check_each_port : PortChecks → List (List Text) → Result (Unit {0})
unfolding check_lines
check_each_port [] listen = ok tt
check_each_port ((ip, port) ∷ l) listen = check_lines ip port listen >> check_each_port l listen

-- `check_ports_status`
unfoldable pub check_ports_status : Text → PortChecks → Result (Unit {0})
unfolding check_each_port
check_ports_status netstat checks = check_each_port checks (listen_lines netstat)

-- The set of established ports.
unfoldable pub established_ports : List Text → Result (List ℤ)
established_ports [] = ok []
established_ports (line ∷ l) =
    let rest = established_ports l in
    if is_empty line then rest else (elim (get_last? (split_char b':' line)) [
      | none ↦ raise index_error
      | some a ↦ elim (int_of 10 a) [
        | none ↦ raise value_error
        | some n ↦ rest >>= λ ports. ok (n ∷ ports)
      ]
    ])

abbrev same_port : ℕ → ℤ → Bool
same_port n (pos m) = n == m
same_port n (negsuc m) = false

abbrev pub has_port : ℕ → List ℤ → Bool
has_port n [] = false
has_port n (m ∷ l) = same_port n m || has_port n l

abbrev pub has_ports : List ℕ → List ℤ → Bool
has_ports [] l = true
has_ports (n ∷ ns) l = has_port n l && has_ports ns l

-- `check_ports_established`
unfoldable pub check_ports_established : Text → List ℕ → Result Bool
unfolding established_ports
check_ports_established addrport ports =
    established_ports (splitlines addrport) >>= λ l. ok (has_ports ports l)

-- `str.count`, of a text that is not empty: after a place that matches, its length is skipped.
unfoldable pub count_from : Text → ℕ → Text → ℕ
count_from needle skip [] = 0
count_from needle (suc k) (c ∷ s) = count_from needle k s
count_from needle zero (c ∷ s) =
    let found = count_from needle (length needle - 1) s in
    let missed = count_from needle zero s in
    if starts_with (c ∷ s) needle then suc found else missed

-- `number_of_tcp_connections`
unfoldable pub number_of_tcp_connections : Text → Text → ℕ
unfolding count_from
number_of_tcp_connections stdout port = count_from port 0 stdout

-- No line is about the port, at the address or at all addresses.
abbrev pub IsFree : Text → ℕ → List Text → Type 0
IsFree ip port line =
    (a : Text) × (get_elem? line 3 ≡ some a) × (a ≢ match_exact ip port) × (a ≢ match_common port)

word_at-eq-ok : (k : ℕ) (l : List Text) (a : Text) → word_at k l ≡ ok a → get_elem? l k ≡ some a
word_at-eq-ok k l a h = ground arith

not_same : (a s : Text) → same a s ≡ false → a ≢ s
not_same a s h e = absurd (ground (arith, (same_iff a s).1 e))

matches_neither :
    (a s t : Text) → check (not (same a s || same a t)) plain_exception ≡ ok tt → (a ≢ t) × (a ≢ s)
matches_neither a s t h = elim (Bool-cases (same a s)) [
  | inl found ↦ absurd (ground (arith, rw (found) at h))
  | inr other ↦ elim (Bool-cases (same a t)) [
    | inl found ↦ absurd (ground (arith, rw (other, found) at h))
    | inr missing ↦ (not_same a t missing, not_same a s other)
  ]
]

check_lines-AreFree :
    (ip : Text) (port : ℕ) (l : List (List Text))
    → check_lines ip port l ≡ ok tt
    → All (IsFree ip port) l
unfolding check_lines
check_lines-AreFree ip port [] h = tt
check_lines-AreFree ip port (line ∷ l) h =
    let (a, found, h') = >>=-eq-ok (word_at 3 line) _ h in
    let (u, different, rest) = >>=-eq-ok (check _ plain_exception) _ h' in
    let (not_exact, not_common) =
      matches_neither a (match_common port) (match_exact ip port) different in
    ((a, word_at-eq-ok 3 line a found, not_exact, not_common), check_lines-AreFree ip port l rest)

check_each_port-AreFree :
    (listen : List (List Text)) (checks : PortChecks)
    → check_each_port checks listen ≡ ok tt
    → All (λ c. All (IsFree c.0 c.1) listen) checks
unfolding check_each_port
check_each_port-AreFree listen [] h = tt
check_each_port-AreFree listen ((ip, port) ∷ l) h =
    let (u, first, rest) = >>=-eq-ok (check_lines ip port listen) _ h in
    (check_lines-AreFree ip port listen first, check_each_port-AreFree listen l rest)

-- If `check_ports_status` returns, then no line of the output is about an address and port that were
-- added, or about such a port at all addresses.
check_ports_status-AreFree :
    (netstat : Text) (checks : PortChecks)
    → check_ports_status netstat checks ≡ ok tt
    → All (λ c. All (IsFree c.0 c.1) (listen_lines netstat)) checks
unfolding check_ports_status
check_ports_status-AreFree netstat = check_each_port-AreFree (listen_lines netstat)
