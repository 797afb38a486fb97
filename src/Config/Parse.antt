-- ===== src/Config/Parse.antt =====
-- `Config` of framework/services/tempesta.py: what is read of a new configuration, the certificates
-- that are made for it, and the configuration of the logger.
use tempesta_test.Base.{
  ℕ, ◌≡◌, refl, Bool, true, false, not, ◌&&◌, ◌||◌, List, [], ◌∷◌, ◌++◌, Option, none, some,
  if◌then◌else◌, ◌==◌, leb, is_empty, Result, ok, raise, ◌>>=◌, drop, runtime_error,
  attribute_error, Bool-cases, inl, inr, arith,
}
use tempesta_test.Text.{
  Text, codes, same, is_in, starts_with, same_refl, lstrip, rstrip, cut_at, is_space,
}

-- The characters that end a line for `str.splitlines`.
abbrev pub is_line_break : ℕ → Bool
is_line_break c =
    (leb 10 c && leb c 13)
    || ((leb 28 c && leb c 30) || ((c == 133) || ((c == 8232) || (c == 8233))))

abbrev add_to_line : ℕ → List Text → List Text
add_to_line c [] = (c ∷ []) ∷ []
add_to_line c (line ∷ l) = (c ∷ line) ∷ l

-- The lines of a text; after a carriage return, a line feed belongs to it.
unfoldable pub lines_from : Bool → Text → List Text
lines_from after_return [] = []
lines_from after_return (c ∷ s) =
    let rest = lines_from (c == 13) s in
    if after_return && (c == 10)
    then rest
    else if is_line_break c
    then [] ∷ rest
    else add_to_line c rest

-- `str.splitlines`
abbrev pub splitlines : Text → List Text
splitlines = lines_from false

-- `l.strip(" \t;")`
abbrev pub is_margin : ℕ → Bool
is_margin c = (c == b' ') || ((c == 9) || (c == b';'))

-- The key and the value of a line, if it is no comment and has both.
unfoldable pub entry : Text → Option (Text × Text)
entry l =
    let parts = cut_at b' ' (rstrip is_margin (lstrip is_margin l)) in
    if starts_with l (codes "#") || (is_empty l || (same l (codes "{") || same l (codes "}")))
    then none
    else elim parts.1 [ none ↦ none | some value ↦ some (parts.0, value) ]

unfoldable pub entries : List Text → List (Text × Text)
entries [] = []
entries (l ∷ rest) = elim (entry l) [ none ↦ entries rest | some e ↦ e ∷ entries rest ]

-- The value that was set last, as a dict has it.
unfoldable pub get_last : Text → List (Text × Text) → Option Text
get_last key [] = none
get_last key ((k, v) ∷ l) = elim (get_last key l) [
  | some w ↦ some w
  | none ↦ if same k key then some v else none
]

-- `_cfg.get(key, "")`
abbrev pub or_blank : Option Text → Text
or_blank none = []
or_blank (some v) = v

-- The fields of `Config`; `logger_config` is the path that the logger's configuration has, and
-- `files` is what was copied to the node.
pub record Config : Type 0 where
  pub defconfig : Text
  pub is_tls : Bool
  pub tls_certificate : Option Text
  pub tls_certificate_key : Option Text
  pub mmap : Option Text
  pub logger_config : Option Text
  pub files : List (Option Text × Text)

-- The end of `__process_config`, with the entries of the configuration.
unfoldable pub process_entries : List (Text × Text) → Config → Config
process_entries cfg c =
    let listen = or_blank (get_last (codes "listen") cfg) in
    let access_log = or_blank (get_last (codes "access_log") cfg) in
    record c {
      is_tls = is_in (codes "https") listen || is_in (codes "h2") listen;
      tls_certificate = get_last (codes "tls_certificate") cfg;
      tls_certificate_key = get_last (codes "tls_certificate_key") cfg;
      mmap = if is_in (codes "mmap") access_log then some access_log else c.mmap;
    }

-- `__process_config`
unfoldable pub process_config : Config → Config
process_config c = process_entries (entries (splitlines c.defconfig)) c

abbrev is_missing : Option Text → Bool
is_missing none = true
is_missing (some v) = false

-- `__generate_tls_certs`. `generate` is `CertGenerator`, with the texts of the certificate and of
-- the key. A bare `raise` outside of an `except` is a `RuntimeError`.
unfoldable pub generate_tls_certs :
    (Option Text → Option Text → Result (Text × Text)) → Bool → Config → Result Config
generate_tls_certs generate custom_cert c =
    if custom_cert
    then ok c
    else if not c.is_tls
    then ok c
    else if is_missing c.tls_certificate && is_missing c.tls_certificate_key
    then raise runtime_error
    else (generate c.tls_certificate c.tls_certificate_key >>= λ made. ok (record c {
      files = c.files ++ (c.tls_certificate, made.0) ∷ (c.tls_certificate_key, made.1) ∷ [];
    }))

-- The longest start without white space.
abbrev word_of : Text → Text
word_of [] = []
word_of (c ∷ s) = let rest = word_of s in if is_space c then [] else c ∷ rest

-- `re.search(r"logger_config=([^\s]+)", s)`, the group.
unfoldable pub find_logger_config : Text → Option Text
find_logger_config [] = none
find_logger_config (c ∷ s) =
    let later = find_logger_config s in
    let word = word_of (drop 14 (c ∷ s)) in
    if starts_with (c ∷ s) (codes "logger_config=") && not (is_empty word) then some word else later

-- `__generate_clickhouse_config`; `given` is the path of the `tfw_config` that is passed.
unfoldable pub generate_clickhouse_config : Option Text → Config → Result Config
generate_clickhouse_config given c = elim c.mmap [
  | none ↦ ok c
  | some line ↦ if not (is_in (codes "mmap") line) then ok c else (elim given [
    | some path ↦ ok (record c { logger_config = some path })
    | none ↦ elim c.logger_config [
      | some path ↦ ok c
      | none ↦ elim (find_logger_config line) [
        | none ↦ raise attribute_error
        | some path ↦ ok (record c { logger_config = some path })
      ]
    ]
  ])
]

-- `set_defconfig`
unfoldable pub set_defconfig :
    (Option Text → Option Text → Result (Text × Text))
    → Text
    → Bool
    → Option Text
    → Config
    → Result Config
set_defconfig generate config custom_cert tfw_config c =
    if is_empty config
    then ok c
    else (generate_tls_certs generate custom_cert (process_config (record c { defconfig = config }))
        >>= generate_clickhouse_config tfw_config)

-- No entry of the configuration has the key.
unfoldable pub has_no : Text → List (Text × Text) → Bool
has_no key [] = true
has_no key ((k, v) ∷ l) = not (same k key) && has_no key l

get_last-has_no :
    (key : Text) (l : List (Text × Text)) → has_no key l ≡ true → get_last key l ≡ none
unfolding has_no get_last
get_last-has_no key [] h = refl
get_last-has_no key ((k, v) ∷ l) h = elim (Bool-cases (same k key)) [
  | inl here ↦ absurd (ground (arith, rw (here) at h))
  | inr other ↦ rw (get_last-has_no key l (rw (other) at h), other)
]

get_last-append :
    (key v : Text) (before after : List (Text × Text))
    → has_no key after ≡ true
    → get_last key (before ++ (key, v) ∷ after) ≡ some v
unfolding get_last
get_last-append key v [] after h = rw (get_last-has_no key after h, same_refl key)
get_last-append key v ((k, w) ∷ before) after h = rw (get_last-append key v before after h)

-- Only the last `listen` line decides whether the configuration uses TLS.
pub process_entries-last :
    (before after : List (Text × Text)) (v : Text) (c : Config)
    → has_no (codes "listen") after ≡ true
    → (process_entries (before ++ (codes "listen", v) ∷ after) c).is_tls
      ≡ (is_in (codes "https") v || is_in (codes "h2") v)
unfolding process_entries is_in
process_entries-last before after v c h = rw (get_last-append (codes "listen") v before after h)

-- A configuration without an access log keeps the `mmap` of the one before.
pub process_entries-mmap :
    (cfg : List (Text × Text)) (c : Config)
    → has_no (codes "access_log") cfg ≡ true
    → (process_entries cfg c).mmap ≡ c.mmap
unfolding process_entries is_in
process_entries-mmap cfg c h = rw (get_last-has_no (codes "access_log") cfg h)
