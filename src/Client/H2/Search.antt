-- ===== src/Client/H2/Search.antt =====
-- The search of a header's bytes in the last response of the HTTP/2 client in
-- framework/deproxy/deproxy_client.py, which steps over the heads of CONTINUATION frames, and that it
-- ends.
use tempesta_test.Base.{
  ℕ, zero, suc, ◌+◌, ◌-◌, ◌*◌, ◌≤◌, ◌<◌, ◌≡◌, ◌≢◌, refl, Bool, true, false, [], ◌∷◌, Option, none,
  some, if◌then◌else◌, ◌==◌, ltb, length, get_elem?, take, drop, min, Result, ok, raise, ◌>>=◌,
  no_fuel, index_error, >>=-IsFueled, >>=-eq-ok, Bool-cases, inl, inr, ap, ◌∙◌, arith,
}
use tempesta_test.Text.{Text}

-- `buffer[i]`, for an `i` that is not negative.
unfoldable pub byte_at : Text → ℕ → Result ℕ
byte_at buffer i = elim (get_elem? buffer i) [ none ↦ raise index_error | some b ↦ ok b ]

-- `int.from_bytes(bytes, "big")`, behind the bytes that are read already.
unfoldable pub from_bytes : ℕ → Text → ℕ
from_bytes n [] = n
from_bytes n (b ∷ s) = from_bytes (n * 256 + b) s

-- `__calculate_frame_length`; `none` is -1. The type of a CONTINUATION frame is 9.
unfoldable pub calculate_frame_length : Text → ℕ → Result (Option ℕ)
calculate_frame_length buffer pos = do
  frame_type ← byte_at buffer (pos + 3)
  ok (if frame_type == 9 then some (from_bytes 0 (take 3 (drop pos buffer))) else none)

-- The loop over `part_len` bytes of a frame, with `start` for `bpos + skip`; `none` if a byte is another.
unfoldable pub match_part : Text → Text → ℕ → ℕ → ℕ → Result (Option ℕ)
match_part buffer header start hpos zero = ok (some hpos)
match_part buffer header start hpos (suc part_len) = do
  b ← byte_at buffer (start + hpos)
  h ← byte_at header hpos
  (elim (b == h) [ true ↦ match_part buffer header start (hpos + 1) part_len | false ↦ ok none ])

-- The `while` loop at a place of the buffer.
unfoldable pub match_header : ℕ → Text → Text → ℕ → ℕ → ℕ → Result Bool
match_header zero buffer header bpos hpos skip = raise no_fuel
match_header (suc f) buffer header bpos hpos skip = elim (ltb hpos (length header)) [
  | false ↦ ok true
  | true ↦ do
    b ← byte_at buffer (bpos + hpos + skip)
    h ← byte_at header hpos
    (elim (b == h) [
      | true ↦ match_header f buffer header bpos (hpos + 1) skip
      | false ↦ do
        part ← calculate_frame_length buffer (bpos + hpos + skip)
        (elim part [
          | none ↦ ok false
          | some part_len ↦ do
            found ←
                match_part buffer header (bpos + (skip + 9)) hpos
                  (min part_len (length header - hpos))
            (elim found [
              | none ↦ ok false
              | some next ↦ match_header f buffer header bpos next (skip + 9)
            ])
        ])
    ])
]

-- The `for` loop, with the number of places that are left; each gets a round for each byte of the
-- buffer and one more.
unfoldable pub search_header : Text → Text → ℕ → ℕ → Result Bool
search_header buffer header bpos zero = ok false
search_header buffer header bpos (suc count) = do
  b ← byte_at buffer bpos
  first ← byte_at header 0
  (elim (b == first) [
    | false ↦ search_header buffer header (bpos + 1) count
    | true ↦ do
      equal ← match_header (suc (length buffer)) buffer header bpos 0 0
      (elim equal [ true ↦ ok true | false ↦ search_header buffer header (bpos + 1) count ])
  ])

unfoldable pub check_header_presence_in_last_response_buffer : Text → Text → Result Bool
unfolding search_header match_header match_part calculate_frame_length from_bytes byte_at
check_header_presence_in_last_response_buffer buffer header =
    if length header == 0
    then ok true
    else if ltb (length buffer) (length header)
    then ok false
    else search_header buffer header 0 (length buffer + 1 - length header)

choose-IsFueled {ℓ} :
    {A : Type ℓ} (b : Bool) (x y : Result A)
    → x ≢ raise no_fuel
    → y ≢ raise no_fuel
    → elim b [ true ↦ x | false ↦ y ] ≢ raise no_fuel
choose-IsFueled true x y h k = h
choose-IsFueled false x y h k = k

option-IsFueled {ℓ κ} :
    {A : Type ℓ} {B : Type κ} (o : Option A) (x : Result B) (next : A → Result B)
    → x ≢ raise no_fuel
    → ((a : A) → o ≡ some a → next a ≢ raise no_fuel)
    → elim o [ none ↦ x | some a ↦ next a ] ≢ raise no_fuel
option-IsFueled none x next h k = h
option-IsFueled (some a) x next h k = k a refl

byte_at-lt : (s : Text) (i b : ℕ) → byte_at s i ≡ ok b → i < length s
unfolding byte_at
byte_at-lt [] i b h = absurd (ground arith)
byte_at-lt (c ∷ s) zero b h = omega arith
byte_at-lt (c ∷ s) (suc i) b h = omega (arith, byte_at-lt s i b h)

byte_at-IsFueled : (s : Text) (i : ℕ) → byte_at s i ≢ raise no_fuel
unfolding byte_at
byte_at-IsFueled s i = elim (get_elem? s i) [ none ↦ ground arith | some b ↦ ground arith ]

calculate_frame_length-IsFueled :
    (buffer : Text) (pos : ℕ) → calculate_frame_length buffer pos ≢ raise no_fuel
unfolding calculate_frame_length
calculate_frame_length-IsFueled buffer pos =
    >>=-IsFueled (byte_at buffer (pos + 3)) _ (byte_at-IsFueled buffer (pos + 3))
      (λ b e. ground arith)

match_part-IsFueled :
    (buffer header : Text) (start hpos part_len : ℕ)
    → match_part buffer header start hpos part_len ≢ raise no_fuel
unfolding match_part
match_part-IsFueled buffer header start hpos zero = ground arith
match_part-IsFueled buffer header start hpos (suc n) =
    >>=-IsFueled (byte_at buffer (start + hpos)) _ (byte_at-IsFueled buffer (start + hpos)) (λ b e.
      >>=-IsFueled (byte_at header hpos) _ (byte_at-IsFueled header hpos) (λ h e'.
        choose-IsFueled (b == h) _ _ (match_part-IsFueled buffer header start (hpos + 1) n)
          (ground arith)))

match_part-le :
    (buffer header : Text) (start hpos part_len next : ℕ)
    → match_part buffer header start hpos part_len ≡ ok (some next)
    → hpos ≤ next
unfolding match_part
match_part-le buffer header start hpos zero next h = ground arith
match_part-le buffer header start hpos (suc n) next h =
    let (b, eb, compared) = >>=-eq-ok (byte_at buffer (start + hpos)) _ h in
    let (c, ec, found) = >>=-eq-ok (byte_at header hpos) _ compared in
    elim (Bool-cases (b == c)) [
      | inl same ↦
          omega (arith, match_part-le buffer header start (hpos + 1) n next (rw (same) at found))
      | inr other ↦ absurd (ground (arith, rw (other) at found))
    ]

match_header-IsFueled :
    (f : ℕ) (buffer header : Text) (bpos hpos skip : ℕ)
    → 1 ≤ f
    → length buffer < f + (bpos + hpos + skip)
    → match_header f buffer header bpos hpos skip ≢ raise no_fuel
unfolding match_header
match_header-IsFueled zero buffer header bpos hpos skip some_fuel enough = elim some_fuel [ ]
match_header-IsFueled (suc f) buffer header bpos hpos skip some_fuel enough =
    choose-IsFueled (ltb hpos (length header)) _ _
      (>>=-IsFueled (byte_at buffer (bpos + hpos + skip)) _ (byte_at-IsFueled buffer _) (λ b read.
        let within = byte_at-lt buffer _ b read in
        >>=-IsFueled (byte_at header hpos) _ (byte_at-IsFueled header hpos) (λ h e.
          choose-IsFueled (b == h) _ _
            (match_header-IsFueled f buffer header bpos (hpos + 1) skip (omega arith) (omega arith))
            (>>=-IsFueled (calculate_frame_length buffer (bpos + hpos + skip)) _
              (calculate_frame_length-IsFueled buffer _)
              (λ part e'. option-IsFueled part _ _ (ground arith) (λ part_len e''.
                >>=-IsFueled
                  (match_part buffer header (bpos + (skip + 9)) hpos
                    (min part_len (length header - hpos)))
                  _ (match_part-IsFueled buffer header _ hpos _)
                  (λ found matched. option-IsFueled found _ _ (ground arith) (λ next is_next.
                    let further =
                      match_part-le buffer header _ hpos _ next (matched ∙ ap ok is_next) in
                    match_header-IsFueled f buffer header bpos next (skip + 9) (omega arith)
                      (omega arith)))))))))
      (ground arith)

search_header-IsFueled :
    (buffer header : Text) (bpos count : ℕ) → search_header buffer header bpos count ≢ raise no_fuel
unfolding search_header
search_header-IsFueled buffer header bpos zero = ground arith
search_header-IsFueled buffer header bpos (suc n) =
    >>=-IsFueled (byte_at buffer bpos) _ (byte_at-IsFueled buffer bpos) (λ b e.
      >>=-IsFueled (byte_at header 0) _ (byte_at-IsFueled header 0) (λ h e'.
        choose-IsFueled (b == h) _ _
          (>>=-IsFueled (match_header (suc (length buffer)) buffer header bpos 0 0) _
            (match_header-IsFueled (suc (length buffer)) buffer header bpos 0 0 (omega arith)
              (omega arith))
            (λ equal e''.
              choose-IsFueled equal _ _ (ground arith)
                (search_header-IsFueled buffer header (bpos + 1) n)))
          (search_header-IsFueled buffer header (bpos + 1) n)))

-- The search of a header's bytes in the last response, which steps over the heads of CONTINUATION
-- frames, ends within one round more at each place than the buffer has bytes, for any buffer and
-- any header: it returns, or raises an exception at the end of the buffer.
header_presence-IsFueled :
    (buffer header : Text)
    → check_header_presence_in_last_response_buffer buffer header ≢ raise no_fuel
unfolding check_header_presence_in_last_response_buffer
header_presence-IsFueled buffer header =
    ground (arith, search_header-IsFueled buffer header 0 (length buffer + 1 - length header))
