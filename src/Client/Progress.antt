-- ===== src/Client/Progress.antt =====
-- The client of framework/deproxy/deproxy_client.py writes until nothing is left: the rounds in which
-- the loop of framework/deproxy/deproxy_manager.py finds the socket writable.
use tempesta_test.Base.{
  ℕ, zero, suc, ◌+◌, ◌-◌, ◌≤◌, ◌<◌, ◌≡◌, refl, ap, sym, ◌∙◌, true, false, List, [], ◌∷◌, ◌++◌,
  Option, some, take, drop, is_empty, length, concat, get_elem?, ok, Result, ◌>>=◌, if◌then◌else◌,
  ltb, Bool-cases, inl, inr, arith, length-append, length-take, length-drop, length-set, append-nil,
  min,
}
use tempesta_test.Text.{Text}
use tempesta_test.Client.{Client, send_data, cut_sent, segment}
use tempesta_test.Client.Counting.{IsCounted}
use tempesta_test.Client.Sending.{pending, in_order, send_data-in_order}

-- One after another, while `_cur_req_num < _nrreq`.
unfoldable pub send_rounds : ℕ → (Text → Option ℕ) → Client → Result Client
send_rounds zero send c = ok c
send_rounds (suc f) send c =
    let next = send_data send c >>= send_rounds f send in
    if ltb c.cur_req_num c.nrreq then next else ok c

-- A socket that takes something of what it is given, if that is not empty.
abbrev pub Takes : (Text → Option ℕ) → Type 0
Takes send = (s : Text) → (n : ℕ) × (send s ≡ some n) × (n ≤ length s) × (min 1 (length s) ≤ n)

-- How many rounds are enough.
pub rounds : Client → ℕ
unfolding pending
rounds c = length (pending c) + (c.nrreq - c.cur_req_num)

get_elem?-some :
    {A : Type 0} (l : List A) (i : ℕ) → i < length l → (a : A) × (get_elem? l i ≡ some a)
get_elem?-some [] i h = absurd (ground arith)
get_elem?-some (x ∷ l) zero h = (x, refl)
get_elem?-some (x ∷ l) (suc i) h = get_elem?-some l i (omega arith)

is_empty-length : (s : Text) → is_empty s ≡ true → length s ≡ 0
is_empty-length [] h = refl
is_empty-length (c ∷ s) h = absurd (ground arith)

length_of_not_empty : (s : Text) → is_empty s ≡ false → 0 < length s
length_of_not_empty [] h = absurd (ground arith)
length_of_not_empty (c ∷ s) h = omega arith

segment-length :
    (n : ℕ) (s : Text)
    → (length (segment n s) ≤ length s) × (0 < length s → 0 < length (segment n s))
segment-length zero s = (omega arith, λ h. h)
segment-length (suc n) s =
    (omega (arith, length-take (suc n) s), λ h. omega (arith, length-take (suc n) s))

-- What one round does to the counters.
abbrev Went : Client → Client → Type 0
Went c d = IsCounted d × (d.cur_req_num ≤ d.nrreq) × (suc (rounds d) ≤ rounds c)

wire_and_pending :
    (c d : Client)
    → in_order d ≡ in_order c
    → length d.wire + length (pending d) ≡ length c.wire + length (pending c)
unfolding in_order
wire_and_pending c d order =
    omega
      (arith, length-append d.wire (pending d), length-append c.wire (pending c), ap length order)

cut_sent-wire :
    (sent : ℕ) (reqs : Text) (c : Client) → (cut_sent sent reqs c).wire ≡ c.wire ++ take sent reqs
unfolding cut_sent
cut_sent-wire sent reqs c = elim (Bool-cases (is_empty (drop sent reqs))) [
  | inl all ↦ rw (all, cut_sent)
  | inr more ↦ rw (more, cut_sent)
]

cut_sent-Went :
    (sent : ℕ) (reqs : Text) (c : Client)
    → IsCounted c
    → c.cur_req_num < c.nrreq
    → (0 < length reqs → 0 < sent)
    → in_order (cut_sent sent reqs c) ≡ in_order c
    → Went c (cut_sent sent reqs c)
unfolding cut_sent rounds
cut_sent-Went sent reqs c counted h some_sent order =
    let total = wire_and_pending c (cut_sent sent reqs c) order in
    let wire = ap length (cut_sent-wire sent reqs c) ∙ length-append c.wire (take sent reqs) in
    let same = length-set c.request_buffers c.cur_req_num (drop sent reqs) in
    elim (Bool-cases (is_empty (drop sent reqs))) [
      | inl all ↦
          let totals = rw all at total in
          let wires = rw all at wire in
          rw (all) (counted ∙ sym same, omega (arith, h), omega (arith, totals, wires, h))
      | inr more ↦
          let totals = rw more at total in
          let wires = rw more at wire in
          let left : 0 < length reqs =
            omega (arith, length_of_not_empty (drop sent reqs) more, length-drop sent reqs) in
          rw (more) (
            counted ∙ sym same,
            omega (arith, h),
            omega (arith, totals, wires, h, length-take sent reqs, some_sent left, left),
          )
    ]

send_data-Went :
    (send : Text → Option ℕ) (c : Client)
    → Takes send
    → IsCounted c
    → c.cur_req_num < c.nrreq
    → (d : Client) × (send_data send c ≡ ok d) × Went c d
unfolding send_data
send_data-Went send c takes counted h =
    let (reqs, found) =
      get_elem?-some c.request_buffers c.cur_req_num (omega (arith, counted, h)) in
    let (n, took, le, some_taken) = takes (segment c.segment_size reqs) in
    let next : send_data send c ≡ ok (cut_sent n reqs c) = rw (found, took, send_data) in
    (
      cut_sent n reqs c,
      next,
      cut_sent-Went n reqs c counted h
          (λ k. omega (arith, some_taken, (segment-length c.segment_size reqs).1 k))
          (send_data-in_order send c (cut_sent n reqs c) next),
    )

drop_past : {A : Type 0} (l : List A) (i : ℕ) → length l ≤ i → drop i l ≡ []
drop_past [] zero h = refl
drop_past [] (suc i) h = refl
drop_past (x ∷ l) zero h = absurd (ground arith)
drop_past (x ∷ l) (suc i) h = drop_past l i (omega arith)

nothing_pending : (c : Client) → IsCounted c → c.nrreq ≤ c.cur_req_num → pending c ≡ []
unfolding pending
nothing_pending c counted h =
    ap concat (drop_past c.request_buffers c.cur_req_num (omega (arith, counted, h)))

-- All requests are sent.
abbrev pub IsSent : Client → Client → Type 0
IsSent c d = (d.cur_req_num ≡ d.nrreq) × (d.wire ≡ c.wire ++ pending c)

is_sent :
    (c : Client) → IsCounted c → c.cur_req_num ≤ c.nrreq → c.nrreq ≤ c.cur_req_num → IsSent c c
is_sent c counted le ge = (
  omega (arith, le, ge),
  sym (ap (λ t. c.wire ++ t) (nothing_pending c counted ge) ∙ append-nil c.wire),
)

-- If the socket takes at least one byte of what is not empty, the number of requests is the
-- number of buffers, and the current request is none beyond them, then after as many rounds of
-- `_send_data` as there are bytes to send and requests to finish, or more, the client has sent
-- all requests, and the socket has taken all their bytes in order.
pub send_rounds-all :
    (send : Text → Option ℕ) (c : Client) (f : ℕ)
    → Takes send
    → IsCounted c
    → c.cur_req_num ≤ c.nrreq
    → rounds c ≤ f
    → (d : Client) × (send_rounds f send c ≡ ok d) × IsSent c d
unfolding send_rounds rounds in_order
send_rounds-all send c zero takes counted le enough =
    (c, refl, is_sent c counted le (omega (arith, enough)))
send_rounds-all send c (suc f) takes counted le enough =
    elim (Bool-cases (ltb c.cur_req_num c.nrreq)) [
      | inr done ↦ (c, rw (done, send_rounds), is_sent c counted le (ground arith))
      | inl more ↦
          let (d, first, (d_counted, d_le, less)) =
            send_data-Went send c takes counted (ground arith) in
          let (e, last, (all, wire)) =
            send_rounds-all send d f takes d_counted d_le (omega (arith, less, enough)) in
          (e, rw (more, first, send_rounds) last, (all, wire ∙ send_data-in_order send c d first))
    ]
