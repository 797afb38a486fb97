-- ===== src/Client/Sending.antt =====
-- What the client of framework/deproxy/deproxy_client.py writes to its socket.
use tempesta_test.Base.{
  ℕ, zero, suc, ◌≡◌, refl, ap, sym, ◌∙◌, true, List, [], ◌∷◌, ◌++◌, Option, some, take, drop,
  is_empty, concat, get_elem?, set, ok, Option-cases, Bool-cases, inl, inr, arith, append_assoc,
  take-append-drop,
}
use native.Mathlib.Numerals.{add-one}
use tempesta_test.Text.{Text}
use tempesta_test.Client.{Client, send_data, cut_sent, segment}

-- What is still to be written.
unfoldable pub pending : Client → Text
pending c = concat (drop c.cur_req_num c.request_buffers)

unfoldable pub in_order : Client → Text
unfolding pending
in_order c = c.wire ++ pending c

drop-set :
    (l : List Text) (i : ℕ) (reqs cut : Text)
    → get_elem? l i ≡ some reqs
    → (concat (drop i l) ≡ reqs ++ concat (drop (suc i) l))
      × (drop i (set l i cut) ≡ cut ∷ drop (suc i) l)
      × (drop (suc i) (set l i cut) ≡ drop (suc i) l)
drop-set [] i reqs cut h = cc
drop-set (x ∷ l) zero reqs cut h = (ground arith, refl, refl)
drop-set (x ∷ l) (suc i) reqs cut h = drop-set l i reqs cut h

take_of_drop_empty : (n : ℕ) (s : Text) → is_empty (drop n s) ≡ true → take n s ≡ s
take_of_drop_empty zero [] h = refl
take_of_drop_empty zero (c ∷ s) h = absurd (ground arith)
take_of_drop_empty (suc n) [] h = refl
take_of_drop_empty (suc n) (c ∷ s) h = ap (◌∷◌ c) (take_of_drop_empty n s h)

cut_sent-in_order :
    (sent : ℕ) (reqs : Text) (c : Client)
    → get_elem? c.request_buffers c.cur_req_num ≡ some reqs
    → in_order (cut_sent sent reqs c) ≡ in_order c
unfolding cut_sent in_order pending
cut_sent-in_order sent reqs c h =
    let (here, now, later) = drop-set c.request_buffers c.cur_req_num reqs (drop sent reqs) h in
    let rest = concat (drop (suc c.cur_req_num) c.request_buffers) in
    let whole = take-append-drop sent reqs in
    elim (Bool-cases (is_empty (drop sent reqs))) [
      | inl sent_all ↦
          rw (sent_all, add-one, later, here)
            (append_assoc c.wire (take sent reqs) _
              ∙ ap (λ t. c.wire ++ (t ++ rest)) (take_of_drop_empty sent reqs sent_all))
      | inr more ↦
          rw (more, now, here)
            (append_assoc c.wire (take sent reqs) _
              ∙ ap (λ t. c.wire ++ t)
                  (sym (append_assoc (take sent reqs) (drop sent reqs) rest)
                    ∙ ap (λ t. t ++ rest) whole))
    ]

-- If `_send_data` returns, then what the socket took, followed by what is still to be sent from
-- the current buffer on, is the same text as before, whatever number of bytes the socket takes.
pub send_data-in_order :
    (send : Text → Option ℕ) (c d : Client) → send_data send c ≡ ok d → in_order d ≡ in_order c
unfolding send_data
send_data-in_order send c d h = elim (Option-cases (get_elem? c.request_buffers c.cur_req_num)) [
  | inl miss ↦ absurd (ground (arith, rw (miss, send_data) at h))
  | inr (reqs, found) ↦ elim (Option-cases (send (segment c.segment_size reqs))) [
    | inl failed ↦
        let same_client : c ≡ d = ground (arith, rw (found, failed, send_data) at h) in
        ap in_order (sym same_client)
    | inr (sent, took) ↦
        let next : cut_sent sent reqs c ≡ d = ground (arith, rw (found, took, send_data) at h) in
        ap in_order (sym next) ∙ cut_sent-in_order sent reqs c found
  ]
]
