-- ===== src/Client/H2/Frames.antt =====
-- The DATA frames that the HTTP/2 client of framework/deproxy/deproxy_client.py makes of a body.
use tempesta_test.Base.{
  ℕ, zero, suc, ◌≤◌, ◌<◌, ◌≡◌, refl, ◌⊎◌, inl, inr, Bool, false, [], ◌∷◌, ◌++◌, Option, some,
  if◌then◌else◌, is_empty, length, take, drop, ok, arith, >>=-eq-ok, take-append-drop, Bool-cases,
  ltb, ◌==◌, append-nil, ap, sym, ◌∙◌,
}
use tempesta_test.Base.Int.{ℤ, pos, ltb_ℤ}
use tempesta_test.Text.{Text}
use tempesta_test.Client.H2.{H2Library, prepare_data_frames, frame_part, frame_size, rest_of}

-- What is to be known of the data of one frame, of its flag, and of what is left of the body.
pub record IsPart (limit window : ℕ) (body : Text) (end_stream : Option Bool) (part : Text)
    (flag : Option Bool) (rest : Text) : Type 0 where
  pub whole : part ++ rest ≡ body
  pub within_frame : length part ≤ limit
  pub within_window : length part ≤ window
  pub ends : flag ≡ (if is_empty rest then end_stream else some false)

length-take_le : (n : ℕ) (s : Text) → length (take n s) ≤ n
length-take_le zero s = omega arith
length-take_le (suc n) [] = omega arith
length-take_le (suc n) (c ∷ s) = omega (arith, length-take_le n s)

drop_of_shorter : (n : ℕ) (s : Text) → n < length s → is_empty (drop n s) ≡ false
drop_of_shorter n [] h = absurd (ground arith)
drop_of_shorter zero (c ∷ s) h = refl
drop_of_shorter (suc n) (c ∷ s) h = drop_of_shorter n s (omega arith)

drop_all : (s : Text) → drop (length s) s ≡ []
drop_all [] = refl
drop_all (c ∷ s) = drop_all s

-- The size of a frame is a natural number if the window is one.
frame_size_pos :
    (limit window : ℕ)
    → (n : ℕ) × (frame_size limit (pos window) ≡ pos n) × (n ≤ limit) × (n ≤ window)
frame_size_pos limit window = elim (Bool-cases (ltb window limit)) [
  | inl less ↦ (window, ground arith, ground arith, omega arith)
  | inr more ↦ (limit, ground arith, omega arith, ground arith)
]

frame_part-IsPart :
    (limit window n : ℕ) (body : Text) (end_stream : Option Bool)
    → n ≤ limit
    → n ≤ window
    → IsPart limit window body end_stream
        (frame_part (pos n) body end_stream).0
        (frame_part (pos n) body end_stream).1
        (rest_of (frame_part (pos n) body end_stream).2 body)
unfolding frame_part
frame_part-IsPart limit window n body end_stream h k =
    elim (Bool-cases (ltb_ℤ (pos n) (pos (length body)))) [
      | inl cut ↦
          rw (cut, frame_part)
            (record {
              whole = take-append-drop n body;
              within_frame = omega (arith, length-take_le n body);
              within_window = omega (arith, length-take_le n body);
              ends =
                  ap (λ b. if b then end_stream else some false)
                    (sym (drop_of_shorter n body (ground arith)));
            })
      | inr all ↦
          rw (all, frame_part)
            (record {
              whole = ap (λ t. body ++ t) (drop_all body) ∙ append-nil body;
              within_frame = ground arith;
              within_window = ground arith;
              ends = ap (λ r. if is_empty r then end_stream else some false) (sym (drop_all body));
            })
    ]

-- The frame that was made, if any: the outcome of `prepare_data_frames` is nothing, or the bytes of
-- the connection after a part of the body was given to it.
abbrev pub HasFrame :
    {C : Type 0} → H2Library C → ℕ → Text → Option Bool → Option ℕ → C → Text × ℤ × C → Type 0
HasFrame h2 window body end_stream stream c r =
    (r ≡ ([], pos 0, c))
    ⊎ ((part : Text) × (flag : Option Bool) × (sent : _) × (h2.send_frame stream part flag c
          ≡ ok sent)
        × ((r.0, r.2) ≡ h2.data_to_send sent)
        × IsPart (h2.max_outbound_frame_size c) window body end_stream part flag (rest_of r.1 body))

module _ {C : Type 0} (h2 : H2Library C) where
  -- If the window of the stream is a natural number and `__prepare_data_frames` returns, then it
  -- made no frame and changed nothing, or it gave the h2 package a part of the body and took the
  -- bytes of the frame from it: the part followed by what is left of the body is the body, the
  -- part is no longer than the largest frame and than the window, and it has the flag that was
  -- asked for if nothing is left, and no END_STREAM flag otherwise.
  pub prepare_data_frames-HasFrame :
      (body : Text) (end_stream : Option Bool) (stream : Option ℕ) (c : C) (window : ℕ)
      → h2.local_flow_control_window stream c ≡ ok (pos window)
      → (r : Text × ℤ × C) → prepare_data_frames h2 body end_stream stream c ≡ ok r
      → HasFrame h2 window body end_stream stream c r
  unfolding prepare_data_frames
  prepare_data_frames-HasFrame body end_stream stream c window open_window r h =
      let (n, size, in_frame, in_window) = frame_size_pos (h2.max_outbound_frame_size c) window in
      elim (Bool-cases (n == 0)) [
        | inl nothing ↦
            let made = rw (open_window, size, nothing, prepare_data_frames) at h in
            inl (ground arith)
        | inr something ↦
            let made = rw (open_window, size, something, prepare_data_frames) at h in
            let (sent, given, out) =
              >>=-eq-ok
                (h2.send_frame stream (frame_part (pos n) body end_stream).0
                  (frame_part (pos n) body end_stream).1 c)
                _ made in
            let outcome : r ≡ (
              (h2.data_to_send sent).0,
              (frame_part (pos n) body end_stream).2,
              (h2.data_to_send sent).1,
            ) =
              ground (arith, out) in
            rw (outcome) (
              inr (
                (frame_part (pos n) body end_stream).0,
                (frame_part (pos n) body end_stream).1,
                sent,
                given,
                refl,
                frame_part-IsPart (h2.max_outbound_frame_size c) window n body end_stream in_frame
                    in_window,
              ))
      ]
