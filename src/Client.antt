-- ===== src/Client.antt =====
-- The HTTP/1 client of framework/deproxy/deproxy_client.py, `BaseDeproxyClient` and
-- `DeproxyClient`: how it takes requests and writes them to its socket; and the settings that the
-- HTTP/2 client builds. An exception ends a test, so the state that it leaves behind is not kept.
pub mod Sending
pub mod Counting
pub mod Settings
pub mod Rate
pub mod Progress
pub mod Responses
pub mod Waits
pub mod Statuses
pub mod Errors
pub mod H2
use tempesta_test.Base.{
  ℕ, zero, suc, ◌+◌, ◌-◌, ◌≡◌, Bool, true, false, not, ◌&&◌, ◌||◌, List, [], ◌∷◌, ◌++◌, Option,
  none, some, if◌then◌else◌, leb, length, take, drop, is_empty, concat, get_elem?, set, Result, ok,
  raise, ◌>>=◌, ◌>>◌, check, parse_error, index_error,
}
use tempesta_test.Text.{Text, codes, same, split_char}
use tempesta_test.Headers.{get}
use tempesta_test.Message.{Request, Response, new_request, show_request, is_text}
use tempesta_test.AutoParser.{AutoParser, Surroundings, Sender, prepare_expected_request}

-- `wire` is what the client's socket took so far.
pub record Client : Type 0 where
  pub parsing : Bool
  pub segment_size : ℕ
  pub sender : Sender
  pub auto_parser : AutoParser
  pub request_buffers : List Text
  pub methods : List (Option Text)
  pub cur_req_num : ℕ
  pub nrreq : ℕ
  pub valid_req_num : ℕ
  pub wire : Text
  pub response_buffer : Text
  pub responses : List Response
  pub nrresp : ℕ

-- What a test gives to the client: `str | Request`.
pub data ToSend : Type 0 where
  text : Text → ToSend
  request : Request → ToSend

abbrev pub add_to_request_buffers : List Text → Client → Client
add_to_request_buffers data_ c = record c { request_buffers = c.request_buffers ++ data_ }

-- `request.split(" ")[0]`
abbrev first_word : List Text → Text
first_word [] = []
first_word (w ∷ l) = w

-- `request if isinstance(request, str) else request.msg`
unfoldable pub to_text : ToSend → Result Text
unfolding show_request
to_text (ToSend.text s) = ok s
to_text (ToSend.request r) = show_request r

-- `self.methods.append(...)`: a body that waits for "100 Continue" adds a second response.
unfoldable pub methods_of : Request → List (Option Text)
unfolding get
methods_of r =
    if is_text (get r.headers (codes "expect")) (codes "100-continue") && is_empty r.body
    then r.method ∷ r.method ∷ []
    else r.method ∷ []

-- The methods that a request adds, with the check of its text.
unfoldable pub request_methods : Bool → ToSend → Result (List (Option Text))
unfolding new_request methods_of
request_methods parsing (ToSend.request r) = ok (methods_of r)
request_methods false (ToSend.text s) = ok (some (first_word (split_char b' ' s)) ∷ [])
request_methods true (ToSend.text s) = do
  r ← new_request true false s
  check (is_empty (drop r.original_length s)) parse_error
  ok (r.method ∷ [])

-- `__check_request`
unfoldable pub check_request : Surroundings → ToSend → Client → Result Client
unfolding request_methods to_text prepare_expected_request
check_request w q c = do
  added ← request_methods c.parsing q
  s ← to_text q
  p ←
      (if c.auto_parser.parsing
        then prepare_expected_request w c.sender s c.auto_parser
        else ok c.auto_parser)
  ok (record c { methods = c.methods ++ added; auto_parser = p })

unfoldable pub make_request : Surroundings → ToSend → Client → Result Client
unfolding check_request to_text
make_request w q c = do
  checked ← check_request w q c
  s ← to_text q
  (let counted = record checked { valid_req_num = checked.valid_req_num + 1 } in
      let added = add_to_request_buffers (s ∷ []) counted in
      ok (record added { nrreq = added.nrreq + 1 }))

unfoldable pub check_each : Surroundings → List ToSend → Client → Result Client
unfolding check_request
check_each w [] c = ok c
check_each w (q ∷ l) c = do checked ← check_request w q c; check_each w l checked

unfoldable pub to_texts : List ToSend → Result (List Text)
unfolding to_text
to_texts [] = ok []
to_texts (q ∷ l) = do s ← to_text q; rest ← to_texts l; ok (s ∷ rest)

unfoldable pub make_each : Surroundings → List ToSend → Client → Result Client
unfolding make_request
make_each w [] c = ok c
make_each w (q ∷ l) c = do made ← make_request w q c; make_each w l made

-- `make_requests`: pipelined requests share one buffer.
unfoldable pub make_requests : Surroundings → Bool → List ToSend → Client → Result Client
unfolding make_each check_each to_texts
make_requests w false l c = make_each w l c
make_requests w true l c = do
  checked ← check_each w l c
  texts ← to_texts l
  (let added = add_to_request_buffers (concat texts ∷ []) checked in
      ok (record added {
        valid_req_num = added.valid_req_num + length l;
        nrreq = added.nrreq + (length added.request_buffers - length checked.request_buffers);
      }))

-- `reqs[: self.segment_size] if self.segment_size else reqs`
abbrev pub segment : ℕ → Text → Text
segment zero reqs = reqs
segment (suc n) reqs = take (suc n) reqs

-- `send_data` once the socket took `sent` bytes of the segment.
unfoldable pub cut_sent : ℕ → Text → Client → Client
cut_sent sent reqs c =
    let cut = record c {
      wire = c.wire ++ take sent reqs;
      request_buffers = set c.request_buffers c.cur_req_num (drop sent reqs);
    } in
    if is_empty (drop sent reqs) then record cut { cur_req_num = cut.cur_req_num + 1 } else cut

-- `_send_data`. `send` is the socket: the number of bytes of a segment that it takes, `none` where
-- the code gets a negative number.
unfoldable pub send_data : (Text → Option ℕ) → Client → Result Client
unfolding cut_sent
send_data send c = elim (get_elem? c.request_buffers c.cur_req_num) [
  | none ↦ raise index_error
  | some reqs ↦ elim (send (segment c.segment_size reqs)) [
    | none ↦ ok c
    | some sent ↦ ok (cut_sent sent reqs c)
  ]
]
