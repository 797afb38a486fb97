-- ===== src/Server.antt =====
-- `StaticDeproxyServer` and `ServerConnection` of framework/deproxy/deproxy_server.py. A connection
-- is driven by what its two tasks get: data that is read, and items of its queue that are written.
-- Times, sockets, logging and the events that waiting tests use are left out.
pub mod Laws
pub mod Endless
pub mod Listening
pub mod Open
pub mod Pipe
pub mod Termination
use tempesta_test.Base.{
  ℕ, zero, suc, ◌+◌, ◌-◌, ◌≤◌, ◌≡◌, Bool, true, false, not, ◌&&◌, ◌||◌, List, [], ◌∷◌, ◌++◌, Option,
  none, some, if◌then◌else◌, ltb, leb, length, take, drop, is_empty, concat, Result, ok, raise,
  ◌>>=◌, Error, no_fuel, is_parse_error,
}
use tempesta_test.Text.{Text}
use tempesta_test.Message.{Request, new_request}
use tempesta_test.AutoParser.{
  AutoParser, Surroundings, check_expected_request, prepare_expected_response,
}

-- The settings of a server, and what it has received. `response` is what it sends.
pub record Server : Type 0 where
  pub response : Text
  pub requests : List Request
  pub hang_on_req_num : ℕ
  pub pipelined : ℕ
  pub keep_alive : ℕ
  pub segment_size : ℕ
  pub drop_conn_when_request_received : Bool
  pub auto_parser : AutoParser

-- One item of the queue: the bytes and the number of responses in them; `none` ends the writing.
abbrev pub Item : Type 0
Item = Option (Text × ℕ)

pub record Connection : Type 0 where
  pub req_buffer : Text
  pub nrreq : ℕ
  pub cur_responses_list : List Text
  pub cur_pipelined : ℕ
  pub queue : List Item
  pub responses_done : ℕ
  pub readwrite : Bool
  pub closing : Bool
  pub written : List Text

unfoldable pub add_response_to_sending_buffer : Text → Connection → Connection
add_response_to_sending_buffer response c = record c {
  cur_responses_list = c.cur_responses_list ++ response ∷ [];
  cur_pipelined = c.cur_pipelined + 1;
}

unfoldable pub flush : Connection → Connection
flush c = record c {
  queue = c.queue ++ some (concat c.cur_responses_list, c.cur_pipelined) ∷ [];
  cur_pipelined = 0;
  cur_responses_list = [];
}

-- `close` up to `wait_closed`, where it is `closing`: a second call does nothing.
unfoldable pub close : Connection → Connection
close c =
    if c.readwrite
    then record c { readwrite = false; queue = c.queue ++ none ∷ []; closing = true }
    else c

-- `_receive_request`: the response and whether the connection is to be closed.
unfoldable pub receive_request : Surroundings → Request → Server → Result (Server × Text × Bool)
unfolding check_expected_request prepare_expected_response
receive_request w r s =
    let requests = s.requests ++ r ∷ [] in
    let s' = record s { requests = requests } in
    let answer : Result (Server × Text × Bool) = (do
      checked ← check_expected_request w r s.auto_parser
      prepared ← prepare_expected_response w s.response checked
      ok (record s' { auto_parser = prepared }, s.response, false)) in
    if ltb 0 s.hang_on_req_num && leb s.hang_on_req_num (length requests)
    then ok (s', [], true)
    else if s.auto_parser.parsing
    then answer
    else ok (s', s.response, false)

-- What the loop over the buffer does with one request: the server, the connection, and whether the
-- loop goes on.
abbrev pub Turn : Type 0
Turn = Server × Connection × Bool

-- A response is queued for sending, and sent if enough are there.
unfoldable pub enqueue : Server → Text → Connection → Connection
unfolding add_response_to_sending_buffer flush
enqueue s response c =
    let added = add_response_to_sending_buffer response c in
    if is_empty response
    then c
    else if leb s.pipelined added.cur_pipelined
    then flush added
    else added

-- The end of a turn, after `_receive_request`.
unfoldable pub answer_request : Request → Server → Text → Bool → Connection → Turn
unfolding enqueue flush close
answer_request r s response need_close c =
    let sent = enqueue s response c in
    if s.drop_conn_when_request_received
    then (s, close c, false)
    else if need_close
    then (s, close (flush sent), false)
    else (s, record sent { req_buffer = drop r.original_length sent.req_buffer }, true)

-- One round of `while req_buffer`: the buffer is bytes, of which the parser gets the text. A request
-- that cannot be parsed leaves the buffer as it is.
unfoldable pub serve_request : Surroundings → Server → Connection → Result Turn
unfolding new_request receive_request answer_request
serve_request w s c = elim (new_request true false (w.decode c.req_buffer)) [
  | raise e ↦ if is_parse_error e then ok (s, c, false) else raise e
  | ok r ↦ do
    answer ← receive_request w r s
    ok (answer_request r answer.0 answer.1 answer.2 (record c { nrreq = c.nrreq + 1 }))
]

-- The inner loop of `_read_loop`, and the outer one's round on some data that is not empty; on no
-- data the connection is closed. Where the bytes are ASCII a request takes at least one of them, so
-- n + 1 rounds are enough.
unfoldable pub serve_buffer : ℕ → Surroundings → Server → Connection → Result (Server × Connection)
serve_buffer zero w s c = raise no_fuel
serve_buffer (suc f) w s c =
    let next : Result (Server × Connection) = (do
      turn ← serve_request w s c
      (let more = serve_buffer f w turn.0 turn.1 in
          if turn.2 then more else ok (turn.0, turn.1))) in
    if is_empty c.req_buffer then ok (s, c) else next

unfoldable pub read_data : Surroundings → Text → Server → Connection → Result (Server × Connection)
unfolding serve_buffer serve_request close
read_data w text s c =
    let buffered = record c { req_buffer = c.req_buffer ++ text } in
    if is_empty text
    then ok (s, close c)
    else serve_buffer (suc (length buffered.req_buffer)) w s buffered

-- `_send_bytes_with_tcp_segmentation`: the pieces that are written. The offset goes up by the
-- segment size, which is not 0 here.
unfoldable pub segments : ℕ → ℕ → Text → List Text
segments zero size s = []
segments (suc f) size s =
    let rest = segments f size (drop size s) in if is_empty s then [] else take size s ∷ rest

unfoldable pub write_pieces : ℕ → Text → List Text
unfolding segments
write_pieces segment_size s =
    if is_empty s
    then []
    else if leb 1 segment_size
    then segments (length s) segment_size s
    else s ∷ []

-- One round of `_write_loop` on the item at the head of the queue.
unfoldable pub write_item : Server → Text → ℕ → Connection → Connection
write_item s text count c =
    let done = record c {
      written = c.written ++ write_pieces s.segment_size text;
      responses_done = c.responses_done + count;
    } in
    if leb 1 s.keep_alive && leb s.keep_alive done.responses_done then close done else done

unfoldable pub on_queue : Server → Connection → List Item → Connection
on_queue s c [] = record c { queue = [] }
on_queue s c (none ∷ l) = record c { queue = l }
on_queue s c (some (text, count) ∷ l) = write_item s text count (record c { queue = l })

unfoldable pub write_step : Server → Connection → Connection
write_step s c = if c.readwrite then on_queue s c c.queue else c
