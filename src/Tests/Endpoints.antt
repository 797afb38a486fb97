-- ===== src/Tests/Endpoints.antt =====
-- Tests of framework/deproxy/deproxy_server.py and framework/deproxy/deproxy_client.py.
use tempesta_test.Base.{
  ◌⊎◌, ltb, ℕ, ◌+◌, ◌≡◌, ◌≢◌, refl, no_fuel, Returns, arith, true, false, [], ◌∷◌, ◌++◌, Option,
  none, some, ok, raise, value_error, length, is_empty, if◌then◌else◌,
}
use tempesta_test.Text.{Text, codes}
use tempesta_test.AutoParser.{AutoParser, Surroundings}
use tempesta_test.Server.{
  Server, Connection, enqueue, write_step, write_pieces, write_item, on_queue, close, read_data,
}
use tempesta_test.Server.Laws.{accepted_text, accepted_count, enqueue-accepted, write_step-accepted}
use tempesta_test.Client.{Client, ToSend, send_data, make_requests}
use tempesta_test.Client.Sending.{in_order, send_data-in_order}
use tempesta_test.Client.Counting.{IsCounted}
use tempesta_test.Server.Pipe.{
  Step, Steps, PipeStep, pipe, here, next_step, enqueues, writes, Steps-PipeStep,
}
use tempesta_test.Stateful.{State}
use tempesta_test.Wait.{wait_until, adjust_timeout}
use tempesta_test.Wait.Asserting.{Observed, assert_wait}
use tempesta_test.Client.Waits.{
  Moment, Going, HasResponses, wait_for_response, wait_for_response-HasResponses,
}
use tempesta_test.Client.Progress.{send_rounds, send_rounds-all, Takes, rounds, IsSent}
use tempesta_test.Client.Responses.{
  handle_read, handle_read-IsFueled, handle_read-IsMatched, IsMatched,
}
use tempesta_test.Server.Termination.{IsAscii, read_data-IsFueled}

abbrev no_parser : AutoParser
no_parser = record {
  expected_response = none;
  expected_request = none;
  client_request = none;
  parsing = false;
  exceptions = [];
}

abbrev server : Server
server = record {
  response = codes "HTTP/1.1 200 OK\r\n\r\n";
  requests = [];
  hang_on_req_num = 0;
  pipelined = 2;
  keep_alive = 1;
  segment_size = 2;
  drop_conn_when_request_received = false;
  auto_parser = no_parser;
}

-- A connection with one response in its queue and one that waits.
abbrev connection : Connection
connection = record {
  req_buffer = [];
  nrreq = 2;
  cur_responses_list = codes "xyz" ∷ [];
  cur_pipelined = 1;
  queue = some (codes "abc", 1) ∷ [];
  responses_done = 0;
  readwrite = true;
  closing = false;
  written = [];
}

write_step-accepted_example :
    (accepted_text (write_step server connection) ≡ accepted_text connection)
    × (accepted_count (write_step server connection) ≡ accepted_count connection)
write_step-accepted_example = write_step-accepted server connection

-- The response goes out in segments of two bytes, and the connection is closed.
write_step_segments : (write_step server connection).written ≡ codes "ab" ∷ codes "c" ∷ []
unfolding write_step on_queue write_item write_pieces close
write_step_segments = refl

enqueue-accepted_example :
    (accepted_text (enqueue server (codes "uv") connection)
      ≡ accepted_text connection ++ codes "uv")
    × (accepted_count (enqueue server (codes "uv") connection)
        ≡ accepted_count connection + (if is_empty (codes "uv") then 0 else 1))
enqueue-accepted_example = enqueue-accepted server (codes "uv") connection

abbrev client : Client
client = record {
  parsing = false;
  segment_size = 2;
  sender = record { is_http2 = false; bind_addr = none; conn_addr = codes "10.0.0.2" };
  auto_parser = no_parser;
  request_buffers = codes "abc" ∷ codes "de" ∷ [];
  methods = [];
  cur_req_num = 0;
  nrreq = 2;
  valid_req_num = 2;
  wire = [];
  response_buffer = [];
  responses = [];
  nrresp = 0;
}

-- A socket that takes all that it is given.
abbrev takes_all : Text → Option ℕ
takes_all s = some (length s)

abbrev after_segment : Client
after_segment = record client { request_buffers = codes "c" ∷ codes "de" ∷ []; wire = codes "ab" }

send_segment : send_data takes_all client ≡ ok after_segment
unfolding send_data
send_segment = refl

send_data-in_order_example : in_order after_segment ≡ in_order client
send_data-in_order_example = send_data-in_order takes_all client after_segment send_segment

abbrev surroundings : Surroundings
surroundings = record {
  fw_version = codes "0.8";
  client_ip = codes "10.0.0.1";
  config = [];
  auto_parser = false;
  now = [];
  parse_date = λ s. raise value_error;
  decode = λ s. s;
}

abbrev raw : ToSend
raw = ToSend.text (codes "GET")

abbrev after_requests : Client
after_requests = record client {
  request_buffers = codes "abc" ∷ codes "de" ∷ codes "GETGET" ∷ [];
  methods = some (codes "GET") ∷ some (codes "GET") ∷ [];
  nrreq = 3;
  valid_req_num = 4;
}

make_two : make_requests surroundings true (raw ∷ raw ∷ []) client ≡ ok after_requests
unfolding make_requests
make_two = refl

client-IsCounted : IsCounted client
client-IsCounted = refl

no_dates : (s : Text) → surroundings.parse_date s ≢ raise no_fuel
no_dates s = ground arith

get-IsAscii : IsAscii (codes "GET / HTTP/1.1\r\n\r\n")
get-IsAscii = ground arith

read_data-IsFueled_example :
    read_data surroundings (codes "GET / HTTP/1.1\r\n\r\n") server connection ≢ raise no_fuel
read_data-IsFueled_example =
    read_data-IsFueled surroundings no_dates (λ s h. refl) (codes "GET / HTTP/1.1\r\n\r\n") server
      connection tt get-IsAscii

abbrev response : Text
response = codes "HTTP/1.1 204 No Content\r\n\r\nHTTP/1.1 2"

-- One request was sent, whose response comes with the start of another.
abbrev waiting : Client
waiting = record client { methods = some (codes "GET") ∷ [] }

handle_read-IsFueled_example : handle_read surroundings response waiting ≢ raise no_fuel
handle_read-IsFueled_example = handle_read-IsFueled surroundings no_dates response waiting

waiting-IsMatched : IsMatched waiting
waiting-IsMatched = (refl, omega arith)

handle_read-IsMatched_example : Returns IsMatched (handle_read surroundings response waiting)
handle_read-IsMatched_example =
    handle_read-IsMatched surroundings response waiting waiting-IsMatched

takes_all-Takes : Takes takes_all
takes_all-Takes s = (length s, refl, omega arith, omega arith)

send_rounds-all_example :
    (d : Client) × (send_rounds (rounds client) takes_all client ≡ ok d) × IsSent client d
send_rounds-all_example =
    send_rounds-all takes_all client (rounds client) takes_all-Takes client-IsCounted (omega arith)
      (omega arith)

-- A response is given to the connection, and a round of the write loop sends the one before it.
abbrev given : Connection
given = enqueue server (codes "uv") connection

abbrev sent : Connection
sent = write_step server given

given_and_sent : Steps (Step server) connection sent
given_and_sent =
    next_step connection given sent (enqueues (codes "uv") connection)
      (next_step given sent sent (writes given) (here sent))

Steps-PipeStep_example : Steps PipeStep (pipe connection) (pipe sent)
Steps-PipeStep_example = Steps-PipeStep server connection sent given_and_sent

-- A client that gets its first response after two rounds.
abbrev moment : ℕ → Moment
moment k = record {
  connected = true;
  connecting = false;
  state = State.started;
  cur_req_num = 1;
  valid_req_num = 1;
  nr_responses = if ltb k 2 then 0 else 1;
  ack_settings = true;
  ping_received = 0;
  is_reset = λ stream. false;
  has_headers = λ stream. false;
}

abbrev observed : Observed Moment
observed = record { value = moment; last_value = moment; clock = λ k. k }

abbrev going : Going
going = record { fuel = 9; tcp_segmentation = false; start = 0 }

response_comes : wait_for_response going 5 true none observed ≡ ok tt
unfolding wait_for_response assert_wait wait_until adjust_timeout
response_comes = refl

wait_for_response-HasResponses_example :
    (j : ℕ) × (HasResponses none (observed.value j) ⊎ HasResponses none (observed.last_value j))
wait_for_response-HasResponses_example =
    wait_for_response-HasResponses going 5 true none observed response_comes
