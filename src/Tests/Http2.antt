-- ===== src/Tests/Http2.antt =====
-- Tests of the HTTP/2 client in framework/deproxy/deproxy_client.py, with a small connection in place
-- of the h2 package's: its window, and the bytes that it has to send.
use tempesta_test.Base.{
  ℕ, ◌+◌, ◌-◌, ◌≤◌, ◌<◌, ◌≡◌, ◌≢◌, refl, true, false, List, [], ◌∷◌, ◌++◌, Option, none, some,
  length, ok, raise, value_error, index_error, no_fuel, Returns, arith, if◌then◌else◌,
}
use tempesta_test.Base.Int.{ℤ, pos}
use tempesta_test.Text.{Text, codes}
use tempesta_test.AutoParser.{Surroundings}
use tempesta_test.Client.{Client}
use tempesta_test.Client.H2.{
  H2Library, H2Client, Priority, BodyBuffer, headers_and_body, make_h2_request, send_pending,
  send_h2_data, prepare_data_frames, frame_part, response_received, stream_ended,
  settings_acknowledged,
}
use tempesta_test.Client.H2.Frames.{HasFrame, prepare_data_frames-HasFrame}
use tempesta_test.Client.H2.Aligned.{IsAligned, make_h2_request-IsAligned}
use tempesta_test.Client.H2.Sent.{send_h2_data-IsAligned}
use tempesta_test.Client.H2.Stuck.{send_pending-IsStuck}
use tempesta_test.Client.H2.Reading.{handle_h2_read}
use tempesta_test.Client.H2.Kept.{IsKept, handle_h2_read-IsKept}
use tempesta_test.Client.H2.Search.{check_header_presence_in_last_response_buffer}
use tempesta_test.Client.H2.Termination.{handle_h2_read-IsFueled}

abbrev TestConnection : Type 0
TestConnection = ℕ × Text

-- Each text that is received acknowledges the settings and brings a whole response.
abbrev library : H2Library TestConnection
library = record {
  max_outbound_frame_size = λ c. 4;
  local_flow_control_window = λ i c. ok (pos c.0);
  send_headers = λ i l e p c. ok (c.0, c.1 ++ codes "H");
  send_frame = λ i d e c. ok (c.0 - length d, c.1 ++ d);
  data_to_send = λ c. (c.1, (c.0, []));
  set_huffman = λ b c. c;
  skip_validation = λ c. c;
  is_closed = λ c. false;
  is_stream_open = λ i c. false;
  increment_window = λ n i c. ok (c.0 + n, c.1);
  receive_data = λ d c. ok (
    settings_acknowledged
        ∷ response_received 1 (some ((codes ":status", codes "200") ∷ []))
        ∷ stream_ended 1
        ∷ [],
    c,
  );
  same_event = λ e f. true;
  ping = λ d c. ok c;
  reset_stream = λ i n c. ok c;
  close_connection = λ n i c. ok c;
  new_connection = (8, []);
  put_encoder = λ c. c;
  put_settings = λ l c. ok c;
  update_settings = λ l c. ok (c.0, c.1 ++ codes "S");
  initiate_connection = λ c. ok (c.0, c.1 ++ codes "P");
}

abbrev surroundings : Surroundings
surroundings = record {
  fw_version = codes "0.8";
  client_ip = codes "10.0.0.1";
  config = [];
  auto_parser = false;
  now = [];
  parse_date = λ s. raise value_error;
  decode = λ s. s;
}

abbrev client : Client
client = record {
  parsing = true;
  segment_size = 0;
  sender = record { is_http2 = true; bind_addr = none; conn_addr = codes "10.0.0.2" };
  auto_parser = record {
    expected_response = none;
    expected_request = none;
    client_request = none;
    parsing = false;
    exceptions = [];
  };
  request_buffers = [] ∷ [];
  methods = [];
  cur_req_num = 0;
  nrreq = 1;
  valid_req_num = 1;
  wire = [];
  response_buffer = [];
  responses = [];
  nrresp = 0;
}

abbrev a_body : BodyBuffer
a_body = record { body = some (codes "abcde"); buffer_stream_id = some 1; end_stream = some true }

-- A client with a body that waits to be sent.
abbrev h2_client : H2Client TestConnection
h2_client = record {
  client = client;
  connection = (3, []);
  stream_id = 3;
  body_buffers = a_body ∷ [];
  active_responses = [];
  response_sequence = [];
  resets = 0;
  error_codes = [];
  ack_settings = false;
  ack_cnt = 0;
  last_stream_id = none;
  last_response_buffer = [];
  clear_last_response_buffer = false;
  auto_flow_control = true;
  ping_received = 0;
}

abbrev priority : Priority
priority = record { weight = none; depends_on = none; exclusive = none }

abbrev first_frame : Text × ℤ × TestConnection
first_frame = (codes "abc", pos 3, (0, []))

prepare_three :
    prepare_data_frames library (codes "abcde") (some true) (some 1) (3, []) ≡ ok first_frame
unfolding prepare_data_frames frame_part
prepare_three = refl

prepare_data_frames-HasFrame_example :
    HasFrame library 3 (codes "abcde") (some true) (some 1) (3, []) first_frame
prepare_data_frames-HasFrame_example =
    prepare_data_frames-HasFrame library (codes "abcde") (some true) (some 1) (3, []) 3 refl
      first_frame prepare_three

h2_client-IsAligned : IsAligned h2_client
h2_client-IsAligned = (refl, refl, omega arith)

make_h2_request-IsAligned_example :
    Returns
      (λ d.
        IsAligned d
        × (d.client.nrreq ≡ h2_client.client.nrreq + 1)
        × (d.client.valid_req_num ≡ h2_client.client.valid_req_num + (if true then 1 else 0)))
      (make_h2_request library surroundings
        (headers_and_body ((codes ":method", codes "POST") ∷ []) (codes "x"))
        true
        priority
        true
        h2_client)
make_h2_request-IsAligned_example =
    make_h2_request-IsAligned library surroundings
      (headers_and_body ((codes ":method", codes "POST") ∷ []) (codes "x")) true priority true
      h2_client h2_client-IsAligned

abbrev takes_all : Text → Option ℕ
takes_all s = some (length s)

send_h2_data-IsAligned_example : Returns IsAligned (send_h2_data library takes_all h2_client)
send_h2_data-IsAligned_example =
    send_h2_data-IsAligned library takes_all h2_client h2_client-IsAligned

-- All requests are sent.
abbrev idle : H2Client TestConnection
idle = record h2_client { client = record client { cur_req_num = 1 } }

idle-IsAligned : IsAligned idle
idle-IsAligned = (refl, refl, omega arith)

send_pending-IsStuck_example :
    (d : H2Client TestConnection) × (send_pending library surroundings idle ≡ ok d)
    × (d.client.cur_req_num < d.client.nrreq)
    × ((send : Text → Option ℕ) → send_h2_data library send d ≡ ok d)
send_pending-IsStuck_example =
    send_pending-IsStuck library surroundings idle (3, []) idle-IsAligned refl refl

h2_client-IsKept : IsKept h2_client
h2_client-IsKept = (h2_client-IsAligned, refl, omega arith)

handle_h2_read-IsKept_example :
    Returns
      (λ (t : List Text × H2Client TestConnection). IsKept t.1)
      (handle_h2_read library surroundings 3 (codes "a" ∷ codes "b" ∷ [], h2_client))
handle_h2_read-IsKept_example =
    handle_h2_read-IsKept library surroundings 3 (codes "a" ∷ codes "b" ∷ []) h2_client
      h2_client-IsKept

no_dates : (s : Text) → surroundings.parse_date s ≢ raise no_fuel
no_dates s = ground arith

library_receives : (d : Text) (c : TestConnection) → library.receive_data d c ≢ raise no_fuel
library_receives d c = ground arith

library_opens :
    (n : ℕ) (i : Option ℕ) (c : TestConnection) → library.increment_window n i c ≢ raise no_fuel
library_opens n i c = ground arith

handle_h2_read-IsFueled_example :
    (handle_h2_read library surroundings 3 (codes "a" ∷ codes "b" ∷ [], h2_client) ≢ raise no_fuel)
    × Returns
        (λ (u : List Text × H2Client TestConnection). length u.0 ≤ 2)
        (handle_h2_read library surroundings 3 (codes "a" ∷ codes "b" ∷ [], h2_client))
handle_h2_read-IsFueled_example =
    handle_h2_read-IsFueled library surroundings no_dates library_receives library_opens
      (codes "a" ∷ codes "b" ∷ []) h2_client

-- A header in two parts, with the head of a CONTINUATION frame of two bytes between them.
abbrev parted : Text
parted = 97 ∷ 98 ∷ 0 ∷ 0 ∷ 2 ∷ 9 ∷ 4 ∷ 0 ∷ 0 ∷ 0 ∷ 1 ∷ 99 ∷ 100 ∷ []

find_parted : check_header_presence_in_last_response_buffer parted (codes "abcd") ≡ ok true
unfolding check_header_presence_in_last_response_buffer
find_parted = refl

-- No part of the header is found, but its first byte stands near the end of the buffer.
miss_raises :
    check_header_presence_in_last_response_buffer (codes "xaZ") (codes "ab") ≡ raise index_error
unfolding check_header_presence_in_last_response_buffer
miss_raises = refl
