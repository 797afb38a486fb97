-- ===== src/Client/H2/Library.antt =====
-- The state of the HTTP/2 client in framework/deproxy/deproxy_client.py, `DeproxyClientH2`, and what
-- it calls of the h2 package: the parameter `H2Library`, over connections that the model does not look
-- into.
use tempesta_test.Base.{
  ℕ, ◌+◌, ◌/◌, ◌%◌, Bool, false, ◌&&◌, List, [], ◌∷◌, ◌++◌, Option, none, some, if◌then◌else◌, ltb,
  is_empty, Result, ok, raise, ◌>>=◌, value_error,
}
use tempesta_test.Base.Int.{ℤ}
use tempesta_test.Text.{Text}
use tempesta_test.Headers.{Header}
use tempesta_test.Message.{Request, Response}
use tempesta_test.Client.{Client}
use tempesta_test.Client.Settings.{SettingCode}

-- What a frame of headers says of its priority.
pub record Priority : Type 0 where
  pub weight : Option ℕ
  pub depends_on : Option ℕ
  pub exclusive : Option Bool

-- The events of `h2.events` that the client tells apart, with what it reads of them: what
-- `decode` makes of their bytes, which is `none` for an error, and `error_code` and `stream_id` as numbers.
pub data Event : Type 0 where
  response_received trailers_received : ℕ → Option (List Header) → Event
  data_received : ℕ → Option Text → ℕ → Event
  stream_ended stream_reset : ℕ → Event
  connection_terminated : ℕ → Option ℕ → Event
  settings_acknowledged window_updated ping_ack_received other_event : Event

-- The operations of `h2.connection.H2Connection` that the client calls; where one may raise an
-- exception, it has a result. `data_to_send` takes the bytes out of the connection.
-- `put_encoder` gives the connection a `HuffmanEncoder`, and `put_settings` makes settings of the
-- values and updates them. `same_event` is `==` of two events, and `is_stream_open` is the test that a
-- stream is known and not closed.
pub record H2Library (C : Type 0) : Type 0 where
  pub max_outbound_frame_size : C → ℕ
  pub local_flow_control_window : Option ℕ → C → Result ℤ
  pub send_headers : ℕ → List Header → Option Bool → Priority → C → Result C
  pub send_frame : Option ℕ → Text → Option Bool → C → Result C
  pub data_to_send : C → Text × C
  pub set_huffman : Bool → C → C
  pub skip_validation : C → C
  pub is_closed : C → Bool
  pub is_stream_open : ℕ → C → Bool
  pub increment_window : ℕ → Option ℕ → C → Result C
  pub receive_data : Text → C → Result (List Event × C)
  pub same_event : Event → Event → Bool
  pub ping : Text → C → Result C
  pub reset_stream : ℕ → ℕ → C → Result C
  pub close_connection : ℕ → Option ℕ → C → Result C
  pub new_connection : C
  pub put_encoder : C → C
  pub put_settings : List (SettingCode × Option ℕ) → C → Result C
  pub update_settings : List (SettingCode × Option ℕ) → C → Result C
  pub initiate_connection : C → Result C

-- `ReqBodyBuffer`
pub record BodyBuffer : Type 0 where
  pub body : Option Text
  pub buffer_stream_id : Option ℕ
  pub end_stream : Option Bool

-- The fields of `BaseDeproxyClient`, and those of `DeproxyClientH2`. `resets` is how often
-- `_valid_req_num` was decreased, which `client.valid_req_num` leaves out.
pub record H2Client (C : Type 0) : Type 0 where
  pub client : Client
  pub connection : C
  pub stream_id : ℕ
  pub body_buffers : List BodyBuffer
  pub active_responses : List (ℕ × Response)
  pub response_sequence : List ℕ
  pub resets : ℕ
  pub error_codes : List ℕ
  pub ack_settings : Bool
  pub ack_cnt : ℕ
  pub last_stream_id : Option ℕ
  pub last_response_buffer : Text
  pub clear_last_response_buffer : Bool
  pub auto_flow_control : Bool
  pub ping_received : ℕ

-- What is sent: bytes as they are, the text of a body, headers and a body, or headers.
pub data Data : Type 0 where
  bytes : Text → Data
  body_text : Text → Data
  headers_and_body : List Header → Text → Data
  headers_only : List Header → Data

-- `H2Request.msg`
unfoldable pub h2_msg : Request → Data
h2_msg r =
    if is_empty r.body
    then headers_only r.headers.headers
    else headers_and_body r.headers.headers r.body

-- `str.encode()` of one character, in UTF-8; a surrogate has no encoding.
abbrev pub encode_char : ℕ → Result Text
encode_char c =
    if ltb c 128
    then ok (c ∷ [])
    else if ltb c 2048
    then ok ((192 + c / 64) ∷ (128 + c % 64) ∷ [])
    else if ltb 55295 c && ltb c 57344
    then raise value_error
    else if ltb c 65536
    then ok ((224 + c / 4096) ∷ (128 + c / 64 % 64) ∷ (128 + c % 64) ∷ [])
    else ok ((240 + c / 262144) ∷ (128 + c / 4096 % 64) ∷ (128 + c / 64 % 64) ∷ (128 + c % 64) ∷ [])

unfoldable pub encode : Text → Result Text
encode [] = ok []
encode (c ∷ s) = do head ← encode_char c; tail ← encode s; ok (head ++ tail)

-- An optional Boolean as a condition.
abbrev pub is_true : Option Bool → Bool
is_true none = false
is_true (some b) = b
