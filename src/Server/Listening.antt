-- ===== src/Server/Listening.antt =====
-- `StaticDeproxyServer` of framework/deproxy/deproxy_server.py with its connections, by numbers in
-- place of objects. Other code runs while a connection that is closed awaits its writer. `gone` keeps the
-- connections that were removed, for the statements only.
use tempesta_test.Base.{
  ℕ, Bool, true, false, not, ◌||◌, List, [], ◌∷◌, ◌++◌, map, Option, none, some, if◌then◌else◌,
  ◌==◌, ltb, length, get_last?, Result, ok, raise, ◌>>=◌, check, value_error, assertion_error,
}
use tempesta_test.Base.Int.{ℤ, pos, negsuc}
use tempesta_test.Text.{Text}
use tempesta_test.Message.{Request}
use tempesta_test.AutoParser.{Surroundings}
use tempesta_test.Server.{
  Server, Connection, add_response_to_sending_buffer, flush, close, read_data, write_step,
}
use tempesta_test.Stateful.{State, is_started}
use tempesta_test.Wait.Asserting.{Observed, world_of, assert_wait, assert_wait_event}

pub record Listening : Type 0 where
  pub server : Server
  pub default_response : Text
  pub send_after_conn_established : Bool
  pub connections : List (ℕ × Connection)
  pub gone : List (ℕ × Connection)
  pub request_event : Bool
  pub connection_event : Bool

unfoldable pub clear_stats : Listening → Listening
clear_stats l = record l {
  server = record (l.server) { requests = []; response = l.default_response };
  connections = [];
  request_event = false;
  connection_event = false;
}

-- `ServerConnection.__init__`
unfoldable pub new_connection : Bool → Server → Connection
unfolding add_response_to_sending_buffer flush
new_connection send_after_conn_established s =
    let c : Connection = record {
      req_buffer = [];
      nrreq = 0;
      cur_responses_list = [];
      cur_pipelined = 0;
      queue = [];
      responses_done = 0;
      readwrite = true;
      closing = false;
      written = [];
    } in
    if send_after_conn_established then flush (add_response_to_sending_buffer s.response c) else c

-- `_accept_connection`
unfoldable pub accept_connection : ℕ → Listening → Listening
unfolding new_connection
accept_connection i l = record l {
  connections = l.connections ++ (i, new_connection l.send_after_conn_established l.server) ∷ [];
  connection_event = true;
}

unfoldable pub connection_of : ℕ → List (ℕ × Connection) → Option Connection
connection_of i [] = none
connection_of i ((j, c) ∷ l) = if j == i then some c else connection_of i l

unfoldable pub put_connection : ℕ → Connection → List (ℕ × Connection) → List (ℕ × Connection)
put_connection i c [] = []
put_connection i c ((j, d) ∷ l) =
    let rest = put_connection i c l in if j == i then (j, c) ∷ l else (j, d) ∷ rest

-- `list.remove`, of a connection that is there.
unfoldable pub without_connection : ℕ → List (ℕ × Connection) → List (ℕ × Connection)
without_connection i [] = []
without_connection i ((j, d) ∷ l) =
    let rest = without_connection i l in if j == i then l else (j, d) ∷ rest

-- `remove_connection`
unfoldable pub remove_connection : ℕ → Listening → Listening
unfolding without_connection
remove_connection i l = record l {
  connections = without_connection i l.connections;
  connection_event = true;
}

-- What a method of connection `i` leaves of it.
unfoldable pub update : ℕ → Connection → Listening → Listening
unfolding put_connection
update i c l = record l { connections = put_connection i c l.connections }

-- `close` of connection `i` up to `wait_closed`, and its `finally` after it.
unfoldable pub close_connection : ℕ → Connection → Listening → Listening
unfolding update close
close_connection i c = update i (close c)

unfoldable pub finish_close : ℕ → Connection → Listening → Listening
unfolding remove_connection
finish_close i c l =
    let removed = remove_connection i l in record removed { gone = l.gone ++ (i, c) ∷ [] }

-- `_read_loop` of connection `i` on some data. `_receive_request` sets the event of requests.
unfoldable pub read_connection : Surroundings → Text → ℕ → Connection → Listening → Result Listening
unfolding read_data update
read_connection w text i c l = do
  out ← read_data w text l.server c
  ok (
      update i out.1 (record l {
        server = out.0;
        request_event = l.request_event || ltb (length l.server.requests) (length out.0.requests);
      }))

unfoldable pub write_connection : ℕ → Connection → Listening → Listening
unfolding write_step update
write_connection i c l = update i (write_step l.server c) l

-- `flush`
unfoldable pub flush_connections : Listening → Listening
unfolding flush
flush_connections l = record l { connections = map (λ d. (d.0, flush d.1)) l.connections }

-- The setter of `segment_size`. A connection writes by the server's size, which its
-- `update_segment_size` looks at.
unfoldable pub set_segment_size : ℤ → Listening → Result Listening
set_segment_size (negsuc n) l = raise value_error
set_segment_size (pos n) l = ok (record l { server = record (l.server) { segment_size = n } })

-- `set_response`, for the text of each kind of response.
unfoldable pub set_response : Text → Listening → Listening
set_response text l = record l { server = record (l.server) { response = text } }

unfoldable pub last_request : Listening → Option Request
last_request l = get_last? l.server.requests

-- `_stop_deproxy` closes a copy of the connections; when all are closed it clears the statistics.
unfoldable pub close_each : List (ℕ × Connection) → Listening → Listening
unfolding close_connection
close_each [] l = l
close_each ((i, c) ∷ rest) l = close_each rest (close_connection i c l)

-- What a wait reads of the server.
pub record Moment : Type 0 where
  pub state : State
  pub is_serving : Bool
  pub requests_n : ℕ
  pub connections_n : ℕ

-- `wait_for_requests`, where `timeout` is the adjusted one.
unfoldable pub wait_for_requests : ℕ → ℕ → ℕ → ℕ → (ℕ → Bool) → Observed Moment → Result (Unit {0})
wait_for_requests fuel start n timeout fired o =
    assert_wait_event fuel fired (world_of (λ m. ltb m.requests_n n) (λ m. not m.is_serving) o)
      start timeout

unfoldable pub wait_for_connections_closed :
    ℕ → ℕ → ℕ → State → (ℕ → Bool) → Observed Moment → Result (Unit {0})
wait_for_connections_closed fuel start timeout state fired o =
    check (is_started state) assertion_error >>= λ u.
    assert_wait_event fuel fired
      (world_of (λ m. not (m.connections_n == 0)) (λ m. not (is_started m.state)) o) start timeout

-- `wait_for_connections` of framework/services/base_server.py.
unfoldable pub wait_for_connections : ℕ → ℕ → ℕ → ℕ → Observed Moment → Result (Unit {0})
wait_for_connections fuel start conns_n timeout o =
    assert_wait fuel (world_of (λ m. ltb m.connections_n conns_n) (λ m. false) o) start timeout
