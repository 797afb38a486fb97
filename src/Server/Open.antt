-- ===== src/Server/Open.antt =====
-- The connections that a server of framework/deproxy/deproxy_server.py lists are open or being removed, and
-- those that it removed are closed.
use tempesta_test.Base.{ℕ, ◌≡◌, ◌⊎◌, Bool, true, false, not, some, ◌≤◌, ok, All, inl, inr, arith}
use tempesta_test.Base.Int.{ℤ}
use tempesta_test.Text.{Text}
use tempesta_test.AutoParser.{Surroundings}
use tempesta_test.Server.{Server, Connection, Turn}
use tempesta_test.Server.Listening.{
  Listening, Moment, clear_stats, accept_connection, connection_of, finish_close, close_connection,
  read_connection, write_connection, flush_connections, set_segment_size, set_response, close_each,
  wait_for_requests,
}
use tempesta_test.Wait.Asserting.{Observed, assert_wait_event-IsSeen}

-- What happens to a server: a client connects, a connection's task gets data or writes an item, a
-- connection is closed, and a test flushes, changes a setting or stops the server.
pub data Step (w : Surroundings) (l : Listening) : Listening → Type 0 where
  accepts : (i : ℕ) → Step w l (accept_connection i l)
  reads :
      (text : Text) (i : ℕ) (c : Connection) (l' : Listening)
      → connection_of i l.connections ≡ some c
      → read_connection w text i c l ≡ ok l'
      → Step w l l'
  writes :
      (i : ℕ) (c : Connection)
      → connection_of i l.connections ≡ some c
      → Step w l (write_connection i c l)
  closes :
      (i : ℕ) (c : Connection)
      → connection_of i l.connections ≡ some c
      → Step w l (close_connection i c l)
  finishes :
      (i : ℕ) (c : Connection)
      → connection_of i l.connections ≡ some c
      → c.closing ≡ true
      → Step w l (finish_close i c l)
  flushes : Step w l (flush_connections l)
  resizes : (size : ℤ) (l' : Listening) → set_segment_size size l ≡ ok l' → Step w l l'
  responds : (text : Text) → Step w l (set_response text l)
  stops : Step w l (close_each l.connections l)
  clears : Step w l (clear_stats l)

pub data Steps (w : Surroundings) (l : Listening) : Listening → Type 0 where
  done : Steps w l l
  then_step : {m n : Listening} → Steps w l m → Step w m n → Steps w l n

-- A connection that is closed is being removed, and no other.
abbrev pub IsMarked : Connection → Type 0
IsMarked c = c.closing ≡ not c.readwrite

abbrev pub IsListing : ℕ × Connection → Type 0
IsListing d = IsMarked d.1

abbrev pub IsClosed : ℕ × Connection → Type 0
IsClosed d = d.1.readwrite ≡ false

pub record IsListed (l : Listening) : Type 0 where
  pub listed : All IsListing l.connections
  pub removed : All IsClosed l.gone

abbrev LeavesMarked : Turn → Type 0
LeavesMarked turn = IsMarked turn.1

-- If `wait_for_requests` returns, then at some read of the server it had as many requests as were
-- asked for.
wait_for_requests-HasRequests :
    (fuel start n timeout : ℕ) (fired : ℕ → Bool) (o : Observed Moment)
    → wait_for_requests fuel start n timeout fired o ≡ ok tt
    → (j : ℕ) × ((n ≤ (o.value j).requests_n) ⊎ (n ≤ (o.last_value j).requests_n))
unfolding wait_for_requests
wait_for_requests-HasRequests fuel start n timeout fired o h =
    let (j, seen) = assert_wait_event-IsSeen fuel fired _ start timeout h in
    elim seen [ inl now ↦ (j, inl (ground arith)) | inr late ↦ (j, inr (ground arith)) ]
