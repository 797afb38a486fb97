-- ===== src/Server/Endless.antt =====
-- The read loop of `ServerConnection` in framework/deproxy/deproxy_server.py on bytes that decode to no
-- text, such as 0xff: the empty text parses as a request that takes no byte of the buffer.
use tempesta_test.Base.{
  ℕ, zero, suc, ◌+◌, ◌≡◌, refl, ◌∙◌, ap, true, false, [], ◌∷◌, ◌++◌, ok, raise, no_fuel, is_empty,
}
use tempesta_test.Message.{new_request, empty_request}
use tempesta_test.AutoParser.{Surroundings}
use tempesta_test.Server.{
  Server, Connection, receive_request, answer_request, serve_request, serve_buffer, enqueue,
}
use tempesta_test.Server.Termination.{enqueue-req_buffer}

-- A server that answers every request and keeps its connections.
pub record Answers (s : Server) : Type 0 where
  pub checks_none : s.auto_parser.parsing ≡ false
  pub hangs_on_none : s.hang_on_req_num ≡ 0
  pub drops_none : s.drop_conn_when_request_received ≡ false

-- The server and the connection after a round on such bytes.
abbrev after_server : Server → Server
after_server s = record s { requests = s.requests ++ empty_request false ∷ [] }

abbrev after_round : Server → Connection → Connection
after_round s c = enqueue (after_server s) s.response (record c { nrreq = c.nrreq + 1 })

serve_request-endless :
    (w : Surroundings) (s : Server) (c : Connection)
    → Answers s
    → w.decode c.req_buffer ≡ []
    → serve_request w s c ≡ ok (after_server s, after_round s c, true)
unfolding serve_request receive_request answer_request new_request
serve_request-endless w s c v nothing =
    rw
      (
        serve_request, nothing, receive_request, v.checks_none, v.hangs_on_none, answer_request,
        v.drops_none,
      )
      refl

-- If a server has no parser that checks, hangs on no request and drops no connection, and the
-- buffer of a connection is not empty but decodes to the empty text, as bytes that are no UTF-8
-- do, then the loop over the requests in the buffer is out of any number of rounds: it does not
-- end.
pub serve_buffer-endless :
    (w : Surroundings) (s : Server) (c : Connection)
    → Answers s
    → is_empty c.req_buffer ≡ false
    → w.decode c.req_buffer ≡ []
    → (rounds : ℕ) → serve_buffer rounds w s c ≡ raise no_fuel
unfolding serve_buffer
serve_buffer-endless w s c v more nothing zero = refl
serve_buffer-endless w s c v more nothing (suc rounds) =
    let kept = enqueue-req_buffer (after_server s) s.response (record c { nrreq = c.nrreq + 1 }) in
    let later =
      serve_buffer-endless w (after_server s) (after_round s c)
        (record {
          checks_none = v.checks_none;
          hangs_on_none = v.hangs_on_none;
          drops_none = v.drops_none;
        })
        (ap is_empty kept ∙ more) (ap w.decode kept ∙ nothing) rounds in
    rw (more, serve_request-endless w s c v nothing) later
