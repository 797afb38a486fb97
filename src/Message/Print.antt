-- ===== src/Message/Print.antt =====
-- How requests and responses of framework/deproxy/deproxy_message.py are printed.
use tempesta_test.Base.{
  ◌++◌, [], ◌∷◌, Option, none, some, Result, ok, raise, ◌>>=◌, type_error, key_error,
}
use tempesta_test.Base.Int.{ℤ}
use tempesta_test.Text.{Text, codes, join}
use tempesta_test.Headers.{show, int, crlf}
use tempesta_test.Message.Parse.{HttpMessage, Request, Response}

-- `" ".join([self.method, self.uri, self.version])`, a `TypeError` if one is `None`.
unfoldable pub show_request_line : Request → Result Text
show_request_line r = elim r.method [
  | none ↦ raise type_error
  | some method ↦ elim r.uri [
    | none ↦ raise type_error
    | some uri ↦ ok (join (codes " ") (method ∷ uri ∷ r.version ∷ []))
  ]
]

-- `str(message)` after its first line.
unfoldable pub show_rest : HttpMessage → Text
unfolding show
show_rest m = crlf ++ (show m.headers ++ (crlf ++ (m.body ++ show m.trailer)))

unfoldable pub show_request : Request → Result Text
unfolding show_request_line show_rest
show_request r = do line ← show_request_line r; ok (line ++ show_rest r.message)

-- `Response.get_firstline`. The table of reason phrases is that of the standard library.
unfoldable pub show_status_line : (ℤ → Option Text) → Response → Result Text
unfolding int
show_status_line reasons r = elim r.status [
  | none ↦ raise type_error
  | some status ↦ int status >>= λ code. elim (reasons code) [
    | none ↦ raise key_error
    | some reason ↦ ok (join (codes " ") (r.version ∷ status ∷ reason ∷ []))
  ]
]

unfoldable pub show_response : (ℤ → Option Text) → Response → Result Text
unfolding show_status_line show_rest
show_response reasons r = do line ← show_status_line reasons r; ok (line ++ show_rest r.message)
