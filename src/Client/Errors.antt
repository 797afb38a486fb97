-- ===== src/Client/Errors.antt =====
-- How the clients of framework/deproxy/deproxy_client.py take errors and close: `_handle_close`,
-- `_handle_error`, `_handle_connect` and the two states of writing. The socket, its TLS and the
-- `_handle_close` of the copied asyncore are parameters.
use tempesta_test.Base.{
  ℕ, ◌≡◌, refl, Bool, true, List, [], ◌∷◌, ◌++◌, Option, some, if◌then◌else◌, ◌==◌, Result, ok,
  raise, ◌>>=◌, Error, parse_error, framework_error, if-Returns, Returns, >>=-Returns,
}

-- The classes of exceptions that `_handle_error` tells apart by `type_error`, which is the exact class:
-- `IncompleteMessage` is another one.
pub data Caught : Type 0 where
  parse_failure want_read want_write ssl_failure refused failed_assertion ssl_eof other_error :
      Caught

-- What `writable` and `_handle_write` are.
pub data Writing : Type 0 where
  connecting pending : Writing

-- What `getsockopt(SOL_SOCKET, SO_ERROR)` gives: a number, the error `EBADF`, or another one.
pub data SocketError : Type 0 where
  errno : ℕ → SocketError
  bad_descriptor : SocketError
  failed : Error → SocketError

-- The fields that these methods change; `socket` is what the base class and the TLS package keep.
pub record Link (S : Type 0) : Type 0 where
  pub socket : S
  pub ssl : Bool
  pub start_time : ℕ
  pub close_connection_for_tcp_fin : Bool
  pub is_rst_received : Option Bool
  pub writing : Writing
  pub error_codes : List Caught

module _ {S : Type 0} (wrap_socket base_close : S → S) (socket_error : S → SocketError) where
  unfoldable pub handle_connect : ℕ → Link S → Link S
  handle_connect now c = record c {
    socket = if c.ssl then wrap_socket c.socket else c.socket;
    start_time = now;
  }

  -- `EPIPE` is 32.
  abbrev pub rst_received : SocketError → Option Bool → Result (Option Bool)
  rst_received (errno n) before = ok (some (n == 32))
  rst_received bad_descriptor before = ok before
  rst_received (failed e) before = raise e

  unfoldable pub handle_close : Link S → Result (Link S)
  handle_close c =
      if c.close_connection_for_tcp_fin
      then (rst_received (socket_error c.socket) c.is_rst_received >>= λ r.
          ok (record c { socket = base_close c.socket; is_rst_received = r; writing = connecting }))
      else ok c

  -- `_stop_deproxy`
  unfoldable pub stop_deproxy : Link S → Result (Link S)
  unfolding handle_close
  stop_deproxy c = handle_close (record c { close_connection_for_tcp_fin = true })

  unfoldable pub add_error_code : Caught → Link S → Link S
  add_error_code e c = record c { error_codes = c.error_codes ++ e ∷ [] }

  abbrev pub after_error : Caught → Link S → Result (Link S)
  after_error parse_failure c = handle_close c >>= λ closed. raise parse_error
  after_error want_read c = ok c
  after_error want_write c = ok c
  after_error ssl_failure c = ok c
  after_error refused c = ok c
  after_error failed_assertion c = ok c
  after_error ssl_eof c = handle_close c
  after_error other_error c = handle_close c >>= λ closed. raise framework_error

  unfoldable pub handle_error : Caught → Link S → Result (Link S)
  unfolding handle_close add_error_code
  handle_error e c = after_error e (add_error_code e c)

  -- Closing keeps the error codes.
  handle_close-error_codes :
      (c : Link S) → Returns (λ d. d.error_codes ≡ c.error_codes) (handle_close c)
  unfolding handle_close
  handle_close-error_codes c =
      if-Returns (λ d. d.error_codes ≡ c.error_codes) c.close_connection_for_tcp_fin _ (ok c)
        (>>=-Returns (λ d. d.error_codes ≡ c.error_codes)
          (rst_received (socket_error c.socket) c.is_rst_received) _ (λ r. refl))
        refl

  -- Each error that is handled without an exception is recorded behind those before it.
  handle_error-error_codes :
      (e : Caught) (c : Link S)
      → Returns (λ d. d.error_codes ≡ c.error_codes ++ e ∷ []) (handle_error e c)
  unfolding handle_error add_error_code
  handle_error-error_codes parse_failure c =
      >>=-Returns (λ (d : Link S). d.error_codes ≡ c.error_codes ++ parse_failure ∷ [])
        (handle_close (add_error_code parse_failure c)) (λ d. raise parse_error) (λ d. tt)
  handle_error-error_codes want_read c = refl
  handle_error-error_codes want_write c = refl
  handle_error-error_codes ssl_failure c = refl
  handle_error-error_codes refused c = refl
  handle_error-error_codes failed_assertion c = refl
  handle_error-error_codes ssl_eof c = handle_close-error_codes _
  handle_error-error_codes other_error c =
      >>=-Returns (λ (d : Link S). d.error_codes ≡ c.error_codes ++ other_error ∷ [])
        (handle_close (add_error_code other_error c)) (λ d. raise framework_error) (λ d. tt)
