-- ===== src/Manager.antt =====
-- `DeproxyManager` of framework/deproxy/deproxy_manager.py: its clients and servers, a round of
-- polling, and its thread beside the tests' (Threads, Serial). The socket map and the sockets'
-- methods are those of the copied asyncore, so they are parameters.
pub mod Threads
pub mod Serial
pub mod Settling
use tempesta_test.Base.{
  ℕ, ◌+◌, Bool, true, false, not, ◌&&◌, List, [], ◌∷◌, ◌++◌, map, Option, none, some, if◌then◌else◌,
  ◌==◌, Error,
}
use tempesta_test.Stateful.{State, is_error}

-- The manager with the states of its clients and servers.
pub record Manager : Type 0 where
  pub state : State
  pub clients : List State
  pub servers : List State

unfoldable pub clear_stats : Manager → Manager
clear_stats m = record m { clients = []; servers = [] }

unfoldable pub add_server : State → Manager → Manager
add_server server m = record m { servers = m.servers ++ server ∷ [] }

unfoldable pub add_client : State → Manager → Manager
add_client client m = record m { clients = m.clients ++ client ∷ [] }

-- The setter of `state`.
unfoldable pub set_state : State → Manager → Manager
set_state new_state m =
    if is_error new_state
    then record m {
      state = new_state;
      clients = map (λ c. new_state) m.clients;
      servers = map (λ s. new_state) m.servers;
    }
    else record m { state = new_state }

-- What polling asks a socket.
pub record Pollable : Type 0 where
  pub readable : Bool
  pub writable : Bool
  pub accepting : Bool

-- `POLLIN | POLLPRI` is 3, and `POLLOUT` is 4.
unfoldable pub flags_of : Pollable → ℕ
flags_of o = (if o.readable then 3 else 0) + (if o.writable && not o.accepting then 4 else 0)

-- The descriptors that are registered, with their flags.
unfoldable pub registered : List (ℕ × Pollable) → List (ℕ × ℕ)
unfolding flags_of
registered [] = []
registered ((fd, o) ∷ l) =
    let rest = registered l in if flags_of o == 0 then rest else (fd, flags_of o) ∷ rest

abbrev pub has_socket : ℕ → List (ℕ × Pollable) → Bool
has_socket fd [] = false
has_socket fd ((n, o) ∷ l) = if n == fd then true else has_socket fd l

-- The socket map of a world of any type, what the system's poll gives, and the sockets' methods,
-- which may change the map and may raise.
module _ {S : Type 0} (socket_map : S → List (ℕ × Pollable)) (clear : S → S)
    (readwrite : ℕ → ℕ → S → S × Option Error) (handle_close : ℕ → S → S × Option Error) where
  -- The second loop: a socket that has left the map is passed over.
  unfoldable pub deliver : List (ℕ × ℕ) → S → S × Option Error
  deliver [] s = (s, none)
  deliver ((fd, flags) ∷ r) s =
      if has_socket fd (socket_map s)
      then (elim (readwrite fd flags s).1 [
        | none ↦ deliver r (readwrite fd flags s).0
        | some e ↦ ((readwrite fd flags s).0, some e)
      ])
      else deliver r s

  -- `_poll`, with the answer of the poll object.
  unfoldable pub poll : (List (ℕ × ℕ) → List (ℕ × ℕ)) → S → S × Option Error
  unfolding deliver registered
  poll answer s = elim (socket_map s) [
    | [] ↦ (s, none)
    | o ∷ l ↦ deliver (answer (registered (o ∷ l))) s
  ]

  unfoldable pub close_all : List (ℕ × Pollable) → S → S
  close_all [] s = s
  close_all ((fd, o) ∷ l) s = close_all l (handle_close fd s).0

  -- `finish_all_deproxy`, which passes over what closing raises.
  unfoldable pub finish_all_deproxy : S → S
  unfolding close_all
  finish_all_deproxy s = clear (close_all (socket_map s) s)
