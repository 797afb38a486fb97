-- ===== src/Deproxy.antt =====
-- `BaseDeproxy` of framework/deproxy/deproxy_base.py: the numbers that clients and servers are set up
-- with, and starting and stopping under the lock of the polling thread.
use tempesta_test.Base.{
  ◌≡◌, refl, Bool, true, false, Option, none, some, if◌then◌else◌, Result, ok, raise, ◌>>=◌,
  value_error, Error, >>=-eq-ok, arith,
}
use tempesta_test.Base.Int.{ℤ, pos, negsuc, ltb_ℤ, leb_ℤ}

pub record Numbers : Type 0 where
  pub port : ℤ
  pub segment_size : ℤ
  pub segment_gap : ℤ
  pub rcv_buf_size : ℤ

-- The setters.
unfoldable pub set_port : ℤ → Numbers → Result Numbers
set_port n d = if leb_ℤ n (pos 0) then raise value_error else ok (record d { port = n })

unfoldable pub set_segment_size : ℤ → Numbers → Result Numbers
set_segment_size n d =
    if ltb_ℤ n (pos 0) then raise value_error else ok (record d { segment_size = n })

unfoldable pub set_segment_gap : ℤ → Numbers → Result Numbers
set_segment_gap n d =
    if ltb_ℤ n (pos 0) then raise value_error else ok (record d { segment_gap = n })

unfoldable pub set_rcv_buf_size : ℤ → Numbers → Result Numbers
set_rcv_buf_size n d =
    if ltb_ℤ n (negsuc 0) then raise value_error else ok (record d { rcv_buf_size = n })

abbrev no_numbers : Numbers
no_numbers = record {
  port = pos 0;
  segment_size = pos 0;
  segment_gap = pos 0;
  rcv_buf_size = pos 0;
}

-- `n or m`
abbrev pub or_else : ℤ → ℤ → ℤ
or_else n m = if leb_ℤ n (pos 0) then (if leb_ℤ (pos 0) n then m else n) else n

-- `__init__`, with `run_config.TCP_SEGMENTATION`; the address is checked between the port and the
-- segments.
unfoldable pub new_numbers : ℤ → Result (Unit {0}) → ℤ → ℤ → ℤ → ℤ → Result Numbers
unfolding set_port set_segment_size set_segment_gap set_rcv_buf_size
new_numbers port address tcp_segmentation size gap buffer = do
  a ← set_port port no_numbers
  u ← address
  b ← set_segment_size (or_else size tcp_segmentation) a
  c ← set_segment_gap gap b
  set_rcv_buf_size buffer c

-- What a method under the lock does: the new object, and what it raises.
abbrev pub Method : Type 0 → Type 0
Method S = S → S × Option Error

-- The object, and whether its lock is held.
pub record Locked (S : Type 0) : Type 0 where
  pub object : S
  pub held : Bool

module _ {S : Type 0} where
  -- `try` with a `finally` that releases the lock; what is raised goes on.
  unfoldable pub under_lock : Method S → Locked S → Locked S × Option Error
  under_lock method d =
      let out = method d.object in (record { object = out.0; held = false }, out.1)

  -- `run_start`
  unfoldable pub run_start : Method S → Locked S → Locked S × Option Error
  unfolding under_lock
  run_start run_deproxy d = under_lock run_deproxy (record d { held = true })

  abbrev pub then_clear : (S → S) → S × Option Error → S × Option Error
  then_clear clear_stats (s, none) = (clear_stats s, none)
  then_clear clear_stats (s, some e) = (s, some e)

  -- `__stop`, for a `clear_stats` that raises nothing.
  unfoldable pub stop : Method S → (S → S) → Locked S → Locked S × Option Error
  unfolding under_lock
  stop stop_deproxy clear_stats d =
      under_lock (λ s. then_clear clear_stats (stop_deproxy s)) (record d { held = true })

-- The numbers that the setters let through.
record IsValid (d : Numbers) : Type 0 where
  port_pos : leb_ℤ d.port (pos 0) ≡ false
  size_nonneg : ltb_ℤ d.segment_size (pos 0) ≡ false
  gap_nonneg : ltb_ℤ d.segment_gap (pos 0) ≡ false
  buffer_lower : ltb_ℤ d.rcv_buf_size (negsuc 0) ≡ false

raise_if :
    {A : Type 0} (b : Bool) (a c : A)
    → (if b then raise value_error else ok a) ≡ ok c
    → (b ≡ false) × (a ≡ c)
raise_if true a c h = absurd (ground arith)
raise_if false a c h = (refl, ground arith)

-- If setting up the numbers returns, then the port is positive, the segment's size and gap are not
-- negative, and the size of the receive buffer is -1 at least.
new_numbers-IsValid :
    (port : ℤ) (address : Result (Unit {0})) (tcp_segmentation size gap buffer : ℤ) (d : Numbers)
    → new_numbers port address tcp_segmentation size gap buffer ≡ ok d
    → IsValid d
unfolding new_numbers set_port set_segment_size set_segment_gap set_rcv_buf_size
new_numbers-IsValid port address tcp_segmentation size gap buffer d h =
    let (a, is_a, h1) = >>=-eq-ok (set_port port no_numbers) _ h in
    let (u, is_u, h2) = >>=-eq-ok address _ h1 in
    let (b, is_b, h3) = >>=-eq-ok (set_segment_size (or_else size tcp_segmentation) a) _ h2 in
    let (c, is_c, is_d) = >>=-eq-ok (set_segment_gap gap b) _ h3 in
    let (port_is, to_a) = raise_if (leb_ℤ port (pos 0)) _ a is_a in
    let (size_is, to_b) = raise_if (ltb_ℤ (or_else size tcp_segmentation) (pos 0)) _ b is_b in
    let (gap_is, to_c) = raise_if (ltb_ℤ gap (pos 0)) _ c is_c in
    let (buffer_is, to_d) = raise_if (ltb_ℤ buffer (negsuc 0)) _ d is_d in
    rw (← to_d, ← to_c, ← to_b, ← to_a)
      (record {
        port_pos = port_is;
        size_nonneg = size_is;
        gap_nonneg = gap_is;
        buffer_lower = buffer_is;
      })
