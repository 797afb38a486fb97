-- ===== src/Config/Stats.antt =====
-- `Stats` and `ServerStats` of framework/services/tempesta.py: the counters of `/proc/tempesta`.
use tempesta_test.Base.{
  ℕ, ◌≡◌, refl, Bool, true, not, ◌&&◌, ◌||◌, List, [], ◌∷◌, map, Option, none, some, if◌then◌else◌,
  ◌==◌, leb, is_empty, Result, ok, raise, assertion_error, drop, length, ℕ_discrete,
}
use tempesta_test.Base.Int.{ℤ, pos, negsuc, leb_ℤ}
use tempesta_test.Text.{is_digit, span, number_of, Text, Text-discrete, codes, same, starts_with}

-- The ASCII white space that `\\s` stands for in a pattern of bytes.
abbrev pub is_blank : ℕ → Bool
is_blank c = (c == b' ') || (leb 9 c && leb c 13)

-- A match of `name\\s+: (\\d+)` at the start of a text: the number. White space is no colon, so the
-- longest run of it is the only one that can be followed by a colon.
unfoldable pub match_here : Text → Text → Option ℕ
match_here name s =
    let blank = span is_blank (drop (length name) s) in
    let digits = (span is_digit (drop 2 blank.1)).0 in
    if starts_with s name
      && (not (is_empty blank.0) && (starts_with blank.1 (codes ": ") && not (is_empty digits)))
    then some (number_of digits)
    else none

-- `re.search`: the first place that matches.
unfoldable pub search_option : Text → Text → Option ℕ
search_option name [] = match_here name []
search_option name (c ∷ s) =
    let later = search_option name s in
    elim (match_here name (c ∷ s)) [ some n ↦ some n | none ↦ later ]

-- `Stats.parse_option`
unfoldable pub parse_option : Text → Text → ℤ
parse_option stats name = elim (search_option name stats) [ some n ↦ pos n | none ↦ negsuc 0 ]

-- The attributes and the names that `parse` reads them by, in its order.
abbrev pub options : List (Text × Text)
options =
    (codes "ss_pfl_hits", codes "SS pfl hits")
    ∷ (codes "ss_pfl_misses", codes "SS pfl misses")
    ∷ (codes "ss_work_queue_full", codes "SS work queue full")
    ∷ (codes "cache_hits", codes "Cache hits")
    ∷ (codes "cache_misses", codes "Cache misses")
    ∷ (codes "cache_objects", codes "Cache objects")
    ∷ (codes "cache_bytes", codes "Cache bytes")
    ∷ (codes "cl_msg_received", codes "Client messages received")
    ∷ (codes "cl_msg_forwarded", codes "Client messages forwarded")
    ∷ (codes "cl_msg_served_from_cache", codes "Client messages served from cache")
    ∷ (codes "cl_msg_parsing_errors", codes "Client messages parsing errors")
    ∷ (codes "cl_msg_filtered_out", codes "Client messages filtered out")
    ∷ (codes "cl_msg_other_errors", codes "Client messages other errors")
    ∷ (codes "cl_conn_attempts", codes "Client connection attempts")
    ∷ (codes "cl_established_connections", codes "Client established connections")
    ∷ (codes "cl_conns_active", codes "Client connections active")
    ∷ (codes "cl_rx_bytes", codes "Client RX bytes")
    ∷ (codes "cl_priority_frame_exceeded", codes "Client priority frames number exceeded")
    ∷ (codes "cl_rst_frame_exceeded", codes "Client rst frames number exceeded")
    ∷ (codes "cl_settings_frame_exceeded", codes "Client settings frames number exceeded")
    ∷ (codes "cl_ping_frame_exceeded", codes "Client ping frames number exceeded")
    ∷ (codes "cl_wnd_update_frame_exceeded", codes "Client window update frames number exceeded")
    ∷ (codes "srv_msg_received", codes "Server messages received")
    ∷ (codes "srv_msg_forwarded", codes "Server messages forwarded")
    ∷ (codes "srv_msg_parsing_errors", codes "Server messages parsing errors")
    ∷ (codes "srv_msg_filtered_out", codes "Server messages filtered out")
    ∷ (codes "srv_msg_other_errors", codes "Server messages other errors")
    ∷ (codes "srv_conn_attempts", codes "Server connection attempts")
    ∷ (codes "srv_established_connections", codes "Server established connections")
    ∷ (codes "srv_conns_active", codes "Server connections active")
    ∷ (codes "srv_rx_bytes", codes "Server RX bytes")
    ∷ []

-- The attributes of `Stats` that hold numbers, as `__dict__` has them.
abbrev pub Stats : Type 0
Stats = List (Text × ℤ)

abbrev pub named_zero : Text × Text → Text × ℤ
named_zero (field, name) = (field, pos 0)

-- `__init__` and `clear`.
unfoldable pub new_stats : Stats
new_stats = map named_zero options

-- `parse`, but for the statuses of the health monitor.
unfoldable pub parse_fields : List (Text × Text) → Text → Stats
parse_fields [] stats = []
parse_fields ((field, name) ∷ l) stats = (field, parse_option stats name) ∷ parse_fields l stats

unfoldable pub parse_stats : Text → Stats
parse_stats stats = parse_fields options stats

-- `__dict__.get(key, -1)`
unfoldable pub get_stat : Stats → Text → ℤ
get_stat [] key = negsuc 0
get_stat ((field, n) ∷ l) key = if same field key then n else get_stat l key

-- `ServerStats.server_health`
unfoldable pub server_health : Text → Result ℤ
server_health stats =
    let health = parse_option stats (codes "HTTP availability") in
    if leb_ℤ (pos 0) health then ok health else raise assertion_error

-- `bool` of a number.
abbrev pub is_nonzero : ℤ → Bool
is_nonzero (pos n) = not (n == 0)
is_nonzero (negsuc n) = true

-- `ServerStats.is_enable_health_monitor`
unfoldable pub is_enable_health_monitor : Text → Bool
is_enable_health_monitor stats =
    is_nonzero (parse_option stats (codes "HTTP health monitor is enabled"))

-- An option that is nowhere in the text.
abbrev pub IsAbsent : Text → Text → Type 0
IsAbsent name stats = search_option name stats ≡ none

-- A server whose statistics have no line on the health monitor counts as monitored.
pub is_enable_health_monitor-absent :
    (stats : Text)
    → IsAbsent (codes "HTTP health monitor is enabled") stats
    → is_enable_health_monitor stats ≡ true
unfolding is_enable_health_monitor parse_option
is_enable_health_monitor-absent stats h = rw (h, is_enable_health_monitor, parse_option)

-- After `parse`, every attribute has the number that stands under its own name, or -1.
pub parse_stats-get :
    (stats : Text)
    → map (λ (o : Text × Text). get_stat (parse_stats stats) o.0) options
      ≡ map (λ (o : Text × Text). parse_option stats o.1) options
unfolding parse_stats parse_fields get_stat Text-discrete ℕ_discrete
parse_stats-get stats = refl
