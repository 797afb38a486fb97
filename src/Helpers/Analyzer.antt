-- ===== src/Helpers/Analyzer.antt =====
-- `AnalyzerCloseRegular` of framework/helpers/analyzer.py: the order of the packets that close a
-- TCP connection.
use tempesta_test.Base.{
  ℕ, ◌+◌, ◌*◌, ◌/◌, ◌%◌, ◌≡◌, Bool, true, false, not, ◌&&◌, ◌||◌, List, [], ◌∷◌, Option, none, some,
  if◌then◌else◌, ◌==◌, leb, is_empty, any_of, arith, inl, inr, Option-cases,
}
use tempesta_test.Base.Int.{ℤ, pos, sub_ℕ, ltb_ℤ}

-- The fields of a captured packet that are read.
pub record Packet : Type 0 where
  pub flags : ℕ
  pub sport : ℕ
  pub dport : ℕ
  pub seq : ℕ
  pub ack : ℕ
  pub ip_len : ℕ
  pub ihl : ℕ
  pub dataofs : ℕ

-- `flags & FIN`, `flags & RST` and `flags & ACK`, for the bits 0x01, 0x04 and 0x10.
unfoldable pub has_fin : Packet → Bool
has_fin p = p.flags % 2 == 1

unfoldable pub has_rst : Packet → Bool
has_rst p = (p.flags / 4) % 2 == 1

unfoldable pub has_ack : Packet → Bool
has_ack p = (p.flags / 16) % 2 == 1

-- The port that is watched, and which side closes first.
pub record Analyzer : Type 0 where
  pub port : ℕ
  pub node_side_close : Bool

unfoldable pub portcmp : Analyzer → Bool → Packet → Bool
portcmp a invert p =
    if a.node_side_close && invert
    then p.dport == a.port
    else if a.node_side_close && not invert
    then p.sport == a.port
    else if not a.node_side_close && invert
    then p.sport == a.port
    else p.dport == a.port

-- The sequence number behind the packet's payload.
unfoldable pub end_of_payload : Packet → ℤ
end_of_payload p = sub_ℕ (p.seq + p.ip_len) (p.ihl * 4 + p.dataofs * 4)

-- `count_seq` and `l_seq`.
pub record Progress : Type 0 where
  pub count_seq : ℕ
  pub l_seq : ℤ

abbrev no_progress : Progress
no_progress = record { count_seq = 0; l_seq = pos 0 }

-- An acknowledgement at a stage, by the side that `invert` names.
unfoldable pub acknowledge : Analyzer → ℕ → Bool → Packet → Progress → Progress
acknowledge a stage invert p s =
    if (s.count_seq == stage) && (has_ack p && (portcmp a invert p && ltb_ℤ s.l_seq (pos p.ack)))
    then record s { count_seq = s.count_seq + 1 }
    else s

-- One round of the loop of `check_results`; `none` is `return False`.
unfoldable pub check_packet : Analyzer → Packet → Progress → Option Progress
unfolding acknowledge
check_packet a p s =
    let acked = acknowledge a 1 true p s in
    if has_rst p || leb 4 s.count_seq
    then none
    else if (s.count_seq == 0) && (has_fin p && portcmp a false p)
    then some (record { count_seq = s.count_seq + 1; l_seq = end_of_payload p })
    else if (acked.count_seq == 2) && (has_fin p && portcmp a true p)
    then some (record { count_seq = acked.count_seq + 1; l_seq = end_of_payload p })
    else some (acknowledge a 3 false p acked)

unfoldable pub check_packets : Analyzer → List Packet → Progress → Option Progress
check_packets a [] s = some s
check_packets a (p ∷ l) s = elim (check_packet a p s) [
  | none ↦ none
  | some s' ↦ check_packets a l s'
]

is_complete : Option Progress → Bool
is_complete none = false
is_complete (some s) = s.count_seq == 4

unfoldable pub check_results : Analyzer → List Packet → Bool
unfolding check_packets check_packet has_fin has_rst has_ack portcmp end_of_payload is_complete
check_results a packets =
    not (is_empty packets) && is_complete (check_packets a packets no_progress)

-- What is left to be seen at a stage: a FIN of the closing side up to stage 0, one of the other side
-- up to stage 2, and no reset.
abbrev needs : (Packet → Bool) → Bool → List Packet → Bool
needs test still l = not still || any_of test l

pub record Seen (a : Analyzer) (s : Progress) (l : List Packet) : Type 0 where
  pub no_reset : any_of has_rst l ≡ false
  pub first_fin : needs (λ p. has_fin p && portcmp a false p) (s.count_seq == 0) l ≡ true
  pub second_fin : needs (λ p. has_fin p && portcmp a true p) (leb s.count_seq 2) l ≡ true

Seen-cons :
    (a : Analyzer) (p : Packet) (l : List Packet) (s s' : Progress)
    → check_packet a p s ≡ some s'
    → Seen a s' l
    → Seen a s (p ∷ l)
unfolding check_packet acknowledge
Seen-cons a p l s s' h seen = ground arith

check_packets-Seen :
    (a : Analyzer) (l : List Packet) (s : Progress)
    → is_complete (check_packets a l s) ≡ true
    → Seen a s l
unfolding check_packets is_complete
check_packets-Seen a [] s h = ground arith
check_packets-Seen a (p ∷ l) s h = elim (Option-cases (check_packet a p s)) [
  | inl stops ↦ absurd (ground arith)
  | inr (s', on) ↦ Seen-cons a p l s s' on (check_packets-Seen a l s' (ground arith))
]

and_right : (b c : Bool) → (b && c) ≡ true → c ≡ true
and_right b c h = ground arith

-- A capture that passes the check of a regular close has no reset, a FIN of the side that closes
-- first, and a FIN of the other side.
pub check_results-Seen :
    (a : Analyzer) (l : List Packet)
    → check_results a l ≡ true
    → (any_of has_rst l ≡ false)
      × (any_of (λ p. has_fin p && portcmp a false p) l ≡ true)
      × (any_of (λ p. has_fin p && portcmp a true p) l ≡ true)
unfolding check_results
check_results-Seen a l h =
    let seen = check_packets-Seen a l no_progress (and_right (not (is_empty l)) _ h) in
    (seen.no_reset, seen.first_fin, seen.second_fin)
