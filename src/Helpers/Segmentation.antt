-- ===== src/Helpers/Segmentation.antt =====
-- `AnalyzerTCPSegmentation` of framework/helpers/analyzer.py: the segments that Tempesta FW sends are
-- compared with those of the original server.
use tempesta_test.Base.{
  ℕ, zero, suc, ◌+◌, ◌-◌, Bool, true, false, not, List, [], ◌∷◌, ◌++◌, if◌then◌else◌, ◌==◌, leb,
  length, Result, ok, raise, ◌>>=◌, check, value_error, index_error, assertion_error,
}
use tempesta_test.Base.Int.{ℤ, sub_ℕ, leb_ℤ}
use tempesta_test.Text.{Text, same}

-- The fields of a captured packet that are read.
pub record Segment : Type 0 where
  pub dst : Text
  pub src : Text
  pub ip_len : ℕ
  pub dataofs : ℕ
  pub sport : ℕ

-- The ports of Tempesta FW and the server, and the lengths of their segments.
pub record Segmentation : Type 0 where
  pub tfw_port : ℕ
  pub srv_port : ℕ
  pub tfw_pkts : List ℤ
  pub srv_pkts : List ℤ

-- `p.dst or p.src`
abbrev pub address : Segment → Text
address p = elim p.dst [ [] ↦ p.src | c ∷ s ↦ c ∷ s ]

unfoldable pub take_segment : Text → Segment → Segmentation → Segmentation
take_segment client_ip p a =
    let plen = sub_ℕ p.ip_len p.dataofs in
    if not (same (address p) client_ip)
    then a
    else if p.sport == a.tfw_port
    then record a { tfw_pkts = a.tfw_pkts ++ plen ∷ [] }
    else if p.sport == a.srv_port
    then record a { srv_pkts = a.srv_pkts ++ plen ∷ [] }
    else a

unfoldable pub take_segments : Text → List Segment → Segmentation → Segmentation
take_segments client_ip [] a = a
take_segments client_ip (p ∷ l) a = take_segments client_ip l (take_segment client_ip p a)

-- `l.pop(i)`, without the element that it gives.
unfoldable pub pop {ℓ} : {A : Type ℓ} → List A → ℕ → Result (List A)
pop [] i = raise index_error
pop (x ∷ l) zero = ok l
pop (x ∷ l) (suc i) = pop l i >>= λ rest. ok (x ∷ rest)

abbrev pub equal_ℤ : ℤ → ℤ → Bool
equal_ℤ m n = elim (leb_ℤ m n) [ true ↦ leb_ℤ n m | false ↦ false ]

-- `l.index(n)`
unfoldable pub index_of : ℤ → List ℤ → Result ℕ
index_of n [] = raise value_error
index_of n (m ∷ l) = elim (equal_ℤ m n) [ true ↦ ok 0 | false ↦ index_of n l >>= λ i. ok (suc i) ]

abbrev pub first_of : List ℤ → Result ℤ
first_of [] = raise index_error
first_of (n ∷ l) = ok n

-- `check_results`, with the packets that were captured. `tls_offset` is a place in `tfw_pkts`, so
-- `tfw_sent` is not negative.
unfoldable pub check_segments : Text → List Segment → Segmentation → Result (Bool × Segmentation)
check_segments client_ip packets before = do
  let a = take_segments client_ip packets before
  srv_pkts ← pop a.srv_pkts 0
  payload ← first_of srv_pkts
  tls_offset ← index_of payload a.tfw_pkts
  tfw_pkts ← pop a.tfw_pkts (tls_offset + 1)
  let tfw_sent = length tfw_pkts - tls_offset
  let srv_sent = length srv_pkts
  _ ← check (not (length tfw_pkts == 0)) assertion_error
  _ ← check (not (srv_sent == 0)) assertion_error
  _ ← check (leb 6 (length tfw_pkts)) assertion_error
  _ ← check (not (tfw_sent == 0)) assertion_error
  ok (tfw_sent == srv_sent, record a { tfw_pkts = tfw_pkts; srv_pkts = srv_pkts })
