-- ===== src/AutoParser/Proxying.antt =====
-- What the expected messages of `DeproxyAutoParser` (framework/deproxy/deproxy_auto_parser.py) hold.
use tempesta_test.Base.{
  ◌≡◌, refl, inl, inr, Bool, true, false, ◌||◌, List, [], ◌∷◌, Option, none, some, if◌then◌else◌,
  is_empty, any_of, All, arith, Bool-cases, ◌∙◌, ap, ℕ_discrete,
}
use tempesta_test.Text.{Text, Text-discrete, codes, same, lower}
use tempesta_test.Headers.{
  HeaderCollection, delete_all, find_all, find_all-delete_all, get, contains, add, find_all-add,
}
use tempesta_test.Message.{HttpMessage}
use tempesta_test.AutoParser.Expected.{
  delete_each, hop_by_hop, prepare_hop_by_hop_headers, add_content_length, prepare_body_for_head,
  prepare_chunked, move_encodings, move_codings, content_encoding, clear_trailer, adapt_response,
  strip_response, uncache, encode_response,
}

-- Whether a name is one of the list's, in any spelling.
abbrev pub listed : Text → List Text → Bool
listed j = any_of (λ name. same (lower name) (lower j))

find_all-delete_each :
    (l : List Text) (c : HeaderCollection) (j : Text)
    → find_all (delete_each l c) j ≡ (if listed j l then [] else find_all c j)
unfolding delete_each
find_all-delete_each [] c j = refl
find_all-delete_each (name ∷ l) c j =
    ground (arith, find_all-delete_each l (delete_all c name) j, find_all-delete_all c name j)

-- Of the headers of a message, `__prepare_hop_by_hop_headers` removes the four hop-by-hop headers
-- in any spelling, and keeps the values of every other name in their order.
pub prepare_hop_by_hop_headers-find_all :
    (m : HttpMessage) (j : Text)
    → find_all (prepare_hop_by_hop_headers m).headers j
      ≡ (if listed j hop_by_hop then [] else find_all m.headers j)
unfolding prepare_hop_by_hop_headers
prepare_hop_by_hop_headers-find_all m j = find_all-delete_each hop_by_hop m.headers j

-- None of the headers of one name.
abbrev Lacks : Text → HeaderCollection → Type 0
Lacks j c = find_all c j ≡ []

add-Lacks :
    (c : HeaderCollection) (name value j : Text)
    → same (lower name) (lower j) ≡ false
    → Lacks j c
    → Lacks j (add c name value)
add-Lacks c name value j other h = rw (find_all-add c name value j, h, other) refl

delete_all-Lacks : (c : HeaderCollection) (name j : Text) → Lacks j c → Lacks j (delete_all c name)
delete_all-Lacks c name j h = ground (arith, find_all-delete_all c name j)

delete_each-Lacks :
    (l : List Text) (c : HeaderCollection) (j : Text) → Lacks j c → Lacks j (delete_each l c)
delete_each-Lacks l c j h = ground (arith, find_all-delete_each l c j)

if-Lacks :
    (j : Text) (b : Bool) (m n : HttpMessage)
    → Lacks j m.headers
    → Lacks j n.headers
    → Lacks j (if b then m else n).headers
if-Lacks j true m n h k = h
if-Lacks j false m n h k = k

move_codings-Lacks :
    (te : Option Text) (c : HeaderCollection) (j : Text)
    → same (lower (codes "content-encoding")) (lower j) ≡ false
    → Lacks j c
    → Lacks j (move_codings te c)
unfolding move_codings
move_codings-Lacks none c j other h = h
move_codings-Lacks (some te) c j other h =
    let rest = delete_all-Lacks c (codes "Transfer-Encoding") j h in
    elim (Bool-cases (is_empty (content_encoding te))) [
      | inl e ↦ rw e rest
      | inr e ↦ rw e (add-Lacks (delete_all c (codes "Transfer-Encoding")) _ _ j other rest)
    ]

prepare_chunked-Lacks :
    (http2 is_head : Bool) (j : Text) (m : HttpMessage)
    → same (lower (codes "content-encoding")) (lower j) ≡ false
    → Lacks j m.headers
    → Lacks j (prepare_chunked http2 is_head m).headers
unfolding prepare_chunked
prepare_chunked-Lacks http2 is_head j m other h =
    let moved =
      if-Lacks j http2 (record m { headers = move_encodings m.headers }) m
        (move_codings-Lacks (get m.headers (codes "Transfer-Encoding")) m.headers j other h) h in
    if-Lacks j (contains m.headers (codes "Transfer-Encoding")) _ m
      (if-Lacks j is_head _ _ moved moved) h

add_content_length-Lacks :
    (status : Option Text) (j : Text) (m : HttpMessage)
    → same (lower (codes "content-length")) (lower j) ≡ false
    → Lacks j m.headers
    → Lacks j (add_content_length status m).headers
unfolding add_content_length
add_content_length-Lacks status j m other h =
    if-Lacks j _ _ _ (add-Lacks m.headers (codes "content-length") _ j other h) h

clear_trailer-Lacks :
    (j : Text) (m : HttpMessage) → Lacks j m.headers → Lacks j (clear_trailer m).headers
unfolding clear_trailer
clear_trailer-Lacks j m h = h

prepare_body_for_head-Lacks :
    (is_head : Bool) (j : Text) (m : HttpMessage)
    → Lacks j m.headers
    → Lacks j (prepare_body_for_head is_head m).headers
unfolding prepare_body_for_head
prepare_body_for_head-Lacks is_head j m h = if-Lacks j is_head _ m h h

prepare_body_for_head-find_all :
    (is_head : Bool) (m : HttpMessage) (j : Text)
    → find_all (prepare_body_for_head is_head m).headers j ≡ find_all m.headers j
unfolding prepare_body_for_head
prepare_body_for_head-find_all true m j = refl
prepare_body_for_head-find_all false m j = refl

if-or :
    (a b : Bool) (l : List Text)
    → (if b then [] else (if a then [] else l)) ≡ (if a || b then [] else l)
if-or true true l = refl
if-or true false l = refl
if-or false b l = refl

strip_response-find_all :
    (is_head : Bool) (m : HttpMessage) (j : Text)
    → find_all (strip_response is_head m).headers j
      ≡ (if listed j (codes "trailer" ∷ hop_by_hop) then [] else find_all m.headers j)
unfolding strip_response
strip_response-find_all is_head m j =
    let bare = prepare_body_for_head is_head m in
    prepare_hop_by_hop_headers-find_all
      (record bare { headers = delete_all bare.headers (codes "trailer") }) j
    ∙ (ap (λ l. if listed j hop_by_hop then [] else l)
          (find_all-delete_all bare.headers (codes "trailer") j)
        ∙ (if-or (same (lower (codes "trailer")) (lower j)) (listed j hop_by_hop)
              (find_all bare.headers j)
            ∙ ap (λ l. if listed j (codes "trailer" ∷ hop_by_hop) then [] else l)
                (prepare_body_for_head-find_all is_head m j)))

uncache-Lacks :
    (is_cache : Bool) (j : Text) (m : HttpMessage)
    → Lacks j m.headers
    → Lacks j (uncache is_cache m).headers
unfolding uncache
uncache-Lacks true j m h = delete_all-Lacks m.headers (codes "set-cookie") j h
uncache-Lacks false j m h = h

encode_response-Lacks :
    (http2 is_cache is_head : Bool) (j : Text) (m : HttpMessage)
    → same (lower (codes "content-encoding")) (lower j) ≡ false
    → Lacks j m.headers
    → Lacks j (encode_response http2 is_cache is_head m).headers
unfolding encode_response
encode_response-Lacks http2 is_cache is_head j m other h =
    if-Lacks j (http2 || is_cache) (prepare_chunked http2 is_head m)
      (if is_head then clear_trailer m else m) (prepare_chunked-Lacks http2 is_head j m other h)
      (if-Lacks j is_head (clear_trailer m) m (clear_trailer-Lacks j m h) h)

adapt_response-Lacks :
    (http2 is_cache is_head : Bool) (status : Option Text) (m : HttpMessage) (j : Text)
    → same (lower (codes "content-encoding")) (lower j) ≡ false
    → same (lower (codes "content-length")) (lower j) ≡ false
    → listed j (codes "trailer" ∷ hop_by_hop) ≡ true
    → Lacks j (adapt_response http2 is_cache is_head status m).headers
unfolding adapt_response
adapt_response-Lacks http2 is_cache is_head status m j encoding size hidden =
    prepare_body_for_head-Lacks is_head j
      (if http2 then encoded else add_content_length status encoded)
      (if-Lacks j http2 encoded (add_content_length status encoded) without
        (add_content_length-Lacks status j encoded size without))
  where
    encoded : HttpMessage
    encoded = encode_response http2 is_cache is_head (uncache is_cache (strip_response is_head m))

    without : Lacks j encoded.headers
    without =
        encode_response-Lacks http2 is_cache is_head j (uncache is_cache (strip_response is_head m))
          encoding
          (uncache-Lacks is_cache j (strip_response is_head m) (
            strip_response-find_all is_head m j
            ∙ ap (λ b. if b then [] else find_all m.headers j) hidden))

-- The response that is expected at the client has no `Trailer`, `Connection`, `Keep-Alive`,
-- `Proxy-Connection` or `Upgrade` header, whatever the server sent, for HTTP/1 and HTTP/2, from
-- the cache or not, for HEAD and other requests.
pub adapt_response-hop_by_hop :
    (http2 is_cache is_head : Bool) (status : Option Text) (m : HttpMessage)
    → All
        (λ j. find_all (adapt_response http2 is_cache is_head status m).headers j ≡ [])
        (codes "trailer" ∷ hop_by_hop)
unfolding Text-discrete ℕ_discrete
adapt_response-hop_by_hop http2 is_cache is_head status m = (
  lacks (codes "trailer") refl refl refl,
  (
    lacks (codes "connection") refl refl refl,
    (
      lacks (codes "keep-alive") refl refl refl,
      (
        lacks (codes "proxy-connection") refl refl refl,
        (lacks (codes "upgrade") refl refl refl, tt),
      ),
    ),
  ),
)
  where
    lacks :
        (j : Text)
        → same (lower (codes "content-encoding")) (lower j) ≡ false
        → same (lower (codes "content-length")) (lower j) ≡ false
        → listed j (codes "trailer" ∷ hop_by_hop) ≡ true
        → Lacks j (adapt_response http2 is_cache is_head status m).headers
    lacks = adapt_response-Lacks http2 is_cache is_head status m
