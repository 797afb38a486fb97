-- ===== src/Server/Laws.antt =====
-- What a connection sends.
use tempesta_test.Base.{
  ℕ, zero, suc, ◌+◌, ◌≤◌, ◌<◌, ◌≡◌, refl, ap, ◌∙◌, sym, true, List, [], ◌∷◌, ◌++◌, none, some,
  if◌then◌else◌, leb, length, drop, is_empty, concat, arith, All, length-take, length-drop,
  take-append-drop, append-nil, append_assoc, Bool-cases, inl, inr,
}
use tempesta_test.Text.{Text}
use tempesta_test.Server.{
  Server, Connection, Item, add_response_to_sending_buffer, flush, close, enqueue, segments,
  write_pieces, write_item, write_step, on_queue,
}

concat-segments : (f size : ℕ) (s : Text) → 0 < size → length s ≤ f → concat (segments f size s) ≡ s
unfolding segments
concat-segments zero size [] p h = refl
concat-segments zero size (c ∷ s) p h = absurd (omega arith)
concat-segments (suc f) size [] p h = refl
concat-segments (suc f) size (c ∷ s) p h =
    rw (concat-segments f size (drop size (c ∷ s)) p (omega (arith, length-drop size (c ∷ s))))
      (take-append-drop size (c ∷ s))

segments-bounded : (f size : ℕ) (s : Text) → All (λ piece. length piece ≤ size) (segments f size s)
unfolding segments
segments-bounded zero size s = tt
segments-bounded (suc f) size [] = tt
segments-bounded (suc f) size (c ∷ s) =
    (omega (arith, length-take size (c ∷ s)), segments-bounded f size (drop size (c ∷ s)))

leb-one : (n : ℕ) → leb 1 (suc n) ≡ true
leb-one n = ground arith

-- The pieces that are written for a text make up the text, and with a segment size of at least 1
-- none is longer than it.
pub concat-write_pieces :
    (size : ℕ) (s : Text)
    → (concat (write_pieces size s) ≡ s)
      × (0 < size → All (λ piece. length piece ≤ size) (write_pieces size s))
unfolding write_pieces
concat-write_pieces zero [] = (refl, λ h. tt)
concat-write_pieces zero (c ∷ s) = (append-nil _, λ h. absurd (omega arith))
concat-write_pieces (suc size) [] = (refl, λ h. tt)
concat-write_pieces (suc size) (c ∷ s) = rw (leb-one size) (
  concat-segments (suc (length s)) (suc size) (c ∷ s) (omega arith) (omega arith),
  λ h. segments-bounded (suc (length s)) (suc size) (c ∷ s),
)

-- The bytes of the items of a queue.
abbrev pub item_text : Item → Text
item_text none = []
item_text (some (text, count)) = text

abbrev pub item_count : Item → ℕ
item_count none = 0
item_count (some (text, count)) = count

abbrev pub queue_text : List Item → Text
queue_text [] = []
queue_text (i ∷ l) = item_text i ++ queue_text l

abbrev pub queue_count : List Item → ℕ
queue_count [] = 0
queue_count (i ∷ l) = item_count i + queue_count l

-- Everything that was given to a connection to send: what is written, what waits in the queue, and
-- what waits to be put there.
unfoldable pub accepted_text : Connection → Text
accepted_text c = concat c.written ++ (queue_text c.queue ++ concat c.cur_responses_list)

pub accepted_count : Connection → ℕ
accepted_count c = c.responses_done + (queue_count c.queue + c.cur_pipelined)

pub concat-append : (a b : List Text) → concat (a ++ b) ≡ concat a ++ concat b
concat-append [] b = refl
concat-append (p ∷ a) b =
    ap (◌++◌ p) (concat-append a b) ∙ sym (append_assoc p (concat a) (concat b))

queue_text-append : (a b : List Item) → queue_text (a ++ b) ≡ queue_text a ++ queue_text b
queue_text-append [] b = refl
queue_text-append (i ∷ a) b =
    ap (◌++◌ (item_text i)) (queue_text-append a b)
    ∙ sym (append_assoc (item_text i) (queue_text a) (queue_text b))

queue_count-append : (a b : List Item) → queue_count (a ++ b) ≡ queue_count a + queue_count b
queue_count-append [] b = omega arith
queue_count-append (i ∷ a) b = omega (arith, queue_count-append a b)

-- Flushing moves bytes to the queue, and changes neither them nor their number.
pub flush-accepted :
    (c : Connection)
    → (accepted_text (flush c) ≡ accepted_text c) × (accepted_count (flush c) ≡ accepted_count c)
unfolding flush accepted_text accepted_count
flush-accepted c = (
  ap (λ t. concat c.written ++ t) (simp (queue_text-append, append-nil)),
  omega (
    arith,
    queue_count-append c.queue (some (concat c.cur_responses_list, c.cur_pipelined) ∷ []),
  ),
)

pub close-accepted :
    (c : Connection)
    → (accepted_text (close c) ≡ accepted_text c) × (accepted_count (close c) ≡ accepted_count c)
unfolding close accepted_text accepted_count
close-accepted c = elim (Bool-cases c.readwrite) [
  | inr shut ↦ rw shut (refl, refl)
  | inl open_ ↦
      rw open_ (
        simp (queue_text-append, append-nil),
        omega (arith, queue_count-append c.queue (none ∷ [])),
      )
]

add_response-accepted :
    (response : Text) (c : Connection)
    → (accepted_text (add_response_to_sending_buffer response c) ≡ accepted_text c ++ response)
      × (accepted_count (add_response_to_sending_buffer response c) ≡ accepted_count c + 1)
unfolding add_response_to_sending_buffer accepted_text accepted_count
add_response-accepted response c = (simp (concat-append, append-nil, append_assoc), omega arith)

-- Giving a response to a connection puts its bytes behind all that the connection accepted before
-- and counts one response more, whether or not the buffer is flushed; an empty response changes
-- neither.
pub enqueue-accepted :
    (s : Server) (response : Text) (c : Connection)
    → (accepted_text (enqueue s response c) ≡ accepted_text c ++ response)
      × (accepted_count (enqueue s response c)
          ≡ accepted_count c + (if is_empty response then 0 else 1))
unfolding enqueue
enqueue-accepted s [] c = (sym (append-nil _), omega arith)
enqueue-accepted s (b ∷ response) c =
    let added = add_response-accepted (b ∷ response) c in
    let flushed = flush-accepted (add_response_to_sending_buffer (b ∷ response) c) in
    ground (arith, added, flushed)

write_item-accepted :
    (s : Server) (text : Text) (count : ℕ) (c : Connection)
    → (accepted_text (write_item s text count c)
        ≡ accepted_text (record c { queue = some (text, count) ∷ c.queue }))
      × (accepted_count (write_item s text count c)
          ≡ accepted_count (record c { queue = some (text, count) ∷ c.queue }))
unfolding write_item
write_item-accepted s text count c = ground (arith, close-accepted done, same_text, same_count)
  where
    done : Connection
    done = record c {
      written = c.written ++ write_pieces s.segment_size text;
      responses_done = c.responses_done + count;
    }

    same_text :
        accepted_text done ≡ accepted_text (record c { queue = some (text, count) ∷ c.queue })
    same_text =
        unfold accepted_text in
        simp (concat-append, (concat-write_pieces s.segment_size text).0, append_assoc)

    same_count :
        accepted_count done ≡ accepted_count (record c { queue = some (text, count) ∷ c.queue })
    same_count = unfold accepted_count in omega arith

on_queue-accepted :
    (s : Server) (c : Connection) (q : List Item)
    → (accepted_text (on_queue s c q) ≡ accepted_text (record c { queue = q }))
      × (accepted_count (on_queue s c q) ≡ accepted_count (record c { queue = q }))
unfolding on_queue
on_queue-accepted s c [] = (refl, refl)
on_queue-accepted s c (none ∷ l) = unfold accepted_text accepted_count in (refl, omega arith)
on_queue-accepted s c (some (text, count) ∷ l) =
    write_item-accepted s text count (record c { queue = l })

-- A round of the write loop keeps the bytes that a connection accepted for sending (written,
-- queued and waiting, in this order) and the number of responses in them, with any segment size
-- and whether or not `keep_alive` closes the connection.
pub write_step-accepted :
    (s : Server) (c : Connection)
    → (accepted_text (write_step s c) ≡ accepted_text c)
      × (accepted_count (write_step s c) ≡ accepted_count c)
unfolding write_step
write_step-accepted s c = ground (arith, on_queue-accepted s c c.queue)
