-- ===== src/Server/Pipe.antt =====
-- A connection of framework/deproxy/deproxy_server.py as a pipe: what its tasks do to it, in any
-- order, is what a queue of bytes does.
use tempesta_test.Base.{
  ◌+◌, ◌≡◌, refl, ap, sym, ◌∙◌, true, false, List, [], ◌∷◌, ◌++◌, none, some, if◌then◌else◌, ◌&&◌,
  leb, concat, arith, append-nil, append_assoc, Bool-cases, inl, inr,
}
use tempesta_test.Text.{Text}
use tempesta_test.Server.{
  Server, Connection, Item, add_response_to_sending_buffer, flush, close, enqueue, write_pieces,
  write_item, write_step, on_queue,
}
use tempesta_test.Server.Laws.{
  accepted_text, enqueue-accepted, flush-accepted, close-accepted, write_step-accepted, queue_text,
  concat-append,
}

-- What the reading task and the writing task do to a connection.
pub data Step (s : Server) : Connection → Connection → Type 0 where
  enqueues : (response : Text) (c : Connection) → Step s c (enqueue s response c)
  flushes : (c : Connection) → Step s c (flush c)
  closes : (c : Connection) → Step s c (close c)
  writes : (c : Connection) → Step s c (write_step s c)

-- The bytes that have left a pipe, and those that are in it, in their order.
pub record Pipe : Type 0 where
  pub sent : Text
  pub pending : Text

-- Bytes enter at the end, or leave at the front.
pub data PipeStep : Pipe → Pipe → Type 0 where
  accepts : (p q : Pipe) (t : Text) → q.sent ≡ p.sent → q.pending ≡ p.pending ++ t → PipeStep p q
  delivers :
      (p q : Pipe) (d : Text) → q.sent ≡ p.sent ++ d → p.pending ≡ d ++ q.pending → PipeStep p q

-- Any number of steps.
pub data Steps {S : Type 0} (Goes : S → S → Type 0) : S → S → Type 0 where
  here : (c : S) → Steps Goes c c
  next_step : (c d e : S) → Goes c d → Steps Goes d e → Steps Goes c e

abbrev pub pipe : Connection → Pipe
pipe c = record {
  sent = concat c.written;
  pending = queue_text c.queue ++ concat c.cur_responses_list;
}

append_cancel : (s a b : Text) → s ++ a ≡ s ++ b → a ≡ b
append_cancel [] a b h = h
append_cancel (c ∷ s) a b h = append_cancel s a b (ground arith)

enqueue-written : (s : Server) (t : Text) (c : Connection) → (enqueue s t c).written ≡ c.written
unfolding enqueue add_response_to_sending_buffer flush
enqueue-written s [] c = refl
enqueue-written s (b ∷ t) c = elim (Bool-cases (leb s.pipelined (c.cur_pipelined + 1))) [
  | inl full ↦ rw (full, enqueue)
  | inr more ↦ rw (more, enqueue)
]

close-written : (c : Connection) → (close c).written ≡ c.written
unfolding close
close-written c = elim (Bool-cases c.readwrite) [
  | inl open_ ↦ rw (open_, close)
  | inr shut ↦ rw (shut, close)
]

write_item-written :
    (s : Server) (text : Text) (count : _) (c : Connection)
    → (write_item s text count c).written ≡ c.written ++ write_pieces s.segment_size text
unfolding write_item
write_item-written s text count c =
    elim (Bool-cases (leb 1 s.keep_alive && leb s.keep_alive (c.responses_done + count))) [
      | inl last ↦ rw (last, write_item) (close-written _)
      | inr more ↦ rw (more, write_item)
    ]

on_queue-written :
    (s : Server) (c : Connection) (q : List Item)
    → (d : Text) × (concat (on_queue s c q).written ≡ concat c.written ++ d)
unfolding on_queue
on_queue-written s c [] = ([], sym (append-nil (concat c.written)))
on_queue-written s c (none ∷ l) = ([], sym (append-nil (concat c.written)))
on_queue-written s c (some (text, count) ∷ l) = (
  concat (write_pieces s.segment_size text),
  ap concat (write_item-written s text count (record c { queue = l })) ∙ concat-append c.written _,
)

write_step-written :
    (s : Server) (c : Connection)
    → (d : Text) × (concat (write_step s c).written ≡ concat c.written ++ d)
unfolding write_step
write_step-written s c = elim (Bool-cases c.readwrite) [
  | inr shut ↦ ([], ap (λ e. concat e.written) (same shut) ∙ sym (append-nil (concat c.written)))
  | inl open_ ↦
      let (d, wrote) = on_queue-written s c c.queue in
      (d, ap (λ e. concat e.written) (next open_) ∙ wrote)
]
  where
    same : c.readwrite ≡ false → write_step s c ≡ c
    same shut = ap (λ b. if b then on_queue s c c.queue else c) shut

    next : c.readwrite ≡ true → write_step s c ≡ on_queue s c c.queue
    next open_ = ap (λ b. if b then on_queue s c c.queue else c) open_

-- A step that writes nothing and accepts t.
accepting :
    (c d : Connection) (t : Text)
    → d.written ≡ c.written
    → accepted_text d ≡ accepted_text c ++ t
    → PipeStep (pipe c) (pipe d)
unfolding accepted_text
accepting c d t wrote accepted =
    let same = ap concat wrote in
    accepts (pipe c) (pipe d) t same (
      append_cancel (concat c.written) _ _ (
        ap (λ s. s ++ (pipe d).pending) (sym same)
        ∙ accepted
        ∙ append_assoc (concat c.written) _ t))

-- A step that accepts nothing and writes d.
delivering :
    (c e : Connection) (d : Text)
    → concat e.written ≡ concat c.written ++ d
    → accepted_text e ≡ accepted_text c
    → PipeStep (pipe c) (pipe e)
unfolding accepted_text
delivering c e d wrote accepted = delivers (pipe c) (pipe e) d wrote (
    append_cancel (concat c.written) _ _
      (sym accepted ∙ ap (λ s. s ++ (pipe e).pending) wrote ∙ append_assoc (concat c.written) d _))

Step-PipeStep : (s : Server) (c d : Connection) → Step s c d → PipeStep (pipe c) (pipe d)
unfolding flush
Step-PipeStep s c d (enqueues t c') =
    accepting c' (enqueue s t c') t (enqueue-written s t c') (enqueue-accepted s t c').0
Step-PipeStep s c d (flushes c') =
    accepting c' (flush c') [] refl ((flush-accepted c').0 ∙ sym (append-nil (accepted_text c')))
Step-PipeStep s c d (closes c') =
    accepting c' (close c') [] (close-written c')
      ((close-accepted c').0 ∙ sym (append-nil (accepted_text c')))
Step-PipeStep s c d (writes c') =
    let (t, wrote) = write_step-written s c' in
    delivering c' (write_step s c') t wrote (write_step-accepted s c').0

-- Whatever is done to a connection, in any order and number of steps (giving it a response,
-- flushing, closing, a round of the write loop), is what a pipe of bytes does: each step puts
-- bytes in at its end, or lets bytes leave at its front; the pipe holds the bytes of the queue
-- and of the waiting responses.
pub Steps-PipeStep :
    (s : Server) (c d : Connection) → Steps (Step s) c d → Steps PipeStep (pipe c) (pipe d)
Steps-PipeStep s c d (here c') = here (pipe c')
Steps-PipeStep s c d (next_step c' e d' step rest) =
    next_step (pipe c') (pipe e) (pipe d') (Step-PipeStep s c' e step) (Steps-PipeStep s e d' rest)
