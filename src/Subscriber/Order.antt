-- ===== src/Subscriber/Order.antt =====
-- The order in which chunks leave a subscriber's queue, broadcasts and turns of the writing loop
-- taking turns.
use mathlib.Core.List.{tail}
use obsidian_live_syncinator.Prelude.{
  ◌≡◌, refl, ap, sym, if◌then◌else◌, ◌∙◌, true, false, List, [], ◌∷◌, ◌++◌, arith,
}
use obsidian_live_syncinator.Server.{ChunkMessage, Subscriber}
use obsidian_live_syncinator.Broadcast.{push_chunk}
use obsidian_live_syncinator.Subscriber.{
  Written, written, lost, broken, disconnected, chunks, pop_queue,
}

-- A chunk is broadcast to the subscriber's workspace, or its writing loop takes a chunk and writes
-- it with some outcome, or its reading loop or the end of a context closes it.
pub data Turn : Type 0 where
  broadcast : ChunkMessage → Turn
  write : Written → Turn
  close : Turn

-- A broadcast passes over a subscriber that is not connected.
abbrev told : ChunkMessage → Subscriber → Subscriber
told m sub = if sub.is_connected then push_chunk m sub else sub

-- A write that ends with an error of the connection closes it.
abbrev after_write : Written → Subscriber → Subscriber
after_write broken sub = disconnected sub
after_write _ sub = sub

-- The writing loop waits while the queue is empty.
abbrev taken : Written → List ChunkMessage → Subscriber → List ChunkMessage × Subscriber
taken outcome [] sub = ([], sub)
taken outcome (m ∷ ms) sub = (m ∷ [], after_write outcome (pop_queue chunks sub))

unfoldable pub take_turn : Turn → Subscriber → List ChunkMessage × Subscriber
take_turn (broadcast m) sub = ([], told m sub)
take_turn (write outcome) sub = taken outcome sub.chunk_msg_queue sub
take_turn close sub = ([], disconnected sub)

-- The chunks that are taken off the queue, and the subscriber in the end.
unfoldable pub turns : List Turn → Subscriber → List ChunkMessage × Subscriber
turns [] sub = ([], sub)
turns (t ∷ ts) sub =
    let (ms, next) = take_turn t sub in let (rest, end) = turns ts next in (ms ++ rest, end)

abbrev pub broadcasts : List Turn → List ChunkMessage
broadcasts [] = []
broadcasts (broadcast m ∷ ts) = m ∷ broadcasts ts
broadcasts (write outcome ∷ ts) = broadcasts ts
broadcasts (close ∷ ts) = broadcasts ts

-- A subscriber that is connected, and is not being closed.
data IsAlive (sub : Subscriber) : Type 0 where
  alive : sub.is_connected ≡ true → sub.closing ≡ false → IsAlive sub

-- One that is alive after a turn was so before it.
take_turn-IsAlive : (t : Turn) (sub : Subscriber) → IsAlive (take_turn t sub).1 → IsAlive sub
unfolding take_turn push_chunk pop_queue
take_turn-IsAlive (broadcast m) sub (alive c o) = alive (ground arith) (ground arith)
take_turn-IsAlive (write outcome) sub a = by_queue outcome sub.chunk_msg_queue a
  where
    by_queue :
        (outcome : Written) (ms : List ChunkMessage)
        → IsAlive (taken outcome ms sub).1
        → IsAlive sub
    by_queue outcome [] a = a
    by_queue written (m ∷ ms) (alive c o) = alive c o
    by_queue lost (m ∷ ms) (alive c o) = alive c o
    by_queue broken (m ∷ ms) (alive c o) = cc
take_turn-IsAlive close sub (alive c o) = cc

turns-IsAlive : (ts : List Turn) (sub : Subscriber) → IsAlive (turns ts sub).1 → IsAlive sub
unfolding turns
turns-IsAlive [] sub a = a
turns-IsAlive (t ∷ ts) sub a = take_turn-IsAlive t sub (turns-IsAlive ts (take_turn t sub).1 a)

-- A broadcast that leaves the subscriber alive has put the chunk at the end of the queue.
told-queue :
    (m : ChunkMessage) (sub : Subscriber)
    → IsAlive (told m sub)
    → (told m sub).chunk_msg_queue ≡ sub.chunk_msg_queue ++ m ∷ []
unfolding push_chunk
told-queue m sub (alive c o) = ground arith

-- A write takes the first chunk of the queue.
taken-queue :
    (outcome : Written) (sub : Subscriber) (ms : List ChunkMessage)
    → sub.chunk_msg_queue ≡ ms
    → (taken outcome ms sub).0 ++ (taken outcome ms sub).1.chunk_msg_queue ≡ ms
unfolding pop_queue
taken-queue outcome sub [] e = e
taken-queue written sub (m ∷ ms) e = ap (λ l. m ∷ tail l) e
taken-queue lost sub (m ∷ ms) e = ap (λ l. m ∷ tail l) e
taken-queue broken sub (m ∷ ms) e = ap (λ l. m ∷ tail l) e

append_nil : (xs : List ChunkMessage) → xs ≡ xs ++ []
append_nil [] = refl
append_nil (x ∷ xs) = ap (λ l. x ∷ l) (append_nil xs)

append_assoc : (xs ys zs : List ChunkMessage) → (xs ++ ys) ++ zs ≡ xs ++ (ys ++ zs)
append_assoc [] ys zs = refl
append_assoc (x ∷ xs) ys zs = ap (λ l. x ∷ l) (append_assoc xs ys zs)

-- However broadcasts, turns of the writing loop with any outcome and closings alternate, if a
-- subscriber is connected in the end and not being closed, the chunks taken off its queue to be
-- written, whether or not the write succeeded, followed by those still queued, are the ones queued
-- at first and then the ones broadcast, in their order, none missing and none twice.
pub turns-broadcasts :
    (ts : List Turn) (sub : Subscriber)
    → (turns ts sub).1.is_connected ≡ true
    → (turns ts sub).1.closing ≡ false
    → (turns ts sub).0 ++ (turns ts sub).1.chunk_msg_queue ≡ sub.chunk_msg_queue ++ broadcasts ts
unfolding turns take_turn
turns-broadcasts [] sub c o = append_nil sub.chunk_msg_queue
turns-broadcasts (broadcast m ∷ ts) sub c o =
    turns-broadcasts ts (told m sub) c o
    ∙ ap (λ l. l ++ broadcasts ts) (told-queue m sub (turns-IsAlive ts (told m sub) (alive c o)))
    ∙ append_assoc sub.chunk_msg_queue (m ∷ []) (broadcasts ts)
turns-broadcasts (write outcome ∷ ts) sub c o =
    let (ms, next) = taken outcome sub.chunk_msg_queue sub in
    append_assoc ms (turns ts next).0 (turns ts next).1.chunk_msg_queue
    ∙ ap (λ l. ms ++ l) (turns-broadcasts ts next c o)
    ∙ sym (append_assoc ms next.chunk_msg_queue (broadcasts ts))
    ∙ ap (λ l. l ++ broadcasts ts) (taken-queue outcome sub sub.chunk_msg_queue refl)
turns-broadcasts (close ∷ ts) sub c o = turns-broadcasts ts (disconnected sub) c o
