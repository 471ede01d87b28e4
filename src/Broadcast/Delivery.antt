-- ===== src/Broadcast/Delivery.antt =====
-- What a broadcast leaves in the queues.
use obsidian_live_syncinator.Prelude.{
  ◌≤◌, ◌<◌, ◌∙◌, false, ◌≡◌, refl, ◌⊎◌, inl, inr, true, some, List, [], ◌∷◌, ◌++◌, ℤ, eqb_ℤ,
  eqb_ℤ-iff, arith, if◌then◌else◌, length, length-append, All, Bool, Bool-cases, ltb,
}
use mathlib.Core.Option
use obsidian_live_syncinator.Server.{
  ChunkMessage, Message, chunk_message, event_message, cursor_message, Subscriber,
}
use obsidian_live_syncinator.Broadcast.{
  Subscribers, subscriber_message_buffer, push_chunk, push_event, push_cursor, deliver, deliver_all,
  broadcast_message, subscribers_of,
}

-- A broadcast delivers to the sender's workspace, if it has an entry, and leaves the subscribers
-- of every other workspace as they were.
subscribers_of-broadcast_message :
    (sender : Subscriber) (m : Message) (workspace : ℤ) (subs : Subscribers)
    → subscribers_of workspace (broadcast_message sender m subs) ≡ (
        if eqb_ℤ workspace sender.workspace_id
        then Option.map (deliver_all sender.client_id m) (subscribers_of workspace subs)
        else subscribers_of workspace subs)
unfolding broadcast_message
subscribers_of-broadcast_message sender m workspace [] = ground arith
subscribers_of-broadcast_message sender m workspace ((w, members) ∷ subs) = ground (
  arith,
  eqb_ℤ-iff w sender.workspace_id,
  eqb_ℤ-iff w workspace,
  eqb_ℤ-iff workspace sender.workspace_id,
  subscribers_of-broadcast_message sender m workspace subs,
)

-- What the subscribers of a workspace become when a chunk is sent to them: one that is disconnected
-- is dropped; for any other, the chunk goes to the end of its queue while that has room, and
-- otherwise it is being closed.
pub data Delivered (m : ChunkMessage) : List Subscriber → List Subscriber → Type 0 where
  done : Delivered m [] []
  dropped :
      {sub : Subscriber} {subs new : List Subscriber}
      → sub.is_connected ≡ false
      → Delivered m subs new
      → Delivered m (sub ∷ subs) new
  queued :
      {sub : Subscriber} {subs new : List Subscriber}
      → sub.is_connected ≡ true
      → length sub.chunk_msg_queue < 8
      → Delivered m subs new
      → Delivered m
          (sub ∷ subs)
          (record sub { chunk_msg_queue = sub.chunk_msg_queue ++ m ∷ [] } ∷ new)
  too_slow :
      {sub : Subscriber} {subs new : List Subscriber}
      → sub.is_connected ≡ true
      → 8 ≤ length sub.chunk_msg_queue
      → Delivered m subs new
      → Delivered m (sub ∷ subs) (record sub { closing = true } ∷ new)

deliver_all-Delivered :
    (sender : Subscriber) (m : ChunkMessage) (subs : List Subscriber)
    → Delivered m subs (deliver_all sender.client_id (chunk_message m) subs)
unfolding deliver_all deliver push_chunk
deliver_all-Delivered sender m [] = done
deliver_all-Delivered sender m (sub ∷ subs) =
    by_tests sub.is_connected (ltb (length sub.chunk_msg_queue) subscriber_message_buffer) refl refl
      (deliver_all-Delivered sender m subs)
  where
    rest : List Subscriber
    rest = deliver_all sender.client_id (chunk_message m) subs

    by_tests :
        (connected room : Bool)
        → sub.is_connected ≡ connected
        → ltb (length sub.chunk_msg_queue) subscriber_message_buffer ≡ room
        → Delivered m subs rest
        → Delivered m (sub ∷ subs) (
            if connected
            then (if room
                then record sub { chunk_msg_queue = sub.chunk_msg_queue ++ m ∷ [] }
                else record sub { closing = true })
              ∷ rest
            else rest)
    by_tests true true here room d = queued here (ground arith) d
    by_tests true false here full d = too_slow here (ground arith) d
    by_tests false room gone _ d = dropped gone d

-- After a chunk is broadcast, a workspace that has an entry still has one. In the sender's
-- workspace, the disconnected subscribers are dropped, and for each other one the chunk is at the
-- end of its queue if that had room, and else the subscriber is being closed. In any other
-- workspace, the subscribers are as they were.
pub broadcast_message-Delivered :
    (sender : Subscriber) (m : ChunkMessage) (subs : Subscribers) (workspace : ℤ)
    {old : List Subscriber}
    → subscribers_of workspace subs ≡ some old
    → (new : List Subscriber) × (subscribers_of workspace
          (broadcast_message sender (chunk_message m) subs)
        ≡ some new)
      × (((workspace ≡ sender.workspace_id) × Delivered m old new)
          ⊎ ((¬ (workspace ≡ sender.workspace_id)) × (new ≡ old)))
broadcast_message-Delivered sender m subs workspace {old} h =
    let after = subscribers_of-broadcast_message sender (chunk_message m) workspace subs in
    elim (Bool-cases (eqb_ℤ workspace sender.workspace_id)) [
      | inl mine ↦ (
        deliver_all sender.client_id (chunk_message m) old,
        rw (mine, h) at after,
        inl ((eqb_ℤ-iff workspace sender.workspace_id).0 mine, deliver_all-Delivered sender m old),
      )
      | inr other ↦ (
        old,
        (rw other at after) ∙ h,
        inr ((λ e. let same = (eqb_ℤ-iff workspace sender.workspace_id).1 e in cc), refl),
      )
    ]

-- No queue holds more than its capacity.
pub record IsBounded (sub : Subscriber) : Type 0 where
  pub chunks : length sub.chunk_msg_queue ≤ subscriber_message_buffer
  pub events : length sub.event_msg_queue ≤ subscriber_message_buffer
  pub cursors : length sub.cursor_msg_queue ≤ subscriber_message_buffer

pub deliver-IsBounded :
    (sender : Subscriber) (m : Message) (sub : Subscriber)
    → IsBounded sub
    → IsBounded (deliver sender.client_id m sub)
unfolding deliver push_chunk push_event push_cursor
deliver-IsBounded sender (chunk_message m) sub b =
    ground (arith, length-append sub.chunk_msg_queue (m ∷ []))
deliver-IsBounded sender (event_message m) sub b =
    ground (arith, length-append sub.event_msg_queue (m ∷ []))
deliver-IsBounded sender (cursor_message m) sub b =
    ground (arith, length-append sub.cursor_msg_queue (record m { id = sender.client_id } ∷ []))

deliver_all-IsBounded :
    (sender : Subscriber) (m : Message) (subs : List Subscriber)
    → All IsBounded subs
    → All IsBounded (deliver_all sender.client_id m subs)
unfolding deliver_all
deliver_all-IsBounded sender m [] b = tt
deliver_all-IsBounded sender m (sub ∷ subs) (b, bs) = elim (Bool-cases sub.is_connected) [
  | inl here ↦ simp here (deliver-IsBounded sender m sub b, deliver_all-IsBounded sender m subs bs)
  | inr gone ↦ simp gone (deliver_all-IsBounded sender m subs bs)
]

abbrev AreBounded : Subscribers → Type 0
AreBounded subs = All (λ (entry : ℤ × List Subscriber). All IsBounded entry.1) subs

-- A broadcast of any message keeps every queue within its capacity, if all were.
broadcast_message-AreBounded :
    (sender : Subscriber) (m : Message) (subs : Subscribers)
    → AreBounded subs
    → AreBounded (broadcast_message sender m subs)
unfolding broadcast_message
broadcast_message-AreBounded sender m [] b = tt
broadcast_message-AreBounded sender m ((w, members) ∷ subs) (b, bs) =
    elim (Bool-cases (eqb_ℤ w sender.workspace_id)) [
      | inl mine ↦ rw mine (deliver_all-IsBounded sender m members b, bs)
      | inr other ↦ rw other (b, broadcast_message-AreBounded sender m subs bs)
    ]
