-- ===== src/Broadcast.antt =====
-- `addSubscriber`, `deleteSubscriber` and `broadcastMessage` (pkg/ws.go) on the map of subscribers,
-- an association list from a workspace to its set of subscribers. A full queue is not waited for:
-- the subscriber is closed. The rate limiter only delays a broadcast, and is left out.
pub mod Delivery
use Prim.Native.String.{String}
use text.Mathlib.Text.{◌==◌ as str_eq}
use obsidian_live_syncinator.Prelude.{
  ℕ, Bool, true, false, ◌≡◌, Option, none, some, List, [], ◌∷◌, ◌++◌, ℤ, eqb_ℤ, ltb, ◌==◌,
  if◌then◌else◌, length,
}
use obsidian_live_syncinator.Server.{
  ChunkMessage, EventMessage, CursorMessage, Message, chunk_message, event_message, cursor_message,
  Subscriber,
}

abbrev pub Subscribers : Type 0
Subscribers = List (ℤ × List Subscriber)

-- `subscriberMessageBuffer`, the capacity of each queue.
abbrev pub subscriber_message_buffer : ℕ
subscriber_message_buffer = 8

-- `select { case queue <- m: default: go sub.closeSlow() }`
unfoldable pub push_chunk : ChunkMessage → Subscriber → Subscriber
push_chunk m sub =
    if ltb (length sub.chunk_msg_queue) subscriber_message_buffer
    then record sub { chunk_msg_queue = sub.chunk_msg_queue ++ (m ∷ []) }
    else record sub { closing = true }

unfoldable pub push_event : EventMessage → Subscriber → Subscriber
push_event m sub =
    if ltb (length sub.event_msg_queue) subscriber_message_buffer
    then record sub { event_msg_queue = sub.event_msg_queue ++ (m ∷ []) }
    else record sub { closing = true }

unfoldable pub push_cursor : CursorMessage → Subscriber → Subscriber
push_cursor m sub =
    if ltb (length sub.cursor_msg_queue) subscriber_message_buffer
    then record sub { cursor_msg_queue = sub.cursor_msg_queue ++ (m ∷ []) }
    else record sub { closing = true }

-- One subscriber that is connected. A chunk goes back to its sender too; an event and a cursor do
-- not, and a cursor is given its sender's id.
unfoldable pub deliver : String → Message → Subscriber → Subscriber
deliver sender (chunk_message m) sub = push_chunk m sub
deliver sender (event_message m) sub = if str_eq sub.client_id sender then sub else push_event m sub
deliver sender (cursor_message m) sub =
    if str_eq sub.client_id sender then sub else push_cursor (record m { id = sender }) sub

-- The loop over a workspace's subscribers, which drops the disconnected ones.
unfoldable pub deliver_all : String → Message → List Subscriber → List Subscriber
deliver_all sender m [] = []
deliver_all sender m (sub ∷ subs) =
    let rest = deliver_all sender m subs in
    if sub.is_connected then deliver sender m sub ∷ rest else rest

-- `broadcastMessage` from a sender that is not nil.
unfoldable pub broadcast_message : Subscriber → Message → Subscribers → Subscribers
broadcast_message sender m [] = []
broadcast_message sender m ((workspace, subs) ∷ rest) =
    if eqb_ℤ workspace sender.workspace_id
    then (workspace, deliver_all sender.client_id m subs) ∷ rest
    else (workspace, subs) ∷ broadcast_message sender m rest

-- `subscribers[workspace]`
abbrev pub subscribers_of : ℤ → Subscribers → Option (List Subscriber)
subscribers_of workspace [] = none
subscribers_of workspace ((w, subs) ∷ rest) =
    if eqb_ℤ w workspace then some subs else subscribers_of workspace rest

-- The set without a pointer.
abbrev pub without : ℕ → List Subscriber → List Subscriber
without ref [] = []
without ref (sub ∷ subs) =
    let rest = without ref subs in if sub.ref == ref then rest else sub ∷ rest

-- `ws.subs[sub] = struct{}{}`, with the workspace's entry made first if there is none.
unfoldable pub add_subscriber : Subscriber → Subscribers → Subscribers
add_subscriber sub [] = (sub.workspace_id, sub ∷ []) ∷ []
add_subscriber sub ((workspace, subs) ∷ rest) =
    if eqb_ℤ workspace sub.workspace_id
    then (workspace, without sub.ref subs ++ (sub ∷ [])) ∷ rest
    else (workspace, subs) ∷ add_subscriber sub rest

unfoldable pub delete_subscriber : Subscriber → Subscribers → Subscribers
delete_subscriber sub [] = []
delete_subscriber sub ((workspace, subs) ∷ rest) =
    if eqb_ℤ workspace sub.workspace_id
    then (workspace, without sub.ref subs) ∷ rest
    else (workspace, subs) ∷ delete_subscriber sub rest
