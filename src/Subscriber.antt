-- ===== src/Subscriber.antt =====
-- pkg/subscriber.go: a connection's two loops, one that reads messages and hands them to the server,
-- and one that writes the queues out. Each function is one turn of a loop.
pub mod Order
use Prim.Native.String.{String}
use mathlib.Core.List.{tail}
use obsidian_live_syncinator.Prelude.{
  Bool, true, false, ◌||◌, Option, none, some, List, [], ◌∷◌, ℤ, pos, eqb_ℤ, ◌==◌, if◌then◌else◌,
}
use obsidian_live_syncinator.Server.{
  Ref, Platform, ChunkMessage, EventMessage, CursorMessage, Message, event_message, cursor_message,
  Subscriber, Syncinator,
}
use obsidian_live_syncinator.Broadcast.{Subscribers, broadcast_message}
use obsidian_live_syncinator.Sync.{on_chunk_message}

-- `NewSubscriber`, once the connection is accepted. The workspace is the token's.
unfoldable pub new_subscriber : Ref → String → ℤ → Subscriber
new_subscriber ref client_id workspace_id = record {
  ref = ref;
  client_id = client_id;
  workspace_id = workspace_id;
  is_connected = true;
  chunk_msg_queue = [];
  event_msg_queue = [];
  cursor_msg_queue = [];
  closing = false;
}

-- What a pointer points to, while the server has it.
abbrev pub find_member : Ref → List Subscriber → Option Subscriber
find_member ref [] = none
find_member ref (sub ∷ subs) = if sub.ref == ref then some sub else find_member ref subs

abbrev pub find_subscriber : Ref → Subscribers → Option Subscriber
find_subscriber ref [] = none
find_subscriber ref ((w, subs) ∷ rest) = elim (find_member ref subs) [
  | some sub ↦ some sub
  | none ↦ find_subscriber ref rest
]

-- An assignment through a pointer.
abbrev pub update_member : (Subscriber → Subscriber) → Ref → List Subscriber → List Subscriber
update_member f ref [] = []
update_member f ref (sub ∷ subs) =
    (if sub.ref == ref then f sub else sub) ∷ update_member f ref subs

abbrev pub update_subscriber : (Subscriber → Subscriber) → Ref → Subscribers → Subscribers
update_subscriber f ref [] = []
update_subscriber f ref ((w, subs) ∷ rest) =
    (w, update_member f ref subs) ∷ update_subscriber f ref rest

-- `Close`
abbrev pub disconnected : Subscriber → Subscriber
disconnected sub = record sub { is_connected = false }

unfoldable pub close : Ref → Subscribers → Subscribers
close ref subs = update_subscriber disconnected ref subs

-- A JSON object from the connection: its type, if it has a number there, and what `mapToStruct` makes
-- of it for each of the three structs.
pub record Incoming : Type 0 where
  pub type : Option ℤ
  pub chunk : Option ChunkMessage
  pub event : Option EventMessage
  pub cursor : Option CursorMessage

module _ (P : Platform) where
  abbrev pub on_struct :
      {A : Type 0} → (A → Syncinator P → Syncinator P) → Option A → Syncinator P → Syncinator P
  on_struct handle none s = s
  on_struct handle (some m) s = handle m s

  -- `onEventMessage` and `onCursorMessage`
  unfoldable pub on_message : Subscriber → Message → Syncinator P → Syncinator P
  on_message sender m s = record s { subscribers = broadcast_message sender m s.subscribers }

  -- The `switch` over the message's type.
  unfoldable pub dispatch : Subscriber → ℤ → Incoming → Syncinator P → Syncinator P
  dispatch sender type msg s =
      if eqb_ℤ type (pos 0)
      then on_struct (λ m s. (on_chunk_message P sender m s).1) msg.chunk s
      else if eqb_ℤ type (pos 3) || eqb_ℤ type (pos 1) || eqb_ℤ type (pos 2)
      then on_struct (λ m. on_message sender (event_message m)) msg.event s
      else if eqb_ℤ type (pos 4)
      then on_struct (λ m. on_message sender (cursor_message m)) msg.cursor s
      else s

  -- A message that was read: it needs a type, and the limiter's leave.
  unfoldable pub handle_message : Subscriber → Bool → Incoming → Syncinator P → Syncinator P
  handle_message sender allowed msg s = elim msg.type [
    | none ↦ s
    | some type ↦ if allowed then dispatch sender type msg s else s
  ]

  -- One turn of the reading loop. `none` is a read that failed; the result says whether the loop
  -- goes on. A subscriber that the server has dropped is disconnected.
  unfoldable pub read_by :
      Ref → Option Subscriber → Bool → Option Incoming → Syncinator P → Bool × Syncinator P
  read_by ref none allowed msg s = (false, s)
  read_by ref (some sub) allowed none s =
      (false, record s { subscribers = close ref s.subscribers })
  read_by ref (some sub) allowed (some msg) s =
      if sub.is_connected
      then (true, handle_message sub allowed msg s)
      else (false, record s { subscribers = close ref s.subscribers })

  unfoldable pub read_message : Ref → Bool → Option Incoming → Syncinator P → Bool × Syncinator P
  read_message ref allowed msg s = read_by ref (find_subscriber ref s.subscribers) allowed msg s

-- One turn of the writing loop: the head of a queue that is ready leaves it, and is written. A write
-- may fail, and an error that ends the connection closes it.
pub data Queue : Type 0 where
  chunks events cursors : Queue

pub data Written : Type 0 where
  written lost broken : Written

unfoldable pub pop_queue : Queue → Subscriber → Subscriber
pop_queue chunks sub = record sub { chunk_msg_queue = tail sub.chunk_msg_queue }
pop_queue events sub = record sub { event_msg_queue = tail sub.event_msg_queue }
pop_queue cursors sub = record sub { cursor_msg_queue = tail sub.cursor_msg_queue }

unfoldable pub write_message : Ref → Queue → Written → Subscribers → Subscribers
write_message ref queue broken subs = close ref (update_subscriber (pop_queue queue) ref subs)
write_message ref queue _ subs = update_subscriber (pop_queue queue) ref subs
