-- ===== src/System/Queues.antt =====
-- Every subscriber stands under its own workspace, and its queues are within their capacity.
use Prim.Native.String.{String}
use obsidian_live_syncinator.Prelude.{
  ℕ, ◌≤◌, ◌≡◌, refl, ◌∙◌, List, [], ◌∷◌, ◌++◌, ℤ, eqb_ℤ, eqb_ℤ-iff, ◌==◌, arith, All, Bool-cases,
  inl, inr, length,
}
use mathlib.Core.List.{tail}
use obsidian_live_syncinator.Server.{
  Ref, Message, chunk_message, event_message, cursor_message, Subscriber,
}
use obsidian_live_syncinator.Broadcast.{
  Subscribers, push_chunk, push_event, push_cursor, deliver, deliver_all, broadcast_message,
  without, add_subscriber, delete_subscriber,
}
use obsidian_live_syncinator.Broadcast.Delivery.{IsBounded, deliver-IsBounded}
use obsidian_live_syncinator.Subscriber.{
  new_subscriber, update_member, update_subscriber, disconnected, close, Queue, chunks, events,
  cursors, Written, written, lost, broken, pop_queue, write_message,
}

-- A subscriber under a workspace.
pub record IsSettled (workspace_id : ℤ) (sub : Subscriber) : Type 0 where
  pub placed : sub.workspace_id ≡ workspace_id
  pub bounded : IsBounded sub

abbrev pub AreSettled : Subscribers → Type 0
AreSettled subs = All (λ (entry : ℤ × List Subscriber). All (IsSettled entry.0) entry.1) subs

workspace_id-deliver :
    (sender : String) (m : Message) (sub : Subscriber)
    → (deliver sender m sub).workspace_id ≡ sub.workspace_id
unfolding deliver push_chunk push_event push_cursor
workspace_id-deliver sender (chunk_message m) sub = ground arith
workspace_id-deliver sender (event_message m) sub = ground arith
workspace_id-deliver sender (cursor_message m) sub = ground arith

deliver-IsSettled :
    (sender : Subscriber) (m : Message) (w : ℤ) (sub : Subscriber)
    → IsSettled w sub
    → IsSettled w (deliver sender.client_id m sub)
deliver-IsSettled sender m w sub i = record {
  placed = workspace_id-deliver sender.client_id m sub ∙ i.placed;
  bounded = deliver-IsBounded sender m sub i.bounded;
}

deliver_all-AreSettled :
    (sender : Subscriber) (m : Message) (w : ℤ) (subs : List Subscriber)
    → All (IsSettled w) subs
    → All (IsSettled w) (deliver_all sender.client_id m subs)
unfolding deliver_all
deliver_all-AreSettled sender m w [] a = tt
deliver_all-AreSettled sender m w (sub ∷ subs) (i, a) = elim (Bool-cases sub.is_connected) [
  | inl present ↦
      simp present (deliver-IsSettled sender m w sub i, deliver_all-AreSettled sender m w subs a)
  | inr gone ↦ simp gone (deliver_all-AreSettled sender m w subs a)
]

pub broadcast_message-AreSettled :
    (sender : Subscriber) (m : Message) (subs : Subscribers)
    → AreSettled subs
    → AreSettled (broadcast_message sender m subs)
unfolding broadcast_message
broadcast_message-AreSettled sender m [] a = tt
broadcast_message-AreSettled sender m ((w, members) ∷ subs) (i, a) =
    elim (Bool-cases (eqb_ℤ w sender.workspace_id)) [
      | inl mine ↦ rw mine (deliver_all-AreSettled sender m w members i, a)
      | inr other ↦ rw other (i, broadcast_message-AreSettled sender m subs a)
    ]

without-AreSettled :
    (ref : Ref) (w : ℤ) (subs : List Subscriber)
    → All (IsSettled w) subs
    → All (IsSettled w) (without ref subs)
without-AreSettled ref w [] a = tt
without-AreSettled ref w (sub ∷ subs) (i, a) = elim (Bool-cases (sub.ref == ref)) [
  | inl same ↦ rw same (without-AreSettled ref w subs a)
  | inr other ↦ rw other (i, without-AreSettled ref w subs a)
]

All-add :
    (w : ℤ) (sub : Subscriber) (subs : List Subscriber)
    → All (IsSettled w) subs
    → IsSettled w sub
    → All (IsSettled w) (subs ++ sub ∷ [])
All-add w sub [] a i = (i, tt)
All-add w sub (x ∷ subs) (h, a) i = (h, All-add w sub subs a i)

pub add_subscriber-AreSettled :
    (sub : Subscriber) (subs : Subscribers)
    → IsSettled sub.workspace_id sub
    → AreSettled subs
    → AreSettled (add_subscriber sub subs)
unfolding add_subscriber
add_subscriber-AreSettled sub [] i a = ((i, tt), tt)
add_subscriber-AreSettled sub ((w, members) ∷ subs) i (m, a) =
    elim (Bool-cases (eqb_ℤ w sub.workspace_id)) [
      | inl mine ↦ rw mine (
        All-add w sub (without sub.ref members) (without-AreSettled sub.ref w members m)
            (rw ((eqb_ℤ-iff w sub.workspace_id).0 mine) i),
        a,
      )
      | inr other ↦ rw other (m, add_subscriber-AreSettled sub subs i a)
    ]

pub delete_subscriber-AreSettled :
    (sub : Subscriber) (subs : Subscribers)
    → AreSettled subs
    → AreSettled (delete_subscriber sub subs)
unfolding delete_subscriber
delete_subscriber-AreSettled sub [] a = tt
delete_subscriber-AreSettled sub ((w, members) ∷ subs) (m, a) =
    elim (Bool-cases (eqb_ℤ w sub.workspace_id)) [
      | inl mine ↦ rw mine (without-AreSettled sub.ref w members m, a)
      | inr other ↦ rw other (m, delete_subscriber-AreSettled sub subs a)
    ]

update_member-AreSettled :
    (f : Subscriber → Subscriber) (ref : Ref) (w : ℤ) (subs : List Subscriber)
    → ((sub : Subscriber) → IsSettled w sub → IsSettled w (f sub))
    → All (IsSettled w) subs
    → All (IsSettled w) (update_member f ref subs)
update_member-AreSettled f ref w [] k a = tt
update_member-AreSettled f ref w (sub ∷ subs) k (i, a) = elim (Bool-cases (sub.ref == ref)) [
  | inl same ↦ rw same (k sub i, update_member-AreSettled f ref w subs k a)
  | inr other ↦ rw other (i, update_member-AreSettled f ref w subs k a)
]

pub update_subscriber-AreSettled :
    (f : Subscriber → Subscriber) (ref : Ref) (subs : Subscribers)
    → ((w : ℤ) (sub : Subscriber) → IsSettled w sub → IsSettled w (f sub))
    → AreSettled subs
    → AreSettled (update_subscriber f ref subs)
update_subscriber-AreSettled f ref [] k a = tt
update_subscriber-AreSettled f ref ((w, members) ∷ subs) k (m, a) =
    (update_member-AreSettled f ref w members (k w) m, update_subscriber-AreSettled f ref subs k a)

pub close-AreSettled :
    (ref : Ref) (subs : Subscribers) → AreSettled subs → AreSettled (close ref subs)
unfolding close
close-AreSettled ref subs = update_subscriber-AreSettled disconnected ref subs λ w sub i. record {
  placed = i.placed;
  bounded = record {
    chunks = i.bounded.chunks;
    events = i.bounded.events;
    cursors = i.bounded.cursors;
  };
}

length-tail {ℓ} : {A : Type ℓ} (xs : List A) (n : ℕ) → length xs ≤ n → length (tail xs) ≤ n
length-tail [] n h = omega arith
length-tail (x ∷ xs) n h = omega arith

pop_queue-IsSettled :
    (queue : Queue) (w : ℤ) (sub : Subscriber) → IsSettled w sub → IsSettled w (pop_queue queue sub)
unfolding pop_queue
pop_queue-IsSettled chunks w sub i = record {
  placed = i.placed;
  bounded = record {
    chunks = length-tail sub.chunk_msg_queue _ i.bounded.chunks;
    events = i.bounded.events;
    cursors = i.bounded.cursors;
  };
}
pop_queue-IsSettled events w sub i = record {
  placed = i.placed;
  bounded = record {
    chunks = i.bounded.chunks;
    events = length-tail sub.event_msg_queue _ i.bounded.events;
    cursors = i.bounded.cursors;
  };
}
pop_queue-IsSettled cursors w sub i = record {
  placed = i.placed;
  bounded = record {
    chunks = i.bounded.chunks;
    events = i.bounded.events;
    cursors = length-tail sub.cursor_msg_queue _ i.bounded.cursors;
  };
}

pub write_message-AreSettled :
    (ref : Ref) (queue : Queue) (outcome : Written) (subs : Subscribers)
    → AreSettled subs
    → AreSettled (write_message ref queue outcome subs)
unfolding write_message
write_message-AreSettled ref queue broken subs a =
    close-AreSettled ref _
      (update_subscriber-AreSettled (pop_queue queue) ref subs (pop_queue-IsSettled queue) a)
write_message-AreSettled ref queue written subs a =
    update_subscriber-AreSettled (pop_queue queue) ref subs (pop_queue-IsSettled queue) a
write_message-AreSettled ref queue lost subs a =
    update_subscriber-AreSettled (pop_queue queue) ref subs (pop_queue-IsSettled queue) a

pub new_subscriber-IsSettled :
    (ref : Ref) (client_id : String) (w : ℤ) → IsSettled w (new_subscriber ref client_id w)
unfolding new_subscriber
new_subscriber-IsSettled ref client_id w = record {
  placed = refl;
  bounded = record { chunks = omega arith; events = omega arith; cursors = omega arith };
}
