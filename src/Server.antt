-- ===== src/Server.antt =====
-- The server's state (pkg/server.go), and the external code that it stands on.
use Prim.Native.String.{String}
use obsidian_live_syncinator.Prelude.{ℕ, Bool, Option, List, ℤ, ◌==◌, if◌then◌else◌}
use obsidian_live_syncinator.Diff.{Text, Chunk, DiffEntry}
use obsidian_live_syncinator.Outcome.{M}
use obsidian_live_syncinator.Repository.{File, Database}
use obsidian_live_syncinator.Storage.{Storage}

-- A `*LockedCachedFile`.
abbrev pub Ref : Type 0
Ref = ℕ

-- golang-lru: a bounded cache from file ids to pointers. `add` and `remove` also give the pointer
-- that left the cache, for which the library calls the eviction callback.
pub record Lru : Type 1 where
  pub State : Type 0
  pub get : ℤ → State → Option Ref × State
  pub add : ℤ → Ref → State → Option Ref × State
  pub remove : ℤ → State → Option Ref × State
  pub keys : State → List ℤ

-- The code of other packages: the storage that `New` is given, golang-lru, encoding/json on lists
-- of chunks, crypto/sha256 in hexadecimal, and go-diff's `DiffMainRunes`.
pub record Platform : Type 1 where
  pub storage : Storage
  pub lru : Lru
  pub marshal : List Chunk → Text
  pub unmarshal : Text → Option (List Chunk)
  pub sha256 : Text → String
  pub diff_main : Text → Text → List DiffEntry

-- The messages of the web socket (pkg/ws.go). A `float64` is its 64 bits.
pub record ChunkMessage : Type 0 where
  pub file_id : ℤ
  pub type : ℤ
  pub chunks : List Chunk
  pub version : ℤ

pub record EventMessage : Type 0 where
  pub file_id : ℤ
  pub type : ℤ
  pub workspace_path : String
  pub object_type : String

pub record CursorMessage : Type 0 where
  pub file_id : ℤ
  pub type : ℤ
  pub id : String
  pub path : String
  pub label : String
  pub color : String
  pub line : ℕ
  pub ch : ℕ

pub data Message : Type 0 where
  chunk_message : ChunkMessage → Message
  event_message : EventMessage → Message
  cursor_message : CursorMessage → Message

-- pkg/subscriber.go. `ref` is the pointer to the subscriber; `closing` says that `closeSlow` was
-- called.
pub record Subscriber : Type 0 where
  pub ref : Ref
  pub client_id : String
  pub workspace_id : ℤ
  pub is_connected : Bool
  pub chunk_msg_queue : List ChunkMessage
  pub event_msg_queue : List EventMessage
  pub cursor_msg_queue : List CursorMessage
  pub closing : Bool

pub record CachedFile : Type 0 where
  pub file : File
  pub open file use *
  pub content : Text
  pub pending_changes : ℤ

-- The fields of the struct `syncinator` that `New` takes from its options. Durations and times are in
-- nanoseconds.
pub record Settings : Type 0 where
  pub max_file_size_bytes : ℤ
  pub operation_ttl : ℤ
  pub min_changes_threshold : ℤ
  pub flush_interval : ℤ
  pub snapshot_checkpoint : ℤ
  pub max_snapshot_diff_chain : ℤ
  pub subscriber_rate_interval : ℤ
  pub subscriber_rate_burst : ℤ
  pub purge_cache_interval : ℤ

-- The struct `syncinator`. `heap` holds what the pointers of the cache point to.
pub record Syncinator (P : Platform) : Type 0 where
  pub settings : Settings
  pub subscribers : List (ℤ × List Subscriber)
  pub file_cache : P.lru.State
  pub heap : Ref → CachedFile
  pub next_ref : Ref
  pub storage : P.storage.State
  pub db : Database

abbrev pub update : (Ref → CachedFile) → Ref → CachedFile → Ref → CachedFile
update heap r f q = if r == q then f else heap q

module _ (P : Platform) where
  -- A call of the database, and one of the storage, from the server.
  abbrev pub in_db : {A : Type 0} → M Database A → M (Syncinator P) A
  in_db m s = let r = m s.db in (r.0, record s { db = r.1 })

  abbrev pub in_storage : {A : Type 0} → M P.storage.State A → M (Syncinator P) A
  in_storage m s = let r = m s.storage in (r.0, record s { storage = r.1 })
