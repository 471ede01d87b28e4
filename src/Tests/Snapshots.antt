-- ===== src/Tests/Snapshots.antt =====
-- Snapshots at work on the server of Tests/Sync.antt, and the worker's pass.
use Prim.Native.String.{String}
use obsidian_live_syncinator.Options.{settings_of, default}
use obsidian_live_syncinator.System.Progress.{
  Processed, snapshotted, process_file-cases, process_file-IsWritten,
}
use obsidian_live_syncinator.Snapshots.{process_file}
use obsidian_live_syncinator.Snapshots.{due}
use obsidian_live_syncinator.Prelude.{◌≡◌, refl, some, [], ◌∷◌, pos, arith}
use obsidian_live_syncinator.Diff.{Text, apply_multiple}
use obsidian_live_syncinator.Diff.Edit.{insert, to_chunk}
use obsidian_live_syncinator.Outcome.{ok}
use obsidian_live_syncinator.Server.{Syncinator}
use obsidian_live_syncinator.Repository.{call}
use obsidian_live_syncinator.Tests.Platform.{Objects}
use obsidian_live_syncinator.Snapshots.RoundTrip.{
  Restores, reconstruct_snapshot-create_full_snapshot,
}
use obsidian_live_syncinator.Repository.{create_snapshot}
use obsidian_live_syncinator.Server.{CachedFile}
use obsidian_live_syncinator.Diff.{compute}
use obsidian_live_syncinator.Repository.{fetch_snapshots, fetch_latest_snapshot_for_file}
use obsidian_live_syncinator.Snapshots.{
  create_file_snapshot, should_create_full_snapshot, decide_full, needs_full, create_by,
  consecutive_diffs, divides, walk, rebuild, apply_diffs, create_diff_snapshot,
  resolve_snapshot_base_content, create_full_snapshot, store_snapshot, reconstruct_snapshot,
}
use obsidian_live_syncinator.Snapshots.Chain.{Snapshots}
use obsidian_live_syncinator.Snapshots.Incremental.{reconstruct_snapshot-create_diff_snapshot}
use obsidian_live_syncinator.Snapshots.Rebuild.{
  Readable, done, step, quiet, reconstruct_snapshot_lem,
}
use obsidian_live_syncinator.Tests.Platform.{memory-IsLawful, encode, decode-encode, platform}
use obsidian_live_syncinator.Tests.Diff.{hello, hi}
use obsidian_live_syncinator.Tests.Sync.{database, note, snapshot, server}

server-Readable : Readable platform server
server-Readable p t h = rw h

abbrev hello_hi : Text
hello_hi = b'h' ∷ b'e' ∷ b'l' ∷ b'l' ∷ b'o' ∷ b'h' ∷ b'i' ∷ []

inserted : apply_multiple hello (to_chunk (insert 5 hi) ∷ []) ≡ some hello_hi
unfolding apply_multiple
inserted = refl

reconstruct_snapshot_lem_example :
    reconstruct_snapshot platform (pos 1) (pos 2) (pos 7) (quiet platform server)
    ≡ (ok hello_hi, quiet platform server)
reconstruct_snapshot_lem_example =
    reconstruct_snapshot_lem platform server (pos 1) (pos 2) (pos 7) (snapshot 3 "d3" "diff" ∷ [])
      (snapshot 2 "d2" "diff" ∷ []) [] (snapshot 1 "f1" "file") hello hello_hi server-Readable refl
      (refl, tt) ((refl, refl), tt) (refl, refl, refl) refl
      (step (encode (to_chunk (insert 5 hi) ∷ [])) (to_chunk (insert 5 hi) ∷ []) refl refl inserted
        (done hello_hi))

-- The server's clock stands behind all snapshots, the last of which is of an earlier version.
abbrev next_version : CachedFile
next_version = record (server.heap 0) { file = record note { version = pos 4 } }

snapshot_taken : (create_full_snapshot platform next_version server).0 ≡ ok tt
unfolding create_full_snapshot store_snapshot create_snapshot call
snapshot_taken = refl

memory-read_object :
    (p : String) (t : Text) (st : Objects)
    → st p ≡ some t
    → platform.storage.read_object p st ≡ (ok t, st)
memory-read_object p t st h = rw h

reconstruct_snapshot-create_full_snapshot_example :
    Restores platform memory-IsLawful memory-read_object next_version server
      (create_full_snapshot platform next_version server).1
reconstruct_snapshot-create_full_snapshot_example =
    reconstruct_snapshot-create_full_snapshot platform memory-IsLawful memory-read_object
      next_version server ((omega arith, refl), ((omega arith, refl), ((omega arith, refl), tt)))
      snapshot_taken

-- The cached file has two pending changes, and has just been edited.
abbrev busy : Syncinator platform
busy = record server {
  settings = record server.settings { min_changes_threshold = pos 5; flush_interval = pos 1_000 };
}

process_file-cases_example : Processed platform (pos 1) 0 busy (process_file platform (pos 1) busy)
process_file-cases_example = process_file-cases platform memory-IsLawful (pos 1) 0 busy refl

-- The note with one diff on a full snapshot.
abbrev with_diff : Syncinator platform
with_diff = record server {
  db = record database { snapshots = snapshot 1 "f1" "file" ∷ snapshot 2 "d2" "diff" ∷ [] };
}

with_diff-Snapshots :
    Snapshots platform memory-IsLawful memory-read_object next_version
      (pos 2)
      (snapshot 2 "d2" "diff" ∷ [])
      (snapshot 1 "f1" "file")
      hello_hi
      with_diff
with_diff-Snapshots = record {
  rest = [];
  base = hello;
  rows = refl;
  are_diffs = ((refl, refl), tt);
  is_full = (refl, refl, refl);
  stored = refl;
  replays =
      step (encode (to_chunk (insert 5 hi) ∷ [])) (to_chunk (insert 5 hi) ∷ []) refl refl inserted
        (done hello_hi);
}

diff_taken :
    (create_diff_snapshot platform next_version
      (snapshot 2 "d2" "diff")
      (quiet platform with_diff)).0
    ≡ ok tt
unfolding create_diff_snapshot resolve_snapshot_base_content reconstruct_snapshot fetch_snapshots
    walk rebuild apply_diffs store_snapshot create_snapshot call compute apply_multiple
diff_taken = refl

reconstruct_snapshot-create_diff_snapshot_example :
    Restores platform memory-IsLawful memory-read_object next_version with_diff
      (create_diff_snapshot platform next_version
        (snapshot 2 "d2" "diff")
        (quiet platform with_diff)).1
reconstruct_snapshot-create_diff_snapshot_example =
    reconstruct_snapshot-create_diff_snapshot platform memory-IsLawful memory-read_object
      decode-encode next_version (snapshot 2 "d2" "diff" ∷ []) (snapshot 1 "f1" "file") hello_hi
      with_diff with_diff-Snapshots ((omega arith, refl), ((omega arith, refl), tt)) refl refl
      (omega arith) diff_taken

taken : (snapshotted platform (pos 1) 0 server).storage "a" ≡ some hello
unfolding create_file_snapshot should_create_full_snapshot decide_full needs_full create_by
    create_full_snapshot create_diff_snapshot resolve_snapshot_base_content reconstruct_snapshot
    store_snapshot create_snapshot fetch_snapshots fetch_latest_snapshot_for_file call walk rebuild
    apply_diffs consecutive_diffs divides compute apply_multiple settings_of default
taken = refl

-- The cached file has two pending changes, one more than the server waits for.
process_file-IsWritten_example :
    ((process_file platform (pos 1) server).heap 0
      ≡ record (server.heap 0) { pending_changes = pos 0 })
    × ((process_file platform (pos 1) server).storage "a" ≡ some (server.heap 0).content)
unfolding settings_of default
process_file-IsWritten_example =
    process_file-IsWritten platform memory-IsLawful (pos 1) 0 server refl refl refl
      (unfold due in refl) (rw taken refl)
