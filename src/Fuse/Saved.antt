-- ===== src/Fuse/Saved.antt =====
-- src/fuse/mod.rs: a `write` to an open file, and the `release` that stores its buffer.
use edfs.Chunking.{split}
use edfs.Chunking.Pieces.{CutsWhole}
use edfs.Crates.{Crates, TreeLaws}
use edfs.Domain.{Bytes, Chunk, ChunkHash, ChunkRef, NodeId, regular_file, NodeMeta}
use edfs.FileSystem.{FileSystem, metadata}
use edfs.FileSystem.Mutate.{write_file}
use edfs.FileSystem.Mutate.RoundTrip.{write_file-read_file_all}
use edfs.FileSystem.Mutate.Write.{NoCollision}
use edfs.FileSystem.Read.{read_file_all}
use edfs.Fuse.Actions.{FuseFileSystem, ino_to_node_id, broadcast, sent_after}
use edfs.Fuse.Errno.{enospc}
use edfs.Fuse.Inode.{INodeNo, get_node_id}
use edfs.Fuse.OpenFile
use edfs.Fuse.OpenFile.{FileHandle, OpenFile, OpenFileManager, needs_buffer, release_file}
use edfs.Fuse.OpenFile.Overwritten.{overwritten}
use edfs.Fuse.OpenFile.Buffers.{write-read}
use edfs.Fuse.Transfer.{write, flush, release}
use edfs.Prelude.Map
use edfs.Prelude.{
  ℕ, ◌+◌, ◌<◌, ◌%◌, ◌^◌, ◌≡◌, ◌⊎◌, inl, inr, refl, ap, ◌∙◌, String, Option, some, List, ◌∷◌, length,
  ok, err, arith, false,
}
use edfs.Storage.History.{IsSound}
use edfs.Tree.Moves.{IsReady}

buffer_there :
    (m : OpenFileManager) (fh : FileHandle) (buffer : Bytes) (file : OpenFile)
    → Map.get fh m.open_files ≡ some file
    → file.buffer ≡ some buffer
    → needs_buffer m fh ≡ ok false
unfolding needs_buffer
buffer_there m fh buffer file e b = ground (arith, e, b)

module _ (crates : Crates) (fetch : ChunkHash → Option Bytes) where
  open crates use {Replica}

  -- `release` of a file whose dirty buffer is `buffer`, for a node that stands in the tree.
  release-eq :
      (now : ℕ) (ino : INodeNo) (fh : FileHandle) (s : FuseFileSystem Replica) (node_id : NodeId)
      (buffer : Bytes) {meta : NodeMeta}
      → get_node_id s.inode_map ino ≡ some node_id
      → (release_file s.open_files fh).0 ≡ some buffer
      → metadata crates s.filesystem node_id ≡ ok meta
      → release crates fetch now ino fh s
        ≡ sent_after
            (record s { open_files = (release_file s.open_files fh).1 })
            (write_file crates now s.filesystem node_id buffer)
  unfolding release flush ino_to_node_id broadcast
  release-eq now ino fh s node_id buffer n b e = rw (b, flush, n, e) refl

  write-eq :
      (ino : INodeNo) (fh : FileHandle) (offset b : ℕ) (bytes buffer : Bytes) (file : OpenFile)
      (s : FuseFileSystem Replica) (m : OpenFileManager)
      → Map.get fh s.open_files.open_files ≡ some file
      → file.buffer ≡ some buffer
      → OpenFile.write s.open_files fh offset (b ∷ bytes) ≡ (ok (length (b ∷ bytes)), m)
      → write crates fetch ino fh offset (b ∷ bytes) s
        ≡ (ok (length (b ∷ bytes) % 2 ^ 32), record s { open_files = m })
  unfolding write
  write-eq ino fh offset b bytes buffer file s m e k w =
      let there : needs_buffer s.open_files fh ≡ ok false =
        buffer_there s.open_files fh buffer file e k in
      rw (there, w) refl

  module _ (laws : TreeLaws crates) (now : ℕ) (s : FuseFileSystem Replica) (ino : INodeNo)
      (fh : FileHandle) (node_id : NodeId) (offset b : ℕ) (bytes buffer : Bytes) (file : OpenFile)
      {name : String} {size : ℕ} {rs : List ChunkRef} {cs : List Chunk}
      (numbered : get_node_id s.inode_map ino ≡ some node_id)
      (found : Map.get fh s.open_files.open_files ≡ some file)
      (buffered : file.buffer ≡ some buffer) (fits : offset + length (b ∷ bytes) < 2 ^ 63)
      (small : length buffer < 2 ^ 63) (ready : IsReady crates now s.filesystem.tree)
      (sound : IsSound crates.digest s.filesystem.storage)
      (is_file : metadata crates s.filesystem node_id ≡ ok (regular_file name size rs))
      (whole : CutsWhole crates.cutter (overwritten buffer (b ∷ bytes) offset))
      (pieces : split crates.digest crates.cutter (overwritten buffer (b ∷ bytes) offset) ≡ some cs)
      (apart : NoCollision crates.digest s.filesystem.storage cs) where
    -- A write that is not empty and ends below 2 ^ 63, to an open file with a buffer, returns the
    -- number of bytes written, as 32 bits. A release then either fails with `enospc` and leaves the file
    -- system as it was before the write, or succeeds, and then reading the whole file returns exactly the
    -- old buffer, with zeros up to the end of the write where it ended short of that, with the bytes
    -- of the write in their place. Conditions: the inode number stands for the node, which is a regular file,
    -- the buffer is shorter than 2 ^ 63, the clock is ahead of the log and has room, the tree has no cycle, the
    -- storage is sound, the chunker's ranges for the new buffer follow one another from its first byte to its
    -- last, and the byte strings that meet here have different digests where they differ.
    pub write-release :
        (s' : FuseFileSystem Replica) × (write crates fetch ino fh offset (b ∷ bytes) s
          ≡ (ok (length (b ∷ bytes) % 2 ^ 32), s'))
        × (((s'' : FuseFileSystem Replica) × (release crates fetch now ino fh s'
                ≡ (err enospc, s''))
              × (s''.filesystem ≡ s.filesystem))
            ⊎ ((s'' : FuseFileSystem Replica) × (release crates fetch now ino fh s' ≡ (ok tt, s''))
                × (fs : FileSystem Replica) × (read_file_all crates s''.filesystem node_id
                    ≡ ok (overwritten buffer (b ∷ bytes) offset, fs))))
    write-release =
        let saved : Bytes = overwritten buffer (b ∷ bytes) offset in
        let (m, w, _, _, _, _, taken, long) =
          write-read s.open_files fh offset (b ∷ bytes) buffer file found buffered fits in
        let s' : FuseFileSystem Replica = record s { open_files = m } in
        let released = release-eq now ino fh s' node_id saved numbered taken is_file in
        (
          s',
          write-eq ino fh offset b bytes buffer file s m found buffered w,
          elim (write_file-read_file_all crates laws now s.filesystem node_id saved ready sound
              is_file whole pieces apart (omega (arith, long))) [
                | inl full ↦ inl (
                  record s' { open_files = (release_file m fh).1 },
                  released
                      ∙ ap (sent_after (record s' { open_files = (release_file m fh).1 })) full,
                  refl,
                )
                | inr (changes, fs', done, fs'', back) ↦ inr (
                  (sent_after (record s' { open_files = (release_file m fh).1 })
                      (ok changes, fs')).1,
                  released
                      ∙ ap (sent_after (record s' { open_files = (release_file m fh).1 })) done,
                  fs'',
                  back,
                )
              ],
        )
