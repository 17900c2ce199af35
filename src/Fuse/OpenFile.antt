-- ===== src/Fuse/OpenFile.antt =====
-- src/fuse/open_file.rs: `OpenFileManager`, the buffers of the open files. `open_files` is the map
-- behind the lock; a method that takes it for writing returns the new state. `usize` has 64 bits.
pub mod Overwritten
pub mod Buffers
use edfs.Domain.{Bytes, NodeMeta, directory, regular_file, symlink}
use edfs.Fuse.Errno.{Errno, ebadf, efbig}
use edfs.Prelude.Map
use edfs.Prelude.Map.{Map}
use edfs.Prelude.{
  ℕ, ◌+◌, ◌-◌, min, max, Bool, true, false, ltb, leb, Option, none, some, List, [], ◌∷◌, ◌++◌,
  Result, ok, err, panic, not, length, take, drop, slice, replicate, if◌then◌else◌, u64_mod,
  saturating_add, capacity_limit,
}

abbrev pub FileHandle : Type 0
FileHandle = ℕ

pub record OpenFile : Type 0 where
  pub meta : NodeMeta
  pub buffer : Option Bytes
  pub dirty : Bool

-- `OpenFile::new`.
abbrev pub opened : NodeMeta → Option Bytes → OpenFile
opened meta buffer = record { meta = meta; buffer = buffer; dirty = false }

pub record OpenFileManager : Type 0 where
  pub open_files : Map OpenFile

unfoldable pub new : OpenFileManager
new = record { open_files = [] }

unfoldable pub create_file : OpenFileManager → FileHandle → NodeMeta → OpenFileManager
create_file m fh meta = record { open_files = Map.insert fh (opened meta (some [])) m.open_files }

unfoldable pub open_file : OpenFileManager → FileHandle → NodeMeta → OpenFileManager
open_file m fh meta = record { open_files = Map.insert fh (opened meta none) m.open_files }

unfoldable pub release_file : OpenFileManager → FileHandle → Option Bytes × OpenFileManager
release_file m fh = elim (Map.get fh m.open_files) [
  | none ↦ (none, record { open_files = Map.remove fh m.open_files })
  | some session ↦ (
    if session.dirty then session.buffer else none,
    record { open_files = Map.remove fh m.open_files },
  )
]

unfoldable pub metadata : OpenFileManager → FileHandle → Option NodeMeta
metadata m fh = elim (Map.get fh m.open_files) [ none ↦ none | some file ↦ some file.meta ]

-- `read` once the buffer is found.
unfoldable pub read_buffer : Bytes → ℕ → ℕ → Bytes
read_buffer buffer offset len =
    let buffer_size : ℕ = length buffer in
    if leb buffer_size offset
    then []
    else slice offset (min (saturating_add offset len) buffer_size) buffer

-- The operator `?`, on options.
abbrev pub buffer_of : Option OpenFile → Option Bytes
buffer_of none = none
buffer_of (some file) = file.buffer

unfoldable pub read : OpenFileManager → FileHandle → ℕ → ℕ → Option Bytes
read m fh offset len = elim (buffer_of (Map.get fh m.open_files)) [
  | none ↦ none
  | some buffer ↦ some (read_buffer buffer offset len)
]

-- `resize`, in `write`. It panics where no vector is as long as the write reaches.
unfoldable pub resize : Bytes → ℕ → Result Errno Bytes
resize buffer write_end =
    if not (ltb (length buffer) write_end)
    then ok buffer
    else if leb capacity_limit write_end
    then panic
    else ok (buffer ++ replicate (write_end - length buffer) 0)

-- `copy_from_slice`, in `write`.
unfoldable pub write_buffer : Bytes → ℕ → Bytes → Result Errno Bytes
write_buffer buffer write_start content =
    let write_end : ℕ = write_start + length content in
    elim (resize buffer write_end) [
      | ok resized ↦ ok (take write_start resized ++ (content ++ drop write_end resized))
      | err e ↦ err e
      | panic ↦ panic
    ]

-- The update of `file.meta`, in `write`.
abbrev pub grow : ℕ → NodeMeta → NodeMeta
grow write_end (regular_file name size chunk_refs) =
    regular_file name (max size write_end) chunk_refs
grow write_end (directory name) = directory name
grow write_end (symlink name target) = symlink name target

unfoldable pub write : OpenFileManager → FileHandle → ℕ → Bytes → Result Errno ℕ × OpenFileManager
write m fh offset content = elim (Map.get fh m.open_files) [
  | none ↦ (err ebadf, m)
  | some file ↦ elim file.buffer [
    | none ↦ (err ebadf, m)
    | some buffer ↦
        let write_end : ℕ = offset + length content in
        if leb u64_mod write_end
        then (err efbig, m)
        else elim (write_buffer buffer offset content) [
          | ok new_buffer ↦ (
            ok (length content),
            record {
              open_files =
                  Map.insert fh
                    (record {
                      meta = grow write_end file.meta;
                      buffer = some new_buffer;
                      dirty = true;
                    })
                    m.open_files;
            },
          )
          | err e ↦ (err e, m)
          | panic ↦ (panic, m)
        ]
  ]
]

unfoldable pub needs_buffer : OpenFileManager → FileHandle → Result Errno Bool
needs_buffer m fh = elim (Map.get fh m.open_files) [
  | none ↦ err ebadf
  | some file ↦ elim file.buffer [ none ↦ ok true | some buffer ↦ ok false ]
]

unfoldable pub set_buffer : OpenFileManager → FileHandle → Bytes → OpenFileManager
set_buffer m fh buffer = elim (Map.get fh m.open_files) [
  | none ↦ m
  | some session ↦ record {
    open_files = Map.insert fh (record session { buffer = some buffer }) m.open_files;
  }
]
