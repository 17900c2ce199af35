-- ===== src/Domain.antt =====
-- src/domain.rs: node and chunk identifiers, chunks and their references, node metadata.
-- A `Uuid` is the 128-bit number that it holds, a `ChunkHash` the number that its 32 bytes spell,
-- and a byte string the list of its bytes. A `String` is the native text.
use edfs.Prelude.{ℕ, ◌-◌, ◌^◌, String, List, Bool, ◌==◌, ◌||◌, length}

abbrev pub Bytes : Type 0
Bytes = List ℕ

abbrev pub NodeId : Type 0
NodeId = ℕ

abbrev pub ChunkHash : Type 0
ChunkHash = ℕ

pub record Chunk : Type 0 where
  pub hash : ChunkHash
  pub bytes : Bytes

pub record ChunkRef : Type 0 where
  pub hash : ChunkHash
  pub size : ℕ

pub data NodeMeta : Type 0 where
  directory : String → NodeMeta
  regular_file : String → ℕ → List ChunkRef → NodeMeta
  symlink : String → String → NodeMeta

-- `NodeMeta::name`.
abbrev pub name_of : NodeMeta → String
name_of (directory name) = name
name_of (regular_file name size chunk_refs) = name
name_of (symlink name target) = name

-- `Chunk::new`. `digest` is SHA-256, of the crate `sha2`.
abbrev pub new_chunk : (Bytes → ChunkHash) → Bytes → Chunk
new_chunk digest bytes = record { hash = digest bytes; bytes = bytes }

-- `Chunk::reference`.
abbrev pub reference : Chunk → ChunkRef
reference chunk = record { hash = chunk.hash; size = length chunk.bytes }

-- `NodeId::ROOT` and `NodeId::TRASH`: the nil and the max UUID.
abbrev pub root : NodeId
root = 0

abbrev pub trash : NodeId
trash = 2 ^ 128 - 1

abbrev pub is_reserved : NodeId → Bool
is_reserved node_id = node_id == root || node_id == trash
