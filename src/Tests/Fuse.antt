-- ===== src/Tests/Fuse.antt =====
-- The inode numbers and the open files.
use edfs.Domain.{Bytes, regular_file}
use edfs.Fuse.Inode
use edfs.Fuse.Inode.{get_or_assign_ino}
use edfs.Fuse.Inode.Bijection.{Assigned, new-IsBijection, get_or_assign_ino-Assigned}
use edfs.Fuse.OpenFile.{
  OpenFile, OpenFileManager, opened, write, read, release_file, resize, write_buffer,
}
use edfs.Fuse.OpenFile.Overwritten.{zero_filled, overwritten}
use edfs.Fuse.OpenFile.Buffers.{write-read}
use edfs.Prelude.Map
use edfs.Prelude.{
  ℕ, ◌+◌, ◌≡◌, ◌<◌, ◌≤◌, ◌^◌, ◌⊎◌, refl, max, some, [], ◌∷◌, ok, arith, length, slice,
}

get_or_assign_ino-Assigned_example :
    Assigned
      (Inode.new 1)
      7
      (get_or_assign_ino (Inode.new 1) 7).0
      (get_or_assign_ino (Inode.new 1) 7).1
unfolding Inode.new
get_or_assign_ino-Assigned_example =
    get_or_assign_ino-Assigned (Inode.new 1) 7 (new-IsBijection 1 (omega arith)) (omega arith)

abbrev old_bytes : Bytes
old_bytes = 9 ∷ []

abbrev old_file : OpenFile
old_file = opened (regular_file "a" 1 []) (some old_bytes)

abbrev files : OpenFileManager
files = record { open_files = (3, old_file) ∷ [] }

abbrev content : Bytes
content = 1 ∷ 2 ∷ []

-- A write that begins behind the end of the file leaves a zero between.
fills : write_buffer old_bytes 2 content ≡ ok (9 ∷ 0 ∷ 1 ∷ 2 ∷ [])
unfolding write_buffer resize
fills = refl

write-read_example :
    (m' : OpenFileManager) × (write files 3 2 content ≡ (ok (length content), m'))
    × (read m' 3 2 (length content) ≡ some content)
    × ((lo len : ℕ)
        → (2 < lo + len)
          ⊎ (read m' 3 lo len
              ≡ some (slice lo (lo + len) (zero_filled old_bytes (2 + length content)))))
    × ((lo len : ℕ)
        → (lo < 2 + length content)
          ⊎ (2 ^ 64 ≤ lo + len)
          ⊎ (read m' 3 lo len ≡ read files 3 lo len))
    × ((other : ℕ) → (other ≡ 3) ⊎ (Map.get other m'.open_files ≡ Map.get other files.open_files))
    × ((release_file m' 3).0 ≡ some (overwritten old_bytes content 2))
    × (length (overwritten old_bytes content 2) ≡ max (length old_bytes) (2 + length content))
unfolding Map.get
write-read_example = write-read files 3 2 content old_bytes old_file refl refl (omega arith)
