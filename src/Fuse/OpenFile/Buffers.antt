-- ===== src/Fuse/OpenFile/Buffers.antt =====
-- src/fuse/open_file.rs: what a write to an open file leaves.
use edfs.Domain.{Bytes}
use edfs.Fuse.OpenFile.{
  FileHandle, OpenFile, OpenFileManager, write, read, resize, write_buffer, read_buffer, grow,
  release_file,
}
use edfs.Fuse.OpenFile.Overwritten.{
  slice_beyond, zero_filled, end, whole, length-whole, whole_long, overwritten, slice_written,
  slice_front, slice_back, length-overwritten,
}
use edfs.Prelude.Map
use edfs.Prelude.Map.{Map}
use edfs.Prelude.{
  ℕ, ◌+◌, ◌≤◌, ◌<◌, ◌^◌, ◌≡◌, ◌⊎◌, refl, sym, ap, ◌∙◌, min, max, ◌==◌, true, Bool-cases, inl, inr,
  ltb, leb, some, ok, length, slice, if◌then◌else◌, arith, slice_congr, slice-length-min,
  saturating_add,
}

-- The guards of `read` change nothing: it is a slice, cut off at the end of the buffer.
pub read_buffer-eq-slice :
    (buffer : Bytes) (offset len : ℕ)
    → offset + len < 2 ^ 64
    → read_buffer buffer offset len ≡ slice offset (offset + len) buffer
unfolding read_buffer
read_buffer-eq-slice buffer offset len small = elim (Bool-cases (leb (length buffer) offset)) [
  | inl beyond ↦
      rw (read_buffer, beyond) (sym (slice_beyond offset (offset + len) buffer (ground arith)))
  | inr inside ↦
      rw (read_buffer, inside)
        (slice_congr {lo = offset} {lo' = offset}
            {hi = min (saturating_add offset len) (length buffer)}
            {hi' = min (offset + len) (length buffer)} buffer refl (omega arith)
          ∙ slice-length-min offset (offset + len) buffer)
]

module _ (buffer content : Bytes) (offset : ℕ) (fits : offset + length content < 2 ^ 63) where
  resize-eq : resize buffer (end buffer content offset) ≡ ok (whole buffer content offset)
  unfolding resize
  resize-eq = elim (Bool-cases (ltb (length buffer) (offset + length content))) [
    | inl short ↦ ground arith
    | inr long ↦ rw long (
        ap ok
          (whole_long buffer content offset (ground (arith, length-whole buffer content offset))))
  ]

  write_buffer-eq : write_buffer buffer offset content ≡ ok (overwritten buffer content offset)
  unfolding write_buffer
  write_buffer-eq = rw (write_buffer, resize-eq) refl

module _ (m : OpenFileManager) (fh : FileHandle) (offset : ℕ) (content buffer : Bytes)
    (file : OpenFile) (found : Map.get fh m.open_files ≡ some file)
    (buffered : file.buffer ≡ some buffer) (fits : offset + length content < 2 ^ 63) where
  abbrev new_buffer : Bytes
  new_buffer = overwritten buffer content offset

  abbrev new_file : OpenFile
  new_file = record {
    meta = grow (offset + length content) file.meta;
    buffer = some new_buffer;
    dirty = true;
  }

  abbrev after : OpenFileManager
  after = record { open_files = Map.insert fh new_file m.open_files }

  write-eq : write m fh offset content ≡ (ok (length content), after)
  unfolding write
  write-eq = ground (arith, write_buffer-eq buffer content offset fits)

  after_at :
      (h : FileHandle)
      → Map.get h after.open_files ≡ (if h == fh then some new_file else Map.get h m.open_files)
  after_at h = Map.get-insert fh h new_file m.open_files

  read_after :
      (lo len : ℕ)
      → lo + len < 2 ^ 64
      → read after fh lo len ≡ some (slice lo (lo + len) new_buffer)
  unfolding read
  read_after lo len small =
      ground (arith, after_at fh, read_buffer-eq-slice new_buffer lo len small)

  read_before_write :
      (lo len : ℕ) → lo + len < 2 ^ 64 → read m fh lo len ≡ some (slice lo (lo + len) buffer)
  unfolding read
  read_before_write lo len small = ground (arith, read_buffer-eq-slice buffer lo len small)

  -- A write that ends below 2 ^ 63, to an open file with a buffer, succeeds. In the new state, as
  -- far as a read fits in 64 bits, the file has at the place of the write the bytes written, before
  -- it the old ones with zeros where the file ended short of it, and behind it the old ones; every
  -- other handle is as it was, a release returns the new buffer, and that is as long as the old one
  -- or reaches to the end of the write.
  pub write-read :
      (m' : OpenFileManager) × (write m fh offset content ≡ (ok (length content), m'))
      × (read m' fh offset (length content) ≡ some content)
      × ((lo len : ℕ)
          → (offset < lo + len)
            ⊎ (read m' fh lo len
                ≡ some (slice lo (lo + len) (zero_filled buffer (offset + length content)))))
      × ((lo len : ℕ)
          → (lo < offset + length content)
            ⊎ (2 ^ 64 ≤ lo + len)
            ⊎ (read m' fh lo len ≡ read m fh lo len))
      × ((other : FileHandle)
          → (other ≡ fh) ⊎ (Map.get other m'.open_files ≡ Map.get other m.open_files))
      × ((release_file m' fh).0 ≡ some new_buffer)
      × (length new_buffer ≡ max (length buffer) (offset + length content))
  unfolding release_file
  write-read = (
    after,
    write-eq,
    read_after offset (length content) (omega arith)
        ∙ ap some (slice_written buffer content offset),
    (λ lo len. elim (Bool-cases (leb (lo + len) offset)) [
      | inl inside ↦ inr (
          read_after lo len (ground arith)
          ∙ ap some (slice_front buffer content offset lo (lo + len) (ground arith)))
      | inr past ↦ inl (ground arith)
    ]),
    (λ lo len. elim (Bool-cases (leb (offset + length content) lo)) [
      | inl behind ↦ elim (Bool-cases (ltb (lo + len) (2 ^ 64))) [
        | inl small ↦ inr (
            inr (
              read_after lo len (ground arith)
              ∙ ap some (slice_back buffer content offset lo (lo + len) (ground arith))
              ∙ sym (read_before_write lo len (ground arith))))
        | inr large ↦ inr (inl (ground arith))
      ]
      | inr inside ↦ inl (ground arith)
    ]),
    (λ other. ground (arith, after_at other)),
    ground (arith, after_at fh),
    length-overwritten buffer content offset,
  )
