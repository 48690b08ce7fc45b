-- ===== src/Firmware/File.antt =====
-- The calls of the C library that dns323-fw.c makes on regular files: open, lseek, read and write
-- of package/alt-f-utils/alt-f-utils-0.1.11/dns323-fw.c. A descriptor is the file and its offset.
pub mod Laws
use alt_f.Prelude.{
  ℕ, ◌+◌, ◌-◌, ◌≤◌, Bool, true, false, Option, none, some, List, [], ◌∷◌, ◌++◌, length, take, drop,
  replicate, ltb, leb, if◌then◌else◌, String,
}

-- What the program does not decide: whether `malloc` has 64 KiB, the largest `off_t`, the size
-- that a file can grow to (`write` is short there, and fails beyond it), and what stands in the
-- uninitialised buffers that `is_uboot` and `merge` declare.
pub record Os : Type 0 where
  pub malloc_ok : Bool
  pub off_max : ℕ
  pub file_max : ℕ
  pub stale_sig : List ℕ
  pub stale_header : ℕ → List ℕ
  -- whether a name can be opened with O_WRONLY | O_CREAT | O_TRUNC
  pub can_create : List ℕ → Bool
  -- whether the medium gives the bytes at an offset, or `read` returns -1
  pub readable : ℕ → Bool
  -- the files that can be opened with O_RDONLY
  pub lookup : List ℕ → Option (List ℕ)

pub record File : Type 0 where
  pub bytes : List ℕ
  pub pos : ℕ

abbrev pub at_start : List ℕ → File
at_start b = record { bytes = b; pos = 0 }

-- Some bytes written at an offset; a gap in front of them reads as zeros.
abbrev pub splice : List ℕ → ℕ → List ℕ → List ℕ
splice old at new =
    (take at old ++ replicate (at - length old) 0) ++ (new ++ drop (at + length new) old)

module _ (os : Os) where
  -- `lseek(fd, off, SEEK_SET)`; `none` is -1.
  unfoldable pub seek_set : File → ℕ → Option File
  seek_set f off = if ltb os.off_max off then none else some (record f { pos = off })

  -- `write(fd, buf, n)`: the bytes that there is room for; `none` is -1.
  pub write : File → List ℕ → Option File
  write f [] = some f
  write f (b ∷ bs) =
      if leb os.file_max f.pos
      then none
      else let out = take (os.file_max - f.pos) (b ∷ bs) in
        some (record { bytes = splice f.bytes f.pos out; pos = f.pos + length out })

  -- `read(fd, buf, n)`: what is left of a regular file, up to `n` bytes; `none` is -1.
  unfoldable pub read : File → ℕ → Option (List ℕ × File)
  read f n =
      let got = take n (drop f.pos f.bytes) in
      if os.readable f.pos then some (got, record f { pos = f.pos + length got }) else none

-- `lseek(fd, 0, SEEK_END)`, which also gives the size.
unfoldable pub seek_end : File → File
seek_end f = record f { pos = length f.bytes }
