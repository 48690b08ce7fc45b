-- ===== src/Firmware/Copy.antt =====
-- `readwrite` and `is_uboot` of package/alt-f-utils/alt-f-utils-0.1.11/dns323-fw.c.
pub mod Laws
pub mod Loop
pub mod Total
pub mod Uboot
pub mod Sums
use alt_f.Prelude.{
  ℕ, zero, suc, ◌+◌, ◌-◌, ◌/◌, ◌<◌, Bool, true, false, not, Option, none, some, List, [], ◌∷◌, ◌++◌,
  length, take, drop, replicate, ltb, ◌==◌, if◌then◌else◌, bit_xor,
}
use alt_f.Prelude.Text.{bytes_eq}
use alt_f.Prelude.Word.{of_le32}
use alt_f.Firmware.File.{Os, File, seek_set, write, read}

abbrev pub block_size : ℕ
block_size = 0x10000

-- `for (j = 0; j < n / 4; j++) lchk ^= *bp++`: a rest of up to three bytes does not count.
unfoldable pub xor_words : ℕ → List ℕ → ℕ
xor_words lchk (a ∷ b ∷ c ∷ d ∷ bs) = xor_words (bit_xor lchk (of_le32 a b c d)) bs
xor_words lchk _ = lchk

-- How a call of `readwrite` ends. `failed` is -1, `diverged` means that the loop's fuel ran out,
-- and `copied` is 0, with both descriptors and `*chk` afterwards.
pub data Copied : Type 0 where
  failed diverged : Copied
  copied : File → File → ℕ → Copied

-- `k = sz - i > BLOCK_SIZE ? BLOCK_SIZE : sz - i` for `rest = sz - i`.
pub block_len : ℕ → ℕ
block_len rest = if ltb block_size rest then block_size else rest

-- One round of the loop: -1, the end of the input, or a block written.
pub data Round : Type 0 where
  bad : Round
  eof : File → Round
  wrote : File → File → List ℕ → Round

-- A checksum of 0 asks for the sum; any other is compared with it.
check_sum : ℕ → Copied → Copied
check_sum chk failed = failed
check_sum chk diverged = diverged
check_sum chk (copied fdo fdi lchk) =
    if chk == 0 then copied fdo fdi lchk else if lchk == chk then copied fdo fdi chk else failed

abbrev pub uboot_sig : List ℕ
uboot_sig = 0x27 ∷ 0x05 ∷ 0x19 ∷ 0x56 ∷ []

module _ (os : Os) where
  store_block : File → File → List ℕ → Round
  store_block fdo fdi block = elim (write os fdo block) [
    | none ↦ bad
    | some fdo' ↦ wrote fdo' fdi block
  ]

  -- What was read short is filled up with zeros to the `k` bytes asked for.
  fill_block : File → ℕ → Option (List ℕ × File) → Round
  fill_block fdo k none = bad
  fill_block fdo k (some ([], fdi)) = eof fdi
  fill_block fdo k (some (b ∷ buf, fdi)) =
      store_block fdo fdi ((b ∷ buf) ++ replicate (k - length (b ∷ buf)) 0)

  copy_block : File → File → ℕ → Round
  unfolding fill_block store_block
  copy_block fdo fdi k = fill_block fdo k (read os fdi k)

  -- `while (i < sz)`.
  pub copy_loop : ℕ → File → File → ℕ → ℕ → ℕ → Copied
  copy_loop zero fdo fdi i sz lchk = diverged
  copy_loop (suc fuel) fdo fdi i sz lchk = elim (ltb i sz) [
    | false ↦ copied fdo fdi lchk
    | true ↦ elim (copy_block fdo fdi (block_len (sz - i))) [
      | bad ↦ failed
      | eof fdi' ↦ copied fdo fdi' lchk
      | wrote fdo' fdi' block ↦
          copy_loop fuel fdo' fdi' (i + length block) sz (xor_words lchk block)
    ]
  ]

  pub readwrite : File → File → ℕ → ℕ → ℕ → Copied
  unfolding check_sum
  readwrite fdo fdi off sz chk = if not os.malloc_ok then failed else elim (seek_set os fdi off) [
    | none ↦ failed
    | some fdi' ↦ check_sum chk (copy_loop (sz / block_size + 2) fdo fdi' 0 sz 0)
  ]

  -- `read` fills the front of `file_sig`, which is not initialised, and its failure goes unseen.
  sig_buffer : Option (List ℕ × File) → File → List ℕ × File
  sig_buffer none fd = (os.stale_sig, fd)
  sig_buffer (some (got, fd')) fd = (got ++ drop (length got) os.stale_sig, fd')

  pub is_uboot : File → ℕ → Bool × File
  unfolding sig_buffer
  is_uboot fd off =
      let fd' : File = elim (seek_set os fd off) [ none ↦ fd | some moved ↦ moved ] in
      let (file_sig, fd'') = sig_buffer (read os fd' 4) fd' in (bytes_eq file_sig uboot_sig, fd'')
