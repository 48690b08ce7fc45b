-- ===== src/Firmware/Save/Laws.antt =====
-- `savecomp` and `savefile` where nothing fails
use alt_f.Prelude.{
  ℕ, ◌+◌, ◌≤◌, ◌<◌, ◌≡◌, refl, sym, ap, ◌∙◌, ◌⊎◌, inl, Bool, true, false, ◌||◌, some, List, [],
  ◌++◌, length, take, drop, ◌==◌, if◌then◌else◌, arith, le→ltb, length-append, length-take,
  length-drop,
}
use alt_f.Prelude.Result.{ok}
use alt_f.Prelude.Word.{u32}
use alt_f.Prelude.Slices.{take-all}
use alt_f.Firmware.File.{Os, File, at_start, seek_end}
use alt_f.Firmware.File.Laws.{IsReliable}
use alt_f.Firmware.Copy.{uboot_sig, readwrite, Copied, copied, failed}
use alt_f.Firmware.Copy.Uboot.{is_uboot_lem}
use alt_f.Firmware.Copy.Laws.{padded, padded_enough}
use alt_f.Firmware.Copy.Total.{sum_of, readwrite_lem}
use alt_f.Firmware.Save.{Component, savefile, savecomp}

-- Nothing fails for files of up to `n` bytes.
pub record IsRoomy (os : Os) (n : ℕ) : Type 0 where
  pub reliable : IsReliable os
  pub room : n ≤ os.file_max
  pub seekable : n ≤ os.off_max
  pub word : n < 4294967296
  pub buffer : length os.stale_sig ≡ 4

passes : (chk sum : ℕ) → (chk ≡ 0) ⊎ (chk ≡ sum) → (chk == 0 || sum == chk) ≡ true
passes chk sum h = ground arith

if_true : {b : Bool} {x : Copied} (y : Copied) → b ≡ true → (if b then x else y) ≡ x
if_true y e = rw e

-- `n` bytes of a file that has them.
readwrite_slice :
    (os : Os) (fdo fdi : File) (off n chk : ℕ)
    → IsReliable os
    → off ≤ os.off_max
    → fdo.pos ≡ length fdo.bytes
    → off + n ≤ length fdi.bytes
    → fdo.pos + n ≤ os.file_max
    → (chk ≡ 0) ⊎ (chk ≡ sum_of (take n (drop off fdi.bytes)))
    → let block = take n (drop off fdi.bytes) in
      readwrite os fdo fdi off n chk
      ≡ copied
          (record { bytes = fdo.bytes ++ block; pos = fdo.pos + n })
          (record { bytes = fdi.bytes; pos = off + n })
          (sum_of block)
readwrite_slice os fdo fdi off n chk r low e inside room good =
    let block = take n (drop off fdi.bytes) in
    let len : length block ≡ n =
      omega (arith, length-take n (drop off fdi.bytes), length-drop off fdi.bytes) in
    let whole : padded (drop off fdi.bytes) n ≡ block =
      padded_enough (drop off fdi.bytes) n (omega (arith, length-drop off fdi.bytes)) in
    readwrite_lem os fdo fdi off n chk r low e (omega (arith, ap (λ (t : List ℕ). length t) whole))
    ∙ ap
        (λ b.
          if chk == 0 || sum_of b == chk
          then copied (record { bytes = fdo.bytes ++ b; pos = fdo.pos + length b })
              (record { bytes = fdi.bytes; pos = off + length block }) (sum_of b)
          else failed)
        whole
    ∙ ap
        (λ m.
          if chk == 0 || sum_of block == chk
          then copied (record { bytes = fdo.bytes ++ block; pos = fdo.pos + m })
              (record { bytes = fdi.bytes; pos = off + m }) (sum_of block)
          else failed)
        len
    ∙ if_true failed (passes chk (sum_of block) good)

-- A component of a firmware image: its bytes, placed at an offset.
abbrev pub placed : ℕ → List ℕ → Component
placed at bytes = record { offset = at; len = length bytes; checksum = sum_of bytes }

-- The four bytes that `uboot` asks for.
abbrev pub HasMagic : Bool → List ℕ → Type 0
HasMagic uboot bytes = uboot ≡ true → take 4 bytes ≡ uboot_sig

abbrev pub ended : List ℕ → File
ended bytes = record { bytes = bytes; pos = length bytes }

savecomp_copy :
    (os : Os) (fdo : File) (bytes : List ℕ) (pos total : ℕ)
    → IsRoomy os total
    → length fdo.bytes + length bytes ≤ total
    → readwrite os (seek_end fdo) (record { bytes = bytes; pos = pos }) 0 (length bytes) 0
      ≡ copied (ended (fdo.bytes ++ bytes)) (ended bytes) (sum_of bytes)
unfolding seek_end
savecomp_copy os fdo bytes pos total r fits =
    readwrite_slice os (seek_end fdo) (record { bytes = bytes; pos = pos }) 0 (length bytes) 0
      r.reliable (omega arith) refl (omega arith) (omega (arith, r.room)) (inl refl)
    ∙ λ i.
        copied
          (record {
            bytes = fdo.bytes ++ take-all (length bytes) bytes le_refl_at i;
            pos = sym (length-append fdo.bytes bytes) i;
          })
          (record { bytes = bytes; pos = zero_add (length bytes) i })
          (sum_of (take-all (length bytes) bytes le_refl_at i))
  where
    le_refl_at : length bytes ≤ length bytes
    le_refl_at = omega arith

    zero_add : (n : ℕ) → 0 + n ≡ n
    zero_add n = omega arith

pub savefile_lem :
    (os : Os) (name : List ℕ) (fdi : File) (off n chk total : ℕ)
    → IsRoomy os total
    → os.can_create name ≡ true
    → off + n ≤ length fdi.bytes
    → length fdi.bytes ≤ total
    → (chk ≡ 0) ⊎ (chk ≡ sum_of (take n (drop off fdi.bytes)))
    → savefile os name fdi off n chk
      ≡ ok (
        take n (drop off fdi.bytes),
        record { bytes = fdi.bytes; pos = off + n },
        sum_of (take n (drop off fdi.bytes)),
      )
unfolding savefile
savefile_lem os name fdi off n chk total r creates inside small good = rw (
  creates,
  readwrite_slice os (at_start []) fdi off n chk r.reliable (omega (arith, r.seekable)) refl inside
      (omega (arith, r.room)) good,
)

pub savecomp_lem :
    (os : Os) (name : List ℕ) (fdo : File) (uboot : Bool) (size_max : ℕ) (bytes : List ℕ)
    (total : ℕ)
    → IsRoomy os total
    → os.lookup name ≡ some bytes
    → HasMagic uboot bytes
    → length bytes ≤ size_max
    → length fdo.bytes + length bytes ≤ total
    → savecomp os name fdo uboot size_max
      ≡ ok (ended (fdo.bytes ++ bytes), placed (length fdo.bytes) bytes)
unfolding savecomp seek_end
savecomp_lem os name fdo false size_max bytes total r found magic small fits =
    let same : u32 (length bytes) ≡ length bytes = omega (arith, r.word) in
    let at : u32 (length fdo.bytes) ≡ length fdo.bytes = omega (arith, r.word) in
    rw (found, same, at, le→ltb size_max (length bytes) small)
      (rw (savecomp_copy os fdo bytes (length bytes) total r fits))
savecomp_lem os name fdo true size_max bytes total r found magic small fits =
    let same : u32 (length bytes) ≡ length bytes = omega (arith, r.word) in
    let at : u32 (length fdo.bytes) ≡ length fdo.bytes = omega (arith, r.word) in
    rw
      (
        found,
        is_uboot_lem os (at_start bytes) 0 r.reliable r.buffer (omega arith) (magic refl),
        same,
        at,
        le→ltb size_max (length bytes) small,
      )
      (rw (savecomp_copy os fdo bytes (length bytes) total r fits))
