-- ===== src/Firmware/Save/Verdict.antt =====
-- Which components `savefile` of dns323-fw.c accepts, by their checksum.
use alt_f.Prelude.{
  ℕ, ◌+◌, ◌≤◌, ◌≡◌, ◌≢◌, refl, ◌∙◌, ◌⊎◌, inl, inr, Bool, true, false, Bool-cases, List, [], length,
  length-take, length-drop, take, drop, arith, ◌==◌, ◌||◌, if◌then◌else◌,
}
use alt_f.Prelude.Result.{ok, exit}
use alt_f.Firmware.File.{Os, File, at_start}
use alt_f.Firmware.Copy.{Copied, failed, readwrite}
use alt_f.Firmware.Copy.Laws.{padded, padded_enough}
use alt_f.Firmware.Copy.Total.{sum_of, readwrite_lem}
use alt_f.Firmware.Save.{savefile}
use alt_f.Firmware.Save.Laws.{IsRoomy, savefile_lem}

wrong_sum : (chk sum : ℕ) → chk ≢ 0 → chk ≢ sum → (chk == 0 || sum == chk) ≡ false
wrong_sum chk sum a b = ground arith

right_sum : (chk sum : ℕ) → (chk == 0 || sum == chk) ≡ true → (chk ≡ 0) ⊎ (chk ≡ sum)
right_sum chk sum h = ground arith

if_false : {b : Bool} (x y : Copied) → b ≡ false → (if b then x else y) ≡ y
if_false x y e = rw e

module _ (os : Os) (name : List ℕ) (fdi : File) (off n chk total : ℕ) (r : IsRoomy os total)
    (creates : os.can_create name ≡ true) (inside : off + n ≤ length fdi.bytes)
    (small : length fdi.bytes ≤ total) where
  abbrev part : List ℕ
  part = take n (drop off fdi.bytes)

  whole : padded (drop off fdi.bytes) n ≡ part
  whole = padded_enough (drop off fdi.bytes) n (omega (arith, length-drop off fdi.bytes))

  refused :
      (chk == 0 || sum_of part == chk) ≡ false → readwrite os (at_start []) fdi off n chk ≡ failed
  refused bad =
      readwrite_lem os (at_start []) fdi off n chk r.reliable (omega (arith, r.seekable)) refl (
        rw whole
          (omega (arith, length-take n (drop off fdi.bytes), length-drop off fdi.bytes, r.room)))
      ∙ rw whole (if_false _ _ bad)

  -- Where its file can be created, there is room, and nothing else fails, a component of `n` bytes
  -- that lies inside the firmware file is saved, bit for bit, when the header's checksum is 0 or
  -- the exclusive or of its words; otherwise the program leaves with 1.
  pub savefile_verdict : savefile os name fdi off n chk ≡ (
      if chk == 0 || sum_of part == chk
      then ok (part, record { bytes = fdi.bytes; pos = off + n }, sum_of part)
      else exit 1)
  unfolding savefile
  savefile_verdict = elim (Bool-cases (chk == 0 || sum_of part == chk)) [
    | inl good ↦ rw good (
        savefile_lem os name fdi off n chk total r creates inside small
          (right_sum chk (sum_of part) good))
    | inr bad ↦ rw bad (rw (creates, refused bad, savefile))
  ]
