-- ===== src/Firmware/Image/RoundTrip.antt =====
-- `info` and `split` on a file that `merge` made.
use alt_f.Prelude.{
  ℕ, ◌+◌, ◌≡◌, refl, sym, subst, Bool, true, false, some, List, [], ◌∷◌, length, length-append,
  length-take, take, arith, if◌then◌else◌,
}
use alt_f.Prelude.Result.{ok, ◌>>=◌}
use alt_f.Prelude.Text.{bytes_eq, bytes_eq_refl}
use alt_f.Firmware.File.{Os, File, at_start, seek_end}
use alt_f.Firmware.File.Laws.{read_lem}
use alt_f.Firmware.Header.{MyControlHeader}
use alt_f.Firmware.Options.{Config, given}
use alt_f.Firmware.Save.Laws.{IsRoomy}
use alt_f.Firmware.Merge.{merge}
use alt_f.Firmware.Split.{print_info, whole_header, open_read, split_files, split}
use alt_f.Firmware.Image.{Parts, header_of, header_bytes, body, image, image_size, IsMergeable}
use alt_f.Firmware.Image.Build.{size_cases, length-header_bytes, length-body, merge-image}
use alt_f.Firmware.Image.Found.{IsImage, header_found, header_found-Describes, check_sig-image}
use alt_f.Firmware.Image.Restore.{restored, split_files-image}

length-image : (cfg : Config) (p : Parts) → IsImage cfg p → length (image cfg p) ≡ image_size cfg p
length-image cfg p m = omega (
  arith,
  length-append (header_bytes (header_of cfg p)) (body p),
  length-header_bytes (header_of cfg p) m.kind_known (size_cases cfg.kind m.kind_known),
  length-body p,
)

-- Printing moves the descriptor and nothing else.
print_info_pos :
    (os : Os) (fd : File) (hd : MyControlHeader) (quiet : Bool)
    → hd.next_offset ≡ 0
    → (n : ℕ) × (print_info os fd hd quiet ≡ record fd { pos = n })
unfolding print_info seek_end
print_info_pos os fd hd true e = (fd.pos, refl)
print_info_pos os fd hd false e = (length fd.bytes, ground arith)

whole_header_lem :
    (os : Os) (hd : List ℕ) (fd : File)
    → length hd ≡ 128
    → whole_header os (some (hd, fd)) ≡ ok (hd, fd)
unfolding whole_header
whole_header_lem os hd fd e = ground arith

module _ (os : Os) (cfg : Config) (p : Parts) (fw : List ℕ) (quiet : Bool) (myhd : MyControlHeader)
    (r : IsRoomy os (image_size cfg p)) (m : IsImage cfg p)
    (held : os.lookup fw ≡ some (image cfg p)) where
  open_read_pos :
      (n : ℕ)
      → print_info os
          (record { bytes = image cfg p; pos = 0 + length (take 128 (image cfg p)) })
          (header_found cfg p myhd)
          quiet
        ≡ record { bytes = image cfg p; pos = n }
      → open_read os fw quiet myhd
        ≡ ok (record { bytes = image cfg p; pos = n }, header_found cfg p myhd)
  unfolding open_read
  open_read_pos n printed =
      rw (held, read_lem os (at_start (image cfg p)) 128 r.reliable)
        (rw (
          whole_header_lem os (take 128 (image cfg p))
              (record { bytes = image cfg p; pos = 0 + length (take 128 (image cfg p)) })
              (omega (arith, length-take 128 (image cfg p), length-image cfg p m, m.long)),
          check_sig-image cfg p m myhd,
          printed,
        ))

  -- The header that is found describes the parts.
  open_read-image :
      (n : ℕ) × (open_read os fw quiet myhd
        ≡ ok (record { bytes = image cfg p; pos = n }, header_found cfg p myhd))
  open_read-image =
      let (n, printed) =
        print_info_pos os
          (record { bytes = image cfg p; pos = 0 + length (take 128 (image cfg p)) })
          (header_found cfg p myhd) quiet
          (header_found-Describes cfg p myhd m.kind_known).next_offset in
      (n, open_read_pos n printed)

-- `split` of an image of well-formed parts gives back the files that it was made of, where there is
-- room, the files can be created, and neither `malloc` nor `read` fails.
pub split-image :
    (os : Os) (cfg out : Config) (p : Parts) (fw : List ℕ) (myhd : MyControlHeader)
    → IsImage cfg p
    → IsRoomy os (image_size cfg p)
    → ((name : List ℕ) → os.can_create name ≡ true)
    → out.fw ≡ some fw
    → os.lookup fw ≡ some (image cfg p)
    → split os out myhd ≡ ok (restored cfg out p)
unfolding split
split-image os cfg out p fw myhd m r creates named held =
    let (n, opened) = open_read-image os cfg p fw out.quiet myhd r m held in
    subst
      (λ o.
        (given o >>= λ f. open_read os f out.quiet myhd >>= λ t. split_files os out t.0 t.1)
        ≡ ok (restored cfg out p))
      (sym named)
      (rw opened (
        split_files-image os cfg out p (header_found cfg p myhd) r creates m
          (header_found-Describes cfg p myhd m.kind_known) n))

-- The machine with one more file.
abbrev pub with_file : Os → List ℕ → List ℕ → Os
with_file os fw bytes = record os {
  lookup = λ name. if bytes_eq name fw then some bytes else os.lookup name;
}

-- `merge` of well-formed parts, with room for the result, ends normally with one file, and `split`,
-- on any machine that holds this file, has room, and can create the files, gives the merged parts
-- back, bit for bit: it creates the kernel, the initramfs, the sqimage where the product has one,
-- and the defaults.
pub merge-split :
    (os os' : Os) (cfg out : Config) (p : Parts) (fw : List ℕ) (myhd : MyControlHeader)
    → IsMergeable os cfg fw p
    → IsImage cfg p
    → IsRoomy os' (image_size cfg p)
    → ((name : List ℕ) → os'.can_create name ≡ true)
    → out.fw ≡ some fw
    → (merged : List ℕ) × (merge os cfg ≡ ok ((fw, merged) ∷ []))
      × (split (with_file os' fw merged) out myhd ≡ ok (restored cfg out p))
merge-split os os' cfg out p fw myhd able m r creates named = (
  image cfg p,
  merge-image os cfg fw p able,
  split-image (with_file os' fw (image cfg p)) cfg out p fw myhd m
      (record {
        reliable = record { malloc = r.reliable.malloc; reads = r.reliable.reads };
        room = r.room;
        seekable = r.seekable;
        word = r.word;
        buffer = r.buffer;
      })
      creates named (rw (bytes_eq_refl fw)),
)
