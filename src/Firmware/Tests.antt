-- ===== src/Firmware/Tests.antt =====
-- Runs of dns323-fw on small files.
use alt_f.Prelude.{
  ℕ, ◌≡◌, ◌≢◌, refl, true, Option, none, some, List, [], ◌∷◌, ap, ◌++◌, ◌==◌, ◌||◌, replicate,
  arith, if◌then◌else◌,
}
use alt_f.Prelude.Result.{ok, exit}
use alt_f.Prelude.Text.{codes, bytes_eq}
use alt_f.Firmware.Copy.{copied, diverged, xor_words, readwrite}
use alt_f.Firmware.Copy.Total.{sum_of, readwrite_lem, readwrite-ne-diverged}
use alt_f.Firmware.File.{Os, at_start}
use alt_f.Firmware.File.Laws.{IsReliable}
use alt_f.Firmware.Header.{MyControlHeader, cmp_sig, signature_at}
use alt_f.Firmware.Options.{Config, default_config, split_mode, set_option, set_options}
use alt_f.Firmware.Program.{main}
use alt_f.Firmware.Merge.{merge}
use alt_f.Firmware.Split.{split, info}
use alt_f.Firmware.Save.Laws.{IsRoomy}
use alt_f.Firmware.Image.{Parts, image, image_size, IsMergeable}
use alt_f.Firmware.Image.Build.{merge-image}
use alt_f.Firmware.Image.Found.{IsImage}
use alt_f.Firmware.Image.Restore.{restored}
use alt_f.Firmware.Image.RoundTrip.{with_file, merge-split, split-image}
use alt_f.Firmware.Image.Refusals.{short, split-NoFirmware}
use alt_f.Firmware.Save.{savefile, savecomp}
use alt_f.Firmware.Save.Verdict.{savefile_verdict}
use alt_f.Firmware.Save.Refusals.{no_magic, savecomp-Unfit}
use alt_f.Firmware.Layout.{encode64, encode128, set_header64, set_header128, check_sig}
use alt_f.Firmware.Layout.Laws.{check_sig-encode64, check_sig-encode128}

abbrev kernel_bytes : List ℕ
kernel_bytes = 0x27 ∷ 0x05 ∷ 0x19 ∷ 0x56 ∷ replicate 9 7

abbrev initramfs_bytes : List ℕ
initramfs_bytes = 0x27 ∷ 0x05 ∷ 0x19 ∷ 0x56 ∷ replicate 6 9

abbrev sqimage_bytes : List ℕ
sqimage_bytes = 1 ∷ 2 ∷ 3 ∷ 4 ∷ 5 ∷ []

abbrev parts : Parts
parts = record {
  kernel = kernel_bytes;
  initramfs = initramfs_bytes;
  sqimage = sqimage_bytes;
  defaults = [];
}

abbrev files : List ℕ → Option (List ℕ)
files name =
    if bytes_eq name (codes "k")
    then some kernel_bytes
    else if bytes_eq name (codes "i")
    then some initramfs_bytes
    else if bytes_eq name (codes "q")
    then some sqimage_bytes
    else none

abbrev machine : Os
machine = record {
  malloc_ok = true;
  off_max = 2147483647;
  file_max = 2147483647;
  stale_sig = 0 ∷ 0 ∷ 0 ∷ 0 ∷ [];
  stale_header = λ n. replicate n 255;
  can_create = λ _. true;
  readable = λ _. true;
  lookup = files;
}

-- A DNS-325 image: a header of 128 bytes and a sqimage.
abbrev merge_config : Config
merge_config = record default_config {
  kernel = some (codes "k");
  initramfs = some (codes "i");
  sqimage = some (codes "q");
  fw = some (codes "fw");
  kind = 3;
}

abbrev fw_image : List ℕ
fw_image = image merge_config parts

abbrev machine_after : Os
machine_after = record machine {
  lookup = λ name. if bytes_eq name (codes "fw") then some fw_image else files name;
}

machine-IsReliable : IsReliable machine
machine-IsReliable = record { malloc = refl; reads = λ _. refl }

merge_ready : IsMergeable machine merge_config (codes "fw") parts
unfolding signature_at
merge_ready = record {
  kernel_name = codes "k";
  initramfs_name = codes "i";
  kernel_given = refl;
  initramfs_given = refl;
  fw_given = refl;
  kernel_held = refl;
  initramfs_held = refl;
  sqimage_held = λ _. refl;
  no_sqimage = λ e. absurd (omega arith);
  defaults_held = refl;
  kind_known = omega arith;
  creates = refl;
  stale = refl;
  kernel_magic = refl;
  initramfs_magic = refl;
  kernel_small = omega arith;
  initramfs_small = omega arith;
  sqimage_small = omega arith;
  defaults_small = omega arith;
  roomy = record {
    reliable = machine-IsReliable;
    room = omega arith;
    seekable = omega arith;
    word = omega arith;
    buffer = refl;
  };
}

merge-image_example : merge machine merge_config ≡ ok ((codes "fw", fw_image) ∷ [])
merge-image_example = merge-image machine merge_config (codes "fw") parts merge_ready

abbrev split_config : Config
split_config = record default_config { fw = some (codes "fw"); quiet = true }

abbrev blank : MyControlHeader
blank = record {
  kernel_off = 0;
  kernel_len = 0;
  kernel_checksum = 0;
  initramfs_off = 0;
  initramfs_len = 0;
  initramfs_checksum = 0;
  sqimage_off = 0;
  sqimage_len = 0;
  sqimage_checksum = 0;
  defaults_off = 0;
  defaults_len = 0;
  defaults_checksum = 0;
  next_offset = 0;
  product_id = 0;
  custom_id = 0;
  model_id = 0;
  sub_id = 0;
  new_version = 0;
  kind = 0;
  sig_num = 0;
}

parts-IsImage : IsImage merge_config parts
unfolding signature_at cmp_sig xor_words
parts-IsImage = record {
  kernel_bytes = omega arith;
  initramfs_bytes = omega arith;
  sqimage_bytes = omega arith;
  defaults_bytes = tt;
  kind_known = omega arith;
  kernel_magic = refl;
  initramfs_magic = refl;
  no_sqimage = λ e. absurd (omega arith);
  word = omega arith;
  long = omega arith;
  clear = λ _. refl;
}

machine_after-IsRoomy : IsRoomy machine_after (image_size merge_config parts)
unfolding signature_at
machine_after-IsRoomy = record {
  reliable = record { malloc = refl; reads = λ _. refl };
  room = omega arith;
  seekable = omega arith;
  word = omega arith;
  buffer = refl;
}

parts-IsRoomy : IsRoomy machine (image_size merge_config parts)
unfolding signature_at
parts-IsRoomy = record {
  reliable = machine-IsReliable;
  room = omega arith;
  seekable = omega arith;
  word = omega arith;
  buffer = refl;
}

merge-split_example :
    (merged : List ℕ) × (merge machine merge_config ≡ ok ((codes "fw", merged) ∷ []))
    × (split (with_file machine (codes "fw") merged) split_config blank
        ≡ ok (restored merge_config split_config parts))
merge-split_example =
    merge-split machine machine merge_config split_config parts (codes "fw") blank merge_ready
      parts-IsImage parts-IsRoomy (λ _. refl) refl

split-image_example :
    split machine_after split_config blank ≡ ok (restored merge_config split_config parts)
split-image_example =
    split-image machine_after merge_config split_config parts (codes "fw") blank parts-IsImage
      machine_after-IsRoomy (λ _. refl) refl refl

-- Ten bytes asked for, three there: zeros up to ten, and the sum of the two whole words.
readwrite_lem_example :
    readwrite machine (at_start []) (at_start (1 ∷ 2 ∷ 3 ∷ [])) 0 10 0
    ≡ copied
        (record { bytes = 1 ∷ 2 ∷ 3 ∷ replicate 7 0; pos = 10 })
        (record { bytes = 1 ∷ 2 ∷ 3 ∷ []; pos = 3 })
        197121
unfolding xor_words
readwrite_lem_example =
    readwrite_lem machine (at_start []) (at_start (1 ∷ 2 ∷ 3 ∷ [])) 0 10 0 machine-IsReliable
      (omega arith) refl (omega arith)

readwrite-ne-diverged_example :
    readwrite machine (at_start []) (at_start (1 ∷ 2 ∷ 3 ∷ [])) 0 10 5 ≢ diverged
readwrite-ne-diverged_example =
    readwrite-ne-diverged machine (at_start []) (at_start (1 ∷ 2 ∷ 3 ∷ [])) 0 10 5

-- The options in front of the operand, through `main`.
main_usage : main machine (split_mode ∷ []) [] blank ≡ exit 1
unfolding main set_options set_option
main_usage = refl

-- Bytes 4 to 11 of an image of twenty, with a checksum that is not theirs.
savefile_verdict_example : savefile machine (codes "kernel") (at_start (replicate 20 3)) 4 8 99 ≡ (
    if 99 == 0 || sum_of (replicate 8 3) == 99
    then ok (replicate 8 3, record { bytes = replicate 20 3; pos = 12 }, sum_of (replicate 8 3))
    else exit 1)
savefile_verdict_example =
    savefile_verdict machine (codes "kernel") (at_start (replicate 20 3)) 4 8 99 20
      (record {
        reliable = machine-IsReliable;
        room = omega arith;
        seekable = omega arith;
        word = omega arith;
        buffer = refl;
      })
      refl (omega arith) (omega arith)

-- A file with one byte less than a header.
split-NoFirmware_example :
    (split (with_file machine (codes "fw") (replicate 127 0)) split_config blank ≡ exit 1)
    × (info (with_file machine (codes "fw") (replicate 127 0)) split_config blank ≡ exit 1)
split-NoFirmware_example =
    split-NoFirmware (with_file machine (codes "fw") (replicate 127 0)) split_config (codes "fw")
      blank (record { malloc = refl; reads = λ _. refl }) refl
      (short (replicate 127 0) refl (omega arith))

-- The sqimage given as a kernel.
savecomp-Unfit_example :
    savecomp machine (codes "q") (at_start (replicate 128 0)) true 5242880 ≡ exit 1
savecomp-Unfit_example =
    savecomp-Unfit machine (codes "q") (at_start (replicate 128 0)) true 5242880 machine-IsReliable
      (no_magic sqimage_bytes refl refl (omega arith)
        (λ e. omega (arith, ap {A = List ℕ} {B = ℕ} (λ t. elim t [ [] ↦ 0 | b ∷ _ ↦ b ]) e)))

abbrev frodo_header : MyControlHeader
frodo_header = record blank {
  kernel_off = 64;
  kernel_len = 1000;
  kernel_checksum = 4294967295;
  initramfs_off = 1064;
  initramfs_len = 2000;
  product_id = 1;
  kind = 64;
  sig_num = 1;
}

check_sig-encode64_example :
    check_sig (encode64 (set_header64 frodo_header) ++ replicate 64 7) blank
    ≡ some (
      1,
      record frodo_header { sqimage_off = 0; sqimage_len = 0; sqimage_checksum = 0; kind = 64 },
    )
check_sig-encode64_example = check_sig-encode64 frodo_header (replicate 64 7) blank (record {
  kernel_off = omega arith;
  kernel_len = omega arith;
  kernel_checksum = omega arith;
  initramfs_off = omega arith;
  initramfs_len = omega arith;
  initramfs_checksum = omega arith;
  sqimage_off = omega arith;
  sqimage_len = omega arith;
  sqimage_checksum = omega arith;
  defaults_off = omega arith;
  defaults_len = omega arith;
  defaults_checksum = omega arith;
  next_offset = omega arith;
  sig_num = omega arith;
})

abbrev dns325_header : MyControlHeader
dns325_header = record frodo_header { sqimage_off = 3064; sqimage_len = 9; kind = 128; sig_num = 3 }

check_sig-encode128_example :
    check_sig (encode128 (set_header128 dns325_header) ++ []) blank
    ≡ some (3, record dns325_header { kind = 128 })
unfolding cmp_sig
check_sig-encode128_example =
    check_sig-encode128 dns325_header [] blank
      (record {
        kernel_off = omega arith;
        kernel_len = omega arith;
        kernel_checksum = omega arith;
        initramfs_off = omega arith;
        initramfs_len = omega arith;
        initramfs_checksum = omega arith;
        sqimage_off = omega arith;
        sqimage_len = omega arith;
        sqimage_checksum = omega arith;
        defaults_off = omega arith;
        defaults_len = omega arith;
        defaults_checksum = omega arith;
        next_offset = omega arith;
        sig_num = omega arith;
      })
      refl
