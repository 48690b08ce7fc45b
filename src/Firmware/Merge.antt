-- ===== src/Firmware/Merge.antt =====
-- `merge` of package/alt-f-utils/alt-f-utils-0.1.11/dns323-fw.c. The files that a
-- run creates are its result; their names are taken to be of different files.
use alt_f.Prelude.{ℕ, true, false, not, Option, none, some, List, [], ◌∷◌, leb, ◌==◌}
use alt_f.Prelude.Result.{Result, ok, ◌>>=◌, ◌>>◌, exit_if}
use alt_f.Prelude.Word.{u32}
use alt_f.Firmware.File.{Os, File, at_start, seek_end, write}
use alt_f.Firmware.Header.{MyControlHeader, nsig, signature_at}
use alt_f.Firmware.Options.{Config, Files, given}
use alt_f.Firmware.Save.{Component, savecomp, save_header, unchecked}

-- The fields that `merge` fills in.
unfoldable pub merge_header :
    Config → Component → Component → Component → Component → MyControlHeader
merge_header cfg k i q d = record {
  kernel_off = k.offset;
  kernel_len = k.len;
  kernel_checksum = k.checksum;
  initramfs_off = i.offset;
  initramfs_len = i.len;
  initramfs_checksum = i.checksum;
  sqimage_off = q.offset;
  sqimage_len = q.len;
  sqimage_checksum = q.checksum;
  defaults_off = d.offset;
  defaults_len = d.len;
  defaults_checksum = d.checksum;
  next_offset = 0;
  product_id = cfg.product;
  custom_id = cfg.custom;
  model_id = cfg.model;
  sub_id = cfg.sub;
  new_version = cfg.version;
  kind = (signature_at cfg.kind).size;
  sig_num = cfg.kind;
}

module _ (os : Os) where
  -- A component that may be left out: an empty one at the end of the file then.
  unfoldable pub save_optional : Option (List ℕ) → File → ℕ → Result (File × Component)
  save_optional (some name) fdo size_max = savecomp os name fdo false size_max
  save_optional none fdo size_max =
      let fdo' = seek_end fdo in ok (fdo', record { offset = u32 fdo'.pos; len = 0; checksum = 0 })

  -- The three fields of a 64-byte header that `merge` never sets.
  unfoldable pub save_sqimage : ℕ → Option (List ℕ) → File → ℕ → Result (File × Component)
  save_sqimage hd_size sqimage fdo size_max = elim (hd_size == 128) [
    | true ↦ save_optional sqimage fdo size_max
    | false ↦ ok (fdo, record { offset = 0; len = 0; checksum = 0 })
  ]

  -- The body of `merge` once the three names are known to be there.
  unfoldable pub merge_files : Config → List ℕ → List ℕ → List ℕ → Result Files
  merge_files cfg kernel initramfs fw = do
    exit_if (leb nsig cfg.kind)
    let sig = signature_at cfg.kind
    exit_if (not (os.can_create fw))
    -- the header is written at the end
    let fdo = unchecked os (at_start []) (write os (at_start []) (os.stale_header sig.size))
    (fdo₁, k) ← savecomp os kernel fdo true sig.kernel_max
    (fdo₂, i) ← savecomp os initramfs fdo₁ true sig.initramfs_max
    (fdo₃, q) ← save_sqimage sig.size cfg.sqimage fdo₂ sig.sqimage_max
    (fdo₄, d) ← save_optional cfg.defaults fdo₃ sig.defaults_max
    out ← save_header os fdo₄ (merge_header cfg k i q d)
    ok ((fw, out.bytes) ∷ [])

  unfoldable pub merge : Config → Result Files
  merge cfg = do
    kernel ← given cfg.kernel
    initramfs ← given cfg.initramfs
    fw ← given cfg.fw
    merge_files cfg kernel initramfs fw
