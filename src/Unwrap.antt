-- ===== src/Unwrap.antt =====
-- unwrap/unwrap.go: the commands that it runs, as their arguments, and what their failures give; OpenVerity
-- is in Build.
use modelwrap.Prelude.{ℕ, Bool, not, List, [], ◌∷◌, Bytes, codes, itoa, Result, ok, refuse_if, ◌>>◌}

abbrev pub emwp_cipher : Bytes
emwp_cipher = codes "aes-xts-plain64"

abbrev pub emwp_key_size_bits : ℕ
emwp_key_size_bits = 512

abbrev pub emwp_sector_size : ℕ
emwp_sector_size = 4096

abbrev pub filesystem_type : Bytes
filesystem_type = codes "erofs"

abbrev pub mount_options : Bytes
mount_options = codes "ro,nodev,nosuid,noexec"

-- `cryptsetup` in OpenCrypt.
unfoldable pub open_crypt : Bytes → Bytes → Bytes → List Bytes
open_crypt device name key_file =
    codes "open"
    ∷ codes "--type"
    ∷ codes "plain"
    ∷ codes "--cipher"
    ∷ emwp_cipher
    ∷ codes "--key-size"
    ∷ itoa emwp_key_size_bits
    ∷ codes "--sector-size"
    ∷ itoa emwp_sector_size
    ∷ codes "--key-file"
    ∷ key_file
    ∷ codes "--readonly"
    ∷ device
    ∷ name
    ∷ []

-- `cryptsetup` in CloseCrypt, and `veritysetup` in CloseVerity.
unfoldable pub close : Bytes → List Bytes
close name = codes "close" ∷ name ∷ []

-- `mount` in Mount.
unfoldable pub mount : Bytes → Bytes → List Bytes
mount device mount_point =
    codes "-t" ∷ filesystem_type ∷ codes "-o" ∷ mount_options ∷ device ∷ mount_point ∷ []

pub data DeviceFailure : Type 0 where
  open_failed no_mount_point mount_failed : DeviceFailure

-- OpenCrypt, by whether cryptsetup accepts its arguments.
unfoldable pub run_open_crypt :
    (List Bytes → Bool) → Bytes → Bytes → Bytes → Result DeviceFailure (Unit {0})
run_open_crypt runs device name key_file =
    refuse_if (not (runs (open_crypt device name key_file))) open_failed >> ok tt

-- Mount, by whether MkdirAll works and what mount accepts.
unfoldable pub run_mount :
    Bool → (List Bytes → Bool) → Bytes → Bytes → Result DeviceFailure (Unit {0})
run_mount makes_dir runs device mount_point = do
  refuse_if (not makes_dir) no_mount_point
  refuse_if (not (runs (mount device mount_point))) mount_failed
  ok tt
