-- ===== src/Tests/Data.antt =====
-- Libraries that satisfy what is asked of them, and values that the examples share.
use modelwrap.Prelude.{
  ℕ, zero, suc, ◌%◌, ◌<◌, ◌≡◌, refl, Bytes, codes, arith, get_or, replicate, length-replicate, All,
  some, ok,
}
use modelwrap.Ref.{ArtifactRef, matches, matches_hash_offset, parse_ref, to_string}
use modelwrap.Ref.Grammar.{IsValid}
use modelwrap.Ref.RoundTrip.{parse_ref_iff}
use modelwrap.Verity.{Sha256}
use modelwrap.Disk.{File}
use modelwrap.Crypt.{Xts}
use modelwrap.Build.{Uuids}

pub replicate-IsByte : (n b : ℕ) → b < 256 → All (λ c. c < 256) (replicate n b)
replicate-IsByte zero b h = tt
replicate-IsByte (suc n) b h = (h, replicate-IsByte n b h)

-- A hash that depends on the first byte.
abbrev pub first_byte : Sha256
first_byte = record {
  sum = λ s. replicate 32 (get_or s 0 0 % 256);
  length-sum = λ s. length-replicate 32 (get_or s 0 0 % 256);
  sum-AreBytes = λ s. replicate-IsByte 32 (get_or s 0 0 % 256) (omega arith);
}

-- A cipher that leaves its input as it is.
abbrev pub plain_cipher : Xts
plain_cipher = record {
  Cipher = Bytes;
  new_cipher = λ key. some key;
  encrypt = λ c s iv. s;
  decrypt = λ c s iv. s;
  takes_key = λ key h. (key, refl);
  length-encrypt = λ c s iv h. h;
  length-decrypt = λ c s iv h. h;
  decrypt-encrypt = λ c s iv h. refl;
}

abbrev pub sample_uuid : Bytes
sample_uuid = codes "0b8a1c2d-1111-5222-8333-444455556666"

abbrev pub one_uuid : Uuids
one_uuid = record { uuid_v5_url = λ name. sample_uuid; parse = λ s. some (replicate 16 7) }

abbrev pub key_of_64 : Bytes
key_of_64 = replicate 64 3

abbrev pub sample_ref : ArtifactRef
sample_ref = record {
  root_hash = replicate 64 b'a';
  hash_offset = codes "4096";
  uuid = sample_uuid;
}

pub sample_ref-IsValid : IsValid sample_ref
unfolding matches matches_hash_offset
sample_ref-IsValid = (refl, refl, refl)

pub sample_ref-parsed : parse_ref (to_string sample_ref) ≡ ok sample_ref
sample_ref-parsed = (parse_ref_iff (to_string sample_ref) sample_ref).1 (sample_ref-IsValid, refl)

-- A file of zeros.
abbrev pub zeros : ℕ → File
zeros size = record { size = size; byte = λ i. 0 }
