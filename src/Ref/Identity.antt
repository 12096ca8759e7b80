-- ===== src/Ref/Identity.antt =====
-- The identity of an artifact, and the offset that its reference carries.
use modelwrap.Prelude.{
  ℕ, ◌<◌, ◌≡◌, sym, ap, ◌∙◌, ◌↔◌, Bytes, ok, length, take, drop, take-append, drop-append, value,
  u64_mod, parse_uint, parse_uint_iff, map_err, map_err-ok,
}
use modelwrap.Ref.{ArtifactRef, parse_ref, artifact_id, hash_offset_bytes, root_hash_pattern}
use modelwrap.Ref.Grammar.{matches-length, hash_offset_digits}
use modelwrap.Ref.RoundTrip.{parse_ref_iff}

root_hash-length : (s : Bytes) (r : ArtifactRef) → parse_ref s ≡ ok r → length r.root_hash ≡ 64
root_hash-length s r h =
    matches-length root_hash_pattern r.root_hash (((parse_ref_iff s r).0 h).0.0)

-- Two parsed references with one artifact id name the same root hash and the same UUID: the salt of
-- the key derivation tells artifacts apart.
pub artifact_id-injective :
    (s t : Bytes) (r q : ArtifactRef)
    → parse_ref s ≡ ok r
    → parse_ref t ≡ ok q
    → artifact_id r ≡ artifact_id q
    → (r.root_hash ≡ q.root_hash) × (r.uuid ≡ q.uuid)
unfolding artifact_id
artifact_id-injective s t r q hr hq e =
    let lr = root_hash-length s r hr in
    let lq = root_hash-length t q hq in
    (
      sym (take-append r.root_hash _ 64 lr) ∙ ap (take 64) e ∙ take-append q.root_hash _ 64 lq,
      ap (drop 1) (
          sym (drop-append r.root_hash _ 64 lr) ∙ ap (drop 64) e ∙ drop-append q.root_hash _ 64 lq),
    )

-- The offset of a parsed reference is the value of its digits, and there is none exactly when that
-- value does not fit 64 bits.
pub hash_offset_bytes_iff :
    (s : Bytes) (r : ArtifactRef) (n : ℕ)
    → parse_ref s ≡ ok r
    → (hash_offset_bytes r ≡ ok n) ↔ ((n ≡ value 0 r.hash_offset) × (n < u64_mod))
unfolding hash_offset_bytes
hash_offset_bytes_iff s r n h =
    let (filled, digits) = (hash_offset_digits r.hash_offset).0 ((parse_ref_iff s r).0 h).0.1 in
    (
      (λ e.
          let p = (parse_uint_iff r.hash_offset n).0 (map_err-ok _ (parse_uint r.hash_offset) e) in
          (p.2, p.3)),
      λ (e, fits). ap (map_err _) ((parse_uint_iff r.hash_offset n).1 (filled, digits, e, fits)),
    )
