-- ===== src/Verity/Params.antt =====
-- Which offsets a consumer accepts, and what the parameters are.
use modelwrap.Prelude.{ℕ, ◌+◌, ◌*◌, ◌^◌, ◌≡◌, ◌≤◌, ◌<◌, ◌↔◌, Bytes, length, arith, ok}
use modelwrap.Verity.{VerityParams, verity_params_for_artifact}

-- Parameters are derived exactly for a salt of 32 bytes and an offset that is a positive multiple of
-- 4096 up to 2^62. Then the data blocks cover the bytes before the offset, and the tree starts one
-- block past it, with no wrap-around.
pub verity_params_iff :
    (hash_offset : ℕ) (salt : Bytes) (p : VerityParams)
    → (verity_params_for_artifact hash_offset salt ≡ ok p) ↔ (
        (length salt ≡ 32)
        × (0 < hash_offset)
        × (hash_offset ≤ 2 ^ 62)
        × (p.data_blocks * 4096 ≡ hash_offset)
        × (p.hash_tree_offset ≡ hash_offset + 4096)
        × (p.salt ≡ salt))
unfolding verity_params_for_artifact
verity_params_iff hash_offset salt p = ((λ h. ground arith), λ h. ground arith)
