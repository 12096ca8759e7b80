-- ===== src/Model.antt =====
-- wrap/delete.go and wrap/wrap.go: the model identities that users supply, and the names of staged
-- files that are built from them.
pub mod Staged
pub mod Pinned
use modelwrap.Prelude.{
  ℕ, Bool, true, false, not, ◌&&◌, ◌||◌, List, [], ◌∷◌, ◌++◌, Bytes, codes, length, ltb, beq,
  has_prefix, contains, contains_any, has_byte, split, cut, Result, ok, err, ◌>>=◌, ◌>>◌, refuse_if,
}

pub data ModelError : Type 0 where
  not_pinned : ModelError
  metacharacters dotdot_revision : Bytes → ModelError
  bad_revision bad_name : Bytes → ModelError

abbrev pub dotdot : Bytes
dotdot = codes ".."

-- A segment of a model name that no path may have.
unfoldable pub bad_segment : Bytes → Bool
bad_segment segment =
    beq segment [] || beq segment (codes ".") || beq segment dotdot || has_byte b'\\' segment

unfoldable pub any_bad_segment : List Bytes → Bool
unfolding bad_segment
any_bad_segment [] = false
any_bad_segment (segment ∷ rest) = bad_segment segment || any_bad_segment rest

unfoldable pub validate_pinned_model : Bytes → Bytes → Result ModelError (Unit {0})
unfolding any_bad_segment
validate_pinned_model name revision = do
  refuse_if (contains_any (name ++ revision) (codes "*?["))
      (metacharacters (name ++ (b'@' ∷ revision)))
  refuse_if (contains revision dotdot) (dotdot_revision revision)
  refuse_if
      (has_byte b'/' revision
        || has_byte b'\\' revision
        || beq revision (codes ".")
        || beq revision [])
      (bad_revision revision)
  refuse_if (any_bad_segment (split name b'/')) (bad_name name)

unfoldable pub split_pinned_model : Bytes → Result ModelError (Bytes × Bytes)
split_pinned_model model =
    let (name, revision, found) = cut model b'@' in
    refuse_if (not found || beq name [] || beq revision []) not_pinned
    >> validate_pinned_model name revision
    >> ok (name, revision)

-- What `isStagedLeftover` compares the head of a name with.
abbrev pub staged_prefix : Bytes → Bytes
staged_prefix revision = revision ++ codes "..staged."

unfoldable pub is_staged_leftover : Bytes → Bytes → Bool
is_staged_leftover name revision =
    has_prefix name (staged_prefix revision) && ltb (length (staged_prefix revision)) (length name)

-- The name that `stagedPath` asks `os.CreateTemp` for, with the random part that replaces the star.
unfoldable pub staged_name : Bytes → Bytes → Bytes → Bytes
staged_name revision suffix rand = revision ++ (codes "..staged" ++ (suffix ++ (b'.' ∷ rand)))
