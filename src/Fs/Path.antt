-- ===== src/Fs/Path.antt =====
-- `fs_resolve_path` of fs.c, and the split of a path that `fs_open` and `fs_mkdir` make.
use letsgo.Base.{
  ℕ, ◌+◌, not, Option, none, some, List, [], ◌∷◌, ltb, ◌==◌, if◌then◌else◌, take, drop,
}
use letsgo.Base.Int.{pos, eq_ℤ}
use letsgo.Text.{strcmp, strrchr, strncpy, tokens, char_of, next_of}
use letsgo.Fs.Defs.{Fs, is_dir, max_filename}
use letsgo.Fs.Dir.{dir_lookup}

abbrev pub slash : ℕ
slash = b'/'

abbrev pub dot_name : List ℕ
dot_name = b'.' ∷ []

abbrev pub dotdot_name : List ℕ
dotdot_name = b'.' ∷ b'.' ∷ []

-- What one token does to `cur`. For ".." the code looks up the entry of that name too.
abbrev pub step_into : Fs → ℕ → List ℕ → Option ℕ
step_into s cur token =
    if eq_ℤ (strcmp token dot_name) (pos 0) then some cur else dir_lookup s cur token

-- The loop over the tokens. Its first test is the `while` body's `inode_table[cur].type`.
unfoldable pub walk : Fs → ℕ → List (List ℕ) → Option ℕ
walk s cur [] = some cur
walk s cur (token ∷ rest) =
    if not (is_dir (s.inode_table cur).type)
    then none
    else elim (step_into s cur token) [ none ↦ none | some next ↦ walk s next rest ]

-- `strncpy(tmp, p, 255); tmp[255] = 0` keeps 255 bytes of the path. `none` is the result -1.
unfoldable pub resolve_path : Fs → List ℕ → Option ℕ
resolve_path s path =
    if char_of path == slash
    then walk s 0 (tokens (slash ∷ []) (strncpy (next_of path) 255))
    else walk s s.cwd (tokens (slash ∷ []) (strncpy path 255))

-- The parent's path and the name after the last '/'. `none`: the terminating byte of a parent path
-- of 256 bytes or more is written past `parent_path[256]`.
unfoldable pub split_path : List ℕ → Option (List ℕ × List ℕ)
split_path path = elim (strrchr path slash) [
  | none ↦ some (dot_name, strncpy path max_filename)
  | some i ↦
      if i == 0
      then some (slash ∷ [], strncpy (drop 1 path) max_filename)
      else if ltb i 256
      then some (take i path, strncpy (drop (i + 1) path) max_filename)
      else none
]
