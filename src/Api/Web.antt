-- ===== src/Api/Web.antt =====
-- backend/core/root/api/web/web.go: the handler of the embedded frontend. Texts are bytes; the
-- embedded files, and what the pattern of the base finds in the shell, are arguments.
pub mod Paths
use poll_bot.Common.{
  ℕ, Bool, true, false, ◌||◌, not, Option, none, some, List, [], ◌∷◌, ◌++◌, String, Bytes, nat_beq,
  bytes_comparable, ◌==◌, if◌then◌else◌,
}
use poll_bot.Csv.Text.{utf8}

abbrev pub slash : Bytes
slash = b'/' ∷ []

-- "_app/immutable"
unfoldable pub immutable_prefix : Bytes
unfolding utf8
immutable_prefix = utf8 "_app/immutable"

unfoldable pub has_prefix : Bytes → Bytes → Bool
has_prefix s [] = true
has_prefix [] (p ∷ prefix) = false
has_prefix (c ∷ s) (p ∷ prefix) =
    let rest = has_prefix s prefix in if nat_beq c p then rest else false

unfoldable pub drop_prefix : Bytes → Bytes → Bytes
drop_prefix s [] = s
drop_prefix [] (p ∷ prefix) = []
drop_prefix (c ∷ s) (p ∷ prefix) = drop_prefix s prefix

-- strings.TrimPrefix
unfoldable pub trim_prefix : Bytes → Bytes → Bytes
unfolding has_prefix drop_prefix
trim_prefix s prefix = if has_prefix s prefix then drop_prefix s prefix else s

-- strings.TrimSuffix(s, "/")
unfoldable pub trim_slash : Bytes → Bytes
trim_slash [] = []
trim_slash (c ∷ []) = if nat_beq c b'/' then [] else c ∷ []
trim_slash (c ∷ (d ∷ s)) = c ∷ trim_slash (d ∷ s)

pub data HandlerError : Type 0 where
  not_built : HandlerError
  base_mismatch : HandlerError

-- What Handler returns: an error, or the handler with its prefix.
pub data Made : Type 0 where
  refused : HandlerError → Made
  serves : Bytes → Made

abbrev pub check_base : Bytes → Option Bytes → Made
check_base prefix none = Made.serves prefix
check_base prefix (some base) =
    if base == prefix then Made.serves prefix else Made.refused HandlerError.base_mismatch

-- `base` is the first group of the pattern's match in the shell.
unfoldable pub handler : Bytes → Option Bytes → (Bytes → Option Bytes) → Made
unfolding trim_slash
handler root_path none base = Made.refused HandlerError.not_built
handler root_path (some shell) base = check_base (trim_slash root_path) (base shell)

-- What Open and Stat say of a name.
pub data Opened : Type 0 where
  missing : Opened
  unreadable : Opened
  directory : Opened
  file : Opened

unfoldable pub exists : Opened → Bool
exists file = true
exists _ = false

pub data Cache : Type 0 where
  immutable : Cache
  no_cache : Cache

-- The shell, or the file at a path
pub data Served : Type 0 where
  shell : Served
  file_at : Bytes → Cache → Served

unfoldable pub serve_file : Bytes → Served
unfolding has_prefix immutable_prefix
serve_file rel =
    Served.file_at (slash ++ rel)
      (if has_prefix rel immutable_prefix then Cache.immutable else Cache.no_cache)

unfoldable pub serve : Bytes → (Bytes → Opened) → Bytes → Served
unfolding trim_prefix exists serve_file
serve prefix dist path =
    let rel = trim_prefix (trim_prefix path prefix) slash in
    if rel == [] || not (exists (dist rel)) then Served.shell else serve_file rel
