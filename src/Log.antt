-- ===== src/Log.antt =====
-- inc/Log.h: the level that a text names, and the placeholders of a format.
pub mod Format
pub mod Queue
use tiny_im.Prelude.{
  ℕ, ◌+◌, Bool, true, false, ◌&&◌, List, [], ◌∷◌, ◌++◌, map, if◌then◌else◌, ◌==◌, leb, ltb, Bytes,
  codes, same,
}

pub data LogLevel : Type 0 where
  debug : LogLevel
  info : LogLevel
  warning : LogLevel
  error : LogLevel

-- `tolower` of the C locale.
to_lower : ℕ → ℕ
to_lower c = if leb 65 c && leb c 90 then c + 32 else c

unfoldable pub parse_level : Bytes → LogLevel
parse_level level_lower =
    if same level_lower (codes "debug")
    then debug
    else if same level_lower (codes "info")
    then info
    else if same level_lower (codes "warning")
    then warning
    else if same level_lower (codes "error")
    then error
    else debug

unfoldable pub set_log_level : Bytes → LogLevel
unfolding to_lower parse_level
set_log_level level = parse_level (map to_lower level)

-- The replacement of `{}` by the arguments, each as it prints. Both functions of the source.
unfoldable pub format_impl : Bytes → List Bytes → Bytes
format_impl format [] = format
format_impl [] (arg ∷ args) = []
format_impl (c ∷ []) (arg ∷ args) = c ∷ []
format_impl (c ∷ d ∷ rest) (arg ∷ args) =
    if c == 123 && d == 125
    then arg ++ format_impl rest args
    else c ∷ format_impl (d ∷ rest) (arg ∷ args)
