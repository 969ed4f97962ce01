-- ===== src/ExpUtil/Config.antt =====
-- exp-util.cc: configuration files and their parameters. A configuration is an association list by
-- key; a file that does not exist or cannot be read is `none`.
use hypatia_multicast.Base.{
  Bool, false, List, [], ◌∷◌, ◌++◌, map, Option, some, none, Result, ok, err, ◌>>=◌, if◌then◌else◌,
  ◌||◌, for_each, ◌==◌, invalid_argument, runtime_error, undefined, or_throw, get_elem?,
}
use hypatia_multicast.ExpUtil.Text.{
  Text, is_empty, trim, text_eq, split_string_expecting, remove_start_end_double_quote_if_present,
}

abbrev pub Config : Type 0
Config = List (Text × Text)

unfoldable pub find_param : Text → Config → Option Text
unfolding text_eq
find_param key [] = none
find_param key ((k, v) ∷ config) = if text_eq k key then some v else find_param key config

abbrev pub starts_with_hash : Text → Bool
starts_with_hash [] = false
starts_with_hash (c ∷ s) = c == b'#'

-- One line of the file.
unfoldable pub read_config_line : Config → Text → Result Config
unfolding trim split_string_expecting find_param remove_start_end_double_quote_if_present
read_config_line config line =
    if is_empty (trim line) || starts_with_hash line then ok config else (do
      equals_split ← split_string_expecting line (b'=' ∷ []) 2
      left ← or_throw (get_elem? equals_split 0) undefined
      right ← or_throw (get_elem? equals_split 1) undefined
      let key = trim left
      let value = remove_start_end_double_quote_if_present (trim right)
      elim (find_param key config) [
        | some old ↦ err runtime_error
        | none ↦ ok (config ++ (key, value) ∷ [])
      ])

unfoldable pub read_config : Option (List Text) → Result Config
unfolding for_each read_config_line
read_config none = err runtime_error
read_config (some lines) = for_each read_config_line [] lines

unfoldable pub get_param_or_fail : Text → Config → Result Text
unfolding find_param
get_param_or_fail key config = or_throw (find_param key config) invalid_argument

unfoldable pub get_param_or_default : Text → Text → Config → Text
unfolding find_param
get_param_or_default key default config = elim (find_param key config) [
  | some v ↦ v
  | none ↦ default
]

-- The lines of a file, trimmed.
unfoldable pub read_file_direct : Option (List Text) → Result (List Text)
unfolding trim
read_file_direct none = err runtime_error
read_file_direct (some lines) = ok (map trim lines)
