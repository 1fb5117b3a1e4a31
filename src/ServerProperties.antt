-- ===== src/ServerProperties.antt =====
-- mc/server_properties.go: the rewriting of a properties file's contents, and the reading of one
-- property. A file is its bytes; finding, reading and writing it is left out.
pub mod Unchanged
use lazygate.Prelude.{
  ℕ, Bool, true, false, not, ◌&&◌, ◌||◌, List, [], ◌∷◌, ◌++◌, Bytes, Option, none, some,
  if◌then◌else◌, ◌==◌, TextMap, get_text, delete_text, same_bytes, trim_space, to_lower, has_prefix,
}
use lazygate.Play.Title.{split_lines, trim_return, keep_line, is_empty}

abbrev pub eol : Bytes
eol = 13 ∷ 10 ∷ []

-- `line[:idx]` and `line[idx+1:]` at the first `=`, if there is one
unfoldable pub split_property : Bytes → Option (Bytes × Bytes)
split_property [] = none
split_property (c ∷ s) =
    let rest = split_property s in
    if c == 61 then some ([], s) else elim rest [ none ↦ none | some kv ↦ some (c ∷ kv.0, kv.1) ]

-- The lines of the contents, without the empty ones.
unfoldable pub kept_lines : List Bytes → List Bytes
unfolding trim_return
kept_lines [] = []
kept_lines (l ∷ ls) = keep_line (trim_return l) (kept_lines ls)

-- The variables of the loop.
pub record Rewriting : Type 0 where
  pub new_lines : List Bytes
  pub remaining : TextMap Bytes
  pub changed : Bool

abbrev pub is_skipped : Bytes → Bool
is_skipped line = let text = trim_space line in has_prefix text (35 ∷ []) || is_empty text

-- The line that the loop puts in place of one, what then remains, and whether it changed.
pub record LineStep : Type 0 where
  pub line : Bytes
  pub left : TextMap Bytes
  pub is_new : Bool

abbrev pub line_step : Bytes → TextMap Bytes → Bool → LineStep
line_step line left is_new = record { line = line; left = left; is_new = is_new }

abbrev pub take_change : Bytes → Bytes → Bytes → Bytes → TextMap Bytes → LineStep
take_change line key value new remaining =
    let left = delete_text (to_lower key) remaining in
    if same_bytes value new
    then line_step line left false
    else line_step (key ++ (61 ∷ new)) left true

abbrev pub update_property : Bytes → Bytes → Bytes → TextMap Bytes → LineStep
update_property line key value remaining = elim (get_text (to_lower key) remaining) [
  | none ↦ line_step line remaining false
  | some new ↦ take_change line key value new remaining
]

-- The body of the loop.
unfoldable pub rewrite_line : Bytes → TextMap Bytes → LineStep
unfolding split_property
rewrite_line line remaining =
    if is_skipped line then line_step line remaining false else elim (split_property line) [
      | none ↦ line_step line remaining false
      | some kv ↦ update_property line (trim_space kv.0) kv.1 remaining
    ]

-- The loop over the lines.
unfoldable pub rewrite_lines : List Bytes → TextMap Bytes → Bool → Rewriting
unfolding rewrite_line
rewrite_lines [] remaining changed = record {
  new_lines = [];
  remaining = remaining;
  changed = changed;
}
rewrite_lines (l ∷ ls) remaining changed =
    let s = rewrite_line l remaining in
    let rest = rewrite_lines ls s.left (changed || s.is_new) in
    record {
      new_lines = s.line ∷ rest.new_lines;
      remaining = rest.remaining;
      changed = rest.changed;
    }

-- `strings.Join(newLines, serverPropertiesEOL)`
unfoldable pub join_eol : List Bytes → Bytes
join_eol [] = []
join_eol (l ∷ []) = l
join_eol (l ∷ k ∷ ls) = l ++ (eol ++ join_eol (k ∷ ls))

-- The loop over the changes that remain, in one of the orders in which Go goes through a map.
unfoldable pub append_changes : Bytes → TextMap Bytes → Bool → Bytes × Bool
append_changes contents [] changed = (contents, changed)
append_changes contents ((key, value) ∷ kvs) changed =
    append_changes (contents ++ (eol ++ (key ++ (61 ∷ value)))) kvs true

unfoldable pub rewrite_contents : Bytes → TextMap Bytes → Bytes × Bool
unfolding rewrite_lines kept_lines split_lines join_eol append_changes
rewrite_contents contents [] = (contents, false)
rewrite_contents contents (c ∷ cs) =
    let done = rewrite_lines (kept_lines (split_lines contents)) (c ∷ cs) false in
    append_changes (join_eol done.new_lines) done.remaining done.changed

-- The loop of the reader, over the lines of the contents.
unfoldable pub find_property : List Bytes → Bytes → Option Bytes
unfolding split_property
find_property [] property = none
find_property (l ∷ ls) property =
    let rest = find_property ls property in
    elim (split_property l) [
      | none ↦ rest
      | some kv ↦
          if same_bytes (to_lower (trim_space kv.0)) (to_lower property)
          then some (trim_space kv.1)
          else rest
    ]

unfoldable pub read_server_properties : Bytes → Bytes → Option Bytes
unfolding find_property split_lines
read_server_properties contents property = find_property (split_lines contents) property
