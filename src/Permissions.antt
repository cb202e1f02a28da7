-- ===== src/Permissions.antt =====
-- scripts/°base/ai/settings/°settings_lib/commands.py: permission entries of coding agents, and
-- the parentheses in their text.
pub mod Escape
use tunnel2tunnel.Base.{
  ℕ, Bool, true, false, not, ◌&&◌, ◌||◌, Option, none, some, List, [], ◌∷◌, ◌++◌, Text, codes, ◌==◌,
  list_eq, nat_eq, if◌then◌else◌, contains, any, strip, rstrip, after_prefix, ends_with, leb,
  newline, break_at, is_some,
}
use tunnel2tunnel.Base.Dict.{Dict, lookup}
use tunnel2tunnel.Branches.{last_line}
use mathlib.Core.List.{reverse}

abbrev pub is_paren : ℕ → Bool
is_paren c = c == b'(' || c == b')'

-- The substitution of `(?<!\\)([()])`, at a place behind the character `last`.
unfoldable pub escape_after : Bool → Text → Text
escape_after behind_backslash [] = []
escape_after behind_backslash (c ∷ s) =
    let rest = escape_after (c == b'\\') s in
    if is_paren c && not behind_backslash then b'\\' ∷ c ∷ rest else c ∷ rest

unfoldable pub escape_command_parens : Text → Text
escape_command_parens content = escape_after false content

-- The substitution of `\\([()])`, from left to right: `held` says that a backslash was read that
-- may begin a match.
unfoldable pub unescape_held : Bool → Text → Text
unescape_held true [] = b'\\' ∷ []
unescape_held false [] = []
unescape_held true (c ∷ s) =
    let open_rest = unescape_held false s in
    let held_rest = unescape_held true s in
    if is_paren c
    then c ∷ open_rest
    else if c == b'\\'
    then b'\\' ∷ held_rest
    else b'\\' ∷ c ∷ open_rest
unescape_held false (c ∷ s) =
    let open_rest = unescape_held false s in
    let held_rest = unescape_held true s in if c == b'\\' then held_rest else c ∷ open_rest

unfoldable pub unescape_command_parens : Text → Text
unescape_command_parens content = unescape_held false content

abbrev pub type_fields : Dict Text Text
type_fields =
    (codes "bash", codes "command")
    ∷ (codes "read", codes "path")
    ∷ (codes "write", codes "path")
    ∷ (codes "edit", codes "path")
    ∷ (codes "glob", codes "path")
    ∷ (codes "skill", codes "name")
    ∷ []

abbrev pub default_field : Text
default_field = codes "pattern"

abbrev pub claude_tools : Dict Text Text
claude_tools =
    (codes "bash", codes "Bash")
    ∷ (codes "read", codes "Read")
    ∷ (codes "write", codes "Write")
    ∷ (codes "edit", codes "Edit")
    ∷ (codes "skill", codes "Skill")
    ∷ (codes "glob", codes "Glob")
    ∷ (codes "grep", codes "Grep")
    ∷ (codes "webfetch", codes "WebFetch")
    ∷ (codes "websearch", codes "WebSearch")
    ∷ []

-- `dict.get(key, default)`
unfoldable pub get_or : Text → Text → Dict Text Text → Text
get_or default key dict = elim (lookup key dict) [ none ↦ default | some value ↦ value ]

-- `[A-Za-z_]`
abbrev pub is_word_start : ℕ → Bool
is_word_start c = (leb b'A' c && leb c b'Z') || (leb b'a' c && leb c b'z') || c == b'_'

module _ (is_word : ℕ → Bool) where
  -- `[A-Za-z_]\w*`: the longest such beginning, and the rest.
  unfoldable pub word_run : Text → Text × Text
  word_run [] = ([], [])
  word_run (c ∷ s) =
      let (word, rest) = word_run s in if is_word c then (c ∷ word, rest) else ([], c ∷ s)

  unfoldable pub name_run : Text → Option (Text × Text)
  name_run [] = none
  name_run (c ∷ s) =
      let (word, rest) = word_run s in if is_word_start c then some (c ∷ word, rest) else none

  -- `(.*)\)$` with DOTALL: up to the last `)`, if it ends the text or stands before a last newline.
  unfoldable pub content_of : Text → Option Text
  content_of s = elim (reverse s) [
    | [] ↦ none
    | c ∷ front ↦
        if c == b')'
        then some (reverse front)
        else if c == newline
        then before_newline front
        else none
  ]
    where
      before_newline : Text → Option Text
      before_newline [] = none
      before_newline (c ∷ front) = if c == b')' then some (reverse front) else none

  -- The groups of `_PERMISSION_ENTRY`.
  unfoldable pub permission_entry : Text → Option (Text × Text)
  permission_entry entry = elim (name_run entry) [
    | none ↦ none
    | some (tool, rest) ↦ elim (after_prefix (codes "(") rest) [
      | none ↦ none
      | some inner ↦ elim (content_of inner) [ none ↦ none | some content ↦ some (tool, content) ]
    ]
  ]

  -- The groups of `_MCP_TOOL_ENTRY`: a server has no underscore.
  unfoldable pub mcp_tool_entry : Text → Option (Text × Text)
  mcp_tool_entry entry = elim (after_prefix (codes "mcp__") entry) [
    | none ↦ none
    | some named ↦
        let (server, rest) = break_at b'_' named in
        elim (after_prefix (codes "__") rest) [
          | none ↦ none
          | some behind ↦ elim (last_line behind) [
            | none ↦ none
            | some tool ↦ if server == [] then none else some (server, tool)
          ]
        ]
  ]

  -- `_parse_claude_permission_entry` of a string.
  unfoldable pub parse_claude_permission_entry : (Text → Text) → Text → Dict Text Text
  parse_claude_permission_entry lower entry = elim (mcp_tool_entry entry) [
    | some (server, tool) ↦
        (codes "type", codes "mcp") ∷ (codes "server", server) ∷ (codes "tool", tool) ∷ []
    | none ↦ elim (permission_entry entry) [
      | none ↦ (codes "type", codes "raw") ∷ (codes "value", entry) ∷ []
      | some (tool, content) ↦
          (codes "type", lower tool)
          ∷ (get_or default_field (lower tool) type_fields, unescape_command_parens content)
          ∷ []
    ]
  ]

  -- `_bash_pattern_to_prefix`; `split` is `shlex.split`, `none` where it raises.
  unfoldable pub bash_pattern_to_prefix : (Text → Option (List Text)) → Text → Option (List Text)
  bash_pattern_to_prefix split pattern =
      let command = strip pattern in
      let stripped = strip (without_star command) in
      if command == [] || (any (contains (codes "$`;|<>&")) command || is_assignment command)
      then none
      else if stripped == []
      then none
      else filled (split stripped)
    where
      is_assignment : Text → Bool
      is_assignment command = elim (name_run command) [
        | none ↦ false
        | some (name, rest) ↦ is_some (after_prefix (codes "=") rest)
      ]

      without_star : Text → Text
      without_star command =
          if ends_with command (codes ":*")
          then reverse (drop_two (reverse command))
          else if ends_with command (codes "*")
          then rstrip (reverse (drop_first (reverse command)))
          else command
        where
          drop_first : Text → Text
          drop_first [] = []
          drop_first (_ ∷ s) = s

          drop_two : Text → Text
          drop_two s = drop_first (drop_first s)

      filled : Option (List Text) → Option (List Text)
      filled none = none
      filled (some tokens) = if tokens == [] then none else some tokens

-- `_render_claude_permission_entry` of a dict of strings.
unfoldable pub render_claude_permission_entry : (Text → Text) → Dict Text Text → Text
render_claude_permission_entry capitalize entry =
    let entry_type = get_or [] (codes "type") entry in
    let tool = get_or (capitalize entry_type) entry_type claude_tools in
    let field = get_or default_field entry_type type_fields in
    let content = get_or (get_or [] default_field entry) field entry in
    if entry_type == codes "raw"
    then get_or [] (codes "value") entry
    else if entry_type == codes "mcp"
    then codes "mcp__"
      ++ (get_or [] (codes "server") entry ++ (codes "__" ++ get_or [] (codes "tool") entry))
    else tool ++ (codes "(" ++ (escape_command_parens content ++ codes ")"))
