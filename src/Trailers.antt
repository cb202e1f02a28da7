-- ===== src/Trailers.antt =====
-- scripts/°base/git/°split_lib/trailers.py: the trailing block of `Key: value` lines of a commit
-- message. `git interpret-trailers` itself is a command of git.
use tunnel2tunnel.Base.{
  ℕ, Bool, false, not, ◌&&◌, ◌||◌, Option, none, some, List, [], ◌∷◌, ◌++◌, Text, leb, newline,
  is_space, starts_with, strip, break_at, ◌==◌, list_eq, nat_eq, if◌then◌else◌, keep_if, splitlines,
  join,
}
use tunnel2tunnel.Base.Result.{Result, ok, ◌>>=◌}
use tunnel2tunnel.Git.{Git}
use mathlib.Core.List.{reverse}

is_letter : ℕ → Bool
is_letter c = (leb b'A' c && leb c b'Z') || (leb b'a' c && leb c b'z')

-- `[A-Za-z0-9-]*:\s` at a place of a line.
key_rest : Text → Bool
key_rest [] = false
key_rest (c ∷ s) =
    let rest = key_rest s in
    if is_letter c || (leb b'0' c && leb c b'9') || c == b'-'
    then rest
    else c == b':' && space_first s
  where
    space_first : Text → Bool
    space_first [] = false
    space_first (d ∷ _) = is_space d

-- `_TRAILER_LINE_RE.match(line)`: `^[A-Za-z][A-Za-z0-9-]*:\s`.
unfoldable pub is_trailer_line : Text → Bool
unfolding key_rest is_letter
is_trailer_line [] = false
is_trailer_line (c ∷ s) = is_letter c && key_rest s

-- The first loop, over the lines from the last to the first: the lines that are left, still in
-- that order, and the trailer lines in the order of the message.
pop_trailers : List Text → List Text → List Text × List Text
pop_trailers [] trailer_lines = ([], trailer_lines)
pop_trailers (line ∷ lines) trailer_lines =
    let popped = pop_trailers lines (line ∷ trailer_lines) in
    if is_trailer_line line then popped else (line ∷ lines, trailer_lines)

-- The second loop.
pop_blank : List Text → List Text
pop_blank [] = []
pop_blank (line ∷ lines) =
    let rest = pop_blank lines in if strip line == [] then rest else line ∷ lines

unfoldable pub split_trailer_block : Text → Text × Text
unfolding pop_trailers pop_blank
split_trailer_block message =
    let (lines, trailer_lines) = pop_trailers (reverse (splitlines message)) [] in
    (join (newline ∷ []) (reverse (pop_blank lines)), join (newline ∷ []) trailer_lines)

-- `line.partition(":")[0]`
abbrev pub trailer_key : Text → Text
trailer_key line = (break_at b':' line).0

unfoldable pub strip_trailers_with_prefix : Text → Text → Text
strip_trailers_with_prefix message prefix =
    let (body, trailer_block) = split_trailer_block message in
    let retained =
      keep_if (λ line. not (starts_with (trailer_key line) prefix)) (splitlines trailer_block) in
    if trailer_block == []
    then message
    else if retained == []
    then (if body == [] then [] else body ++ newline ∷ [])
    else if body == []
    then join (newline ∷ []) retained ++ newline ∷ []
    else body ++ (newline ∷ newline ∷ [] ++ (join (newline ∷ []) retained ++ newline ∷ []))

-- `trailers.setdefault(key, []).append(value)`
append_value : Text → Text → List (Text × List Text) → List (Text × List Text)
append_value key value [] = (key, value ∷ []) ∷ []
append_value key value ((k, values) ∷ dict) =
    let rest = append_value key value dict in
    if k == key then (k, values ++ value ∷ []) ∷ dict else (k, values) ∷ rest

read_lines : List Text → List (Text × List Text) → List (Text × List Text)
read_lines [] trailers = trailers
read_lines (line ∷ lines) trailers =
    let (key, rest) = break_at b':' line in
    read_lines lines (
      if strip line == [] || rest == []
      then trailers
      else append_value (strip key) (strip (drop_one rest)) trailers)
  where
    drop_one : Text → Text
    drop_one [] = []
    drop_one (_ ∷ s) = s

values_of : Text → List (Text × List Text) → Option (List Text)
values_of key [] = none
values_of key ((k, values) ∷ dict) = if k == key then some values else values_of key dict

module _ (git : Git) where
  unfoldable pub read_trailers : Text → Result (List (Text × List Text))
  unfolding read_lines append_value
  read_trailers message = do
    stdout ← git.parse_trailers message
    ok (read_lines (splitlines stdout) [])

  -- The first value of the key, if it is there.
  unfoldable pub read_trailer_value : Text → Text → Result (Option Text)
  unfolding read_trailers values_of
  read_trailer_value message key = do
    trailers ← read_trailers message
    ok (elim (values_of key trailers) [
      | none ↦ none
      | some values ↦ elim values [ [] ↦ none | value ∷ _ ↦ some value ]
    ])
