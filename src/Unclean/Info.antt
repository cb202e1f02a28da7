-- ===== src/Unclean/Info.antt =====
-- `CommitInfo` and the functions that read one commit.
use Prim.Native.Nat.{◌*◌}
use tunnel2tunnel.Base.{
  ℕ, ◌+◌, ◌-◌, ◌&&◌, Option, none, some, List, [], ◌∷◌, ◌++◌, Text, codes, ◌==◌, list_eq, nat_eq,
  if◌then◌else◌, newline, after_prefix, is_space, lstrip, leb,
}
use tunnel2tunnel.Base.Result.{Result, ok, err, index_error, value_error, ◌>>=◌}
use tunnel2tunnel.Git.{Git, Author}
use tunnel2tunnel.TreeOps.{PathChange, raw_diff_for_commit}
use tunnel2tunnel.Trailers.{read_trailer_value}
use tunnel2tunnel.Split.Cursor.{source_trailer, kind_trailer, clean_commit_trailer}

unfoldable pub clean_cursor_ref : Text → Text
clean_cursor_ref base_branch = codes "refs/base-split/unclean-cursor/clean/" ++ base_branch

unfoldable pub history_cursor_ref : Text → Text
history_cursor_ref base_branch = codes "refs/base-split/unclean-cursor/history/" ++ base_branch

-- The number that a text of digits spells. git prints nothing else in a raw date's first word.
digits : Text → ℕ → Option ℕ
digits [] n = some n
digits (c ∷ s) n =
    let rest = digits s (n * 10 + (c - b'0')) in if leb b'0' c && leb c b'9' then rest else none

-- The first word of `s.split()`.
first_word : Text → Text
first_word [] = []
first_word (c ∷ s) = let rest = first_word s in if is_space c then [] else c ∷ rest

unfoldable pub date_ts : Text → Result ℕ
unfolding digits first_word
date_ts author_date =
    let word = first_word (lstrip author_date) in
    if word == []
    then err index_error
    else elim (digits word 0) [ some n ↦ ok n | none ↦ err (value_error word []) ]

pub record CommitInfo : Type 0 where
  pub sha : Text
  pub subject : Text
  pub body : Text
  pub author : Author
  pub paths : List PathChange
  pub source : Option Text
  pub kind : Option Text
  pub clean_commit : Option Text

-- The texts before and behind the first empty line.
unfoldable pub split_paragraph : Text → Text × Text
split_paragraph [] = ([], [])
split_paragraph (c ∷ s) =
    let (subject, body) = split_paragraph s in
    elim (after_prefix (newline ∷ newline ∷ []) (c ∷ s)) [
      | some rest ↦ ([], rest)
      | none ↦ (c ∷ subject, body)
    ]

-- `s.rstrip("\n")`
unfoldable pub rstrip_newlines : Text → Text
rstrip_newlines [] = []
rstrip_newlines (c ∷ s) =
    let rest = rstrip_newlines s in if rest == [] && c == newline then [] else c ∷ rest

-- `s.lstrip("\n")`
unfoldable pub lstrip_newlines : Text → Text
lstrip_newlines [] = []
lstrip_newlines (c ∷ s) = let rest = lstrip_newlines s in if c == newline then rest else c ∷ s

module _ (git : Git) where
  unfoldable pub read_commit_info : Text → Result CommitInfo
  read_commit_info sha = do
    message ← git.commit_message sha
    let (subject, body) = split_paragraph message
    source ← read_trailer_value git message source_trailer
    kind ← read_trailer_value git message kind_trailer
    clean_commit ← read_trailer_value git message clean_commit_trailer
    author ← git.author_info sha
    paths ← raw_diff_for_commit git sha
    ok (record {
      sha = sha;
      subject = rstrip_newlines subject;
      body = body;
      author = author;
      paths = paths;
      source = source;
      kind = kind;
      clean_commit = clean_commit;
    })
