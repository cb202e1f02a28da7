-- ===== src/Remote/Apply/Memory.antt =====
-- A git of remotes in a dict. It shows that the laws can hold.
use tunnel2tunnel.Base.{Option, none, some, List, [], ◌∷◌, Text, list_eq, nat_eq, arith}
use tunnel2tunnel.Base.Dict.{Dict, lookup, insert, keys, lookup-insert}
use tunnel2tunnel.Base.Result.{Result, ok, err, called_process_error}
use tunnel2tunnel.Remote.Plan.{argv}
use tunnel2tunnel.Remote.Discover.{GitRemotes, RemoteUrls}
use tunnel2tunnel.Remote.Apply.{IsLawful, with_url, with_push_url}

abbrev pub Table : Type 0
Table = Dict Text RemoteUrls

-- The remote's URLs, changed, or the error of a remote that there is not.
abbrev changed_table :
    (RemoteUrls → RemoteUrls) → Text → Table → Option RemoteUrls → Result (Unit {0}) × Table
changed_table f name table none = (err called_process_error, table)
changed_table f name table (some now) = (ok tt, insert name (f now) table)

-- `git remote set-url` with and without `--push`, by the number of words.
unfoldable pub run_words : List Text → Table → Result (Unit {0}) × Table
run_words (a ∷ b ∷ c ∷ name ∷ url ∷ []) table =
    changed_table (with_url url) name table (lookup name table)
run_words (a ∷ b ∷ c ∷ d ∷ name ∷ url ∷ []) table =
    changed_table (with_push_url url) name table (lookup name table)
run_words words table = (err called_process_error, table)

abbrev pub url_result : (f : RemoteUrls → Text) → Option RemoteUrls → Result Text
url_result f none = err called_process_error
url_result f (some now) = ok (f now)

abbrev pub memory : GitRemotes
memory = record {
  Config = Table;
  urls_of = λ table name. lookup name table;
  remote_names = λ table. ok (keys table);
  get_all = λ table key. [];
  get_url = λ table name. url_result (λ now. now.fetch_url) (lookup name table);
  get_push_url = λ table name. url_result (λ now. now.push_url) (lookup name table);
  get = λ table key. [];
  get_local = λ table key. [];
  run_command = run_words;
}

pub memory-IsLawful : IsLawful memory
unfolding run_words argv
memory-IsLawful = record {
  run-set_url = λ table name url {now} h. (
    insert name (with_url url now) table,
    ground (arith, h),
    λ n. lookup-insert n name (with_url url now) table,
  );
  run-set_push_url = λ table name url {now} h. (
    insert name (with_push_url url now) table,
    ground (arith, h),
    λ n. lookup-insert n name (with_push_url url now) table,
  );
}
