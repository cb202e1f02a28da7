-- ===== src/Split/Commit.antt =====
-- `make_split_commit`: the commit that one source commit becomes on a target branch.
pub mod Tree
use tunnel2tunnel.Base.{Bool, true, false, some, List, [], ◌∷◌, Text, codes}
use tunnel2tunnel.Base.Result.{Result, ok, ◌>>=◌}
use tunnel2tunnel.Git.{CommitSpec}
use tunnel2tunnel.Trailers.{strip_trailers_with_prefix}
use tunnel2tunnel.Identity.{resolve_identity}
use tunnel2tunnel.Split.Host.{Host}
use tunnel2tunnel.Split.Cursor.{source_trailer, kind_trailer}

module _ (host : Host) where
  open host use {git}

  -- The message: with the trailers of the commit's provenance, or without any of ours.
  split_message : Text → List (Text × Text) → Bool → Result Text
  split_message base_message values true = git.write_trailers base_message values
  split_message base_message values false =
      ok (strip_trailers_with_prefix base_message (codes "X-Base-"))

  unfoldable pub make_split_commit :
      Text → Text → Text → Text → List (Text × Text) → Bool → Result Text
  unfolding split_message
  make_split_commit parent tree source_sha kind extra_trailers include_provenance = do
    author ← git.author_info source_sha
    base_message ← git.commit_message source_sha
    let provenance = (source_trailer, source_sha) ∷ (kind_trailer, kind) ∷ extra_trailers
    message ← split_message base_message provenance include_provenance
    let remaining = some (record { name = author.name; email = author.email })
    let committer = resolve_identity host.casefold host.git_config host.environ remaining
    git.commit_tree (record {
      tree = tree;
      parents = parent ∷ [];
      message = message;
      author = author;
      committer = record {
        name = committer.name;
        email = committer.email;
        date = host.clock source_sha;
      };
    })
