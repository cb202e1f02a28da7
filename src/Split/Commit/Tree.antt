-- ===== src/Split/Commit/Tree.antt =====
-- What a split commit holds.
use tunnel2tunnel.Base.{◌≡◌, Bool, List, ◌∷◌, Text}
use tunnel2tunnel.Base.Result.{Result, ok, err, ◌>>=◌}
use tunnel2tunnel.Git.{Git, IsLawful}
use tunnel2tunnel.Split.Cursor.{source_trailer, kind_trailer}
use tunnel2tunnel.Split.Host.{Host}
use tunnel2tunnel.Split.Commit.{make_split_commit, split_message}

module _ (git : Git) (law : IsLawful git) (tree : Text) where
  -- Whatever commit comes out has the tree.
  record Makes (m : Result Text) : Type 0 where
    at : (sha : Text) → m ≡ ok sha → git.tree_for_commit sha ≡ ok tree

  Makes-bind {ℓ} :
      {A : Type ℓ} (m : Result A) (f : A → Result Text) → ((a : A) → Makes (f a)) → Makes (m >>= f)
  Makes-bind (ok a) f makes = makes a
  Makes-bind (err e) f makes = record { at = λ sha h. cc }

-- A split commit has the tree that it was made for.
pub tree_for_commit-make_split_commit :
    (host : Host) (law : IsLawful host.git) (parent tree source kind : Text)
    (extra : List (Text × Text)) (provenance : Bool) {sha : Text}
    → make_split_commit host parent tree source kind extra provenance ≡ ok sha
    → host.git.tree_for_commit sha ≡ ok tree
unfolding make_split_commit
tree_for_commit-make_split_commit host law parent tree source kind extra provenance {sha} h =
    (Makes-bind host.git law tree (host.git.author_info source) _ λ author.
        Makes-bind host.git law tree (host.git.commit_message source) _ λ base.
          Makes-bind host.git law tree
            (split_message host base ((source_trailer, source) ∷ (kind_trailer, kind) ∷ extra)
              provenance)
            _ λ message. record { at = λ sha' made. law.tree_for_commit-commit_tree _ made }).at
      sha h
