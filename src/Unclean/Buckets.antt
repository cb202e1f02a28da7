-- ===== src/Unclean/Buckets.antt =====
-- `correlate_clean_infos`, `_key_for_info` and `bucket_commits`: which clean commit and which
-- history commit come from one unclean commit.
pub mod Lookup
use mathlib.Core.Logic.{dite}
use tunnel2tunnel.Base.{
  ◌≡◌, refl, ap, Bool, true, false, not, ◌&&◌, ◌||◌, Option, none, some, List, [], ◌∷◌, Text, ◌==◌,
  Eq, list_eq, nat_eq, option_eq, if◌then◌else◌, is_some, map,
}
use tunnel2tunnel.Base.Dict.{Dict, lookup, insert}
use tunnel2tunnel.Base.Result.{Result, ok, err, value_error, ◌>>=◌}
use tunnel2tunnel.Unclean.Info.{CommitInfo}

-- A source sha, or `("unmatched", sha)`.
pub data Key : Type 0 where
  matched unmatched : Text → Key

Key-discrete : Discrete Key
Key-discrete (matched a) (matched b) =
    dite (list_eq.dec a b) (λ p. yes (ap matched p)) (λ n. no (λ h. n cc))
Key-discrete (matched a) (unmatched b) = no (λ h. cc)
Key-discrete (unmatched a) (matched b) = no (λ h. cc)
Key-discrete (unmatched a) (unmatched b) =
    dite (list_eq.dec a b) (λ p. yes (ap unmatched p)) (λ n. no (λ h. n cc))

instance unfoldable pub key_eq : Eq Key
unfolding Key-discrete
key_eq = record { dec = Key-discrete }

pub data Side : Type 0 where
  clean_side history_side : Side

pub record Bucket : Type 0 where
  pub clean : Option CommitInfo
  pub history : Option CommitInfo

abbrev pub Buckets : Type 0
Buckets = Dict Key Bucket

abbrev pub empty_bucket : Bucket
empty_bucket = record { clean = none; history = none }

-- `bucket[side]`
abbrev pub at_side : Side → Bucket → Option CommitInfo
at_side clean_side bucket = bucket.clean
at_side history_side bucket = bucket.history

-- `bucket[side] = info`
abbrev pub filled : Side → CommitInfo → Bucket → Bucket
filled clean_side info bucket = record bucket { clean = some info }
filled history_side info bucket = record bucket { history = some info }

-- `buckets.setdefault(key, …)`
abbrev pub bucket_at : Key → Buckets → Bucket
bucket_at key buckets = elim (lookup key buckets) [ none ↦ empty_bucket | some bucket ↦ bucket ]

module _ (rev_exists : Text → Bool) where
  -- What one history commit says of a clean commit.
  source_of_clean : CommitInfo → Option (Text × Text)
  source_of_clean info = elim info.clean_commit [
    | none ↦ none
    | some clean_commit ↦ elim info.source [
      | none ↦ none
      | some source ↦
          if not (clean_commit == []) && not (source == []) && rev_exists source
          then some (clean_commit, source)
          else none
    ]
  ]

  -- The first loop of `correlate_clean_infos`.
  unfoldable pub source_by_clean_sha : List CommitInfo → Dict Text Text → Result (Dict Text Text)
  unfolding source_of_clean
  source_by_clean_sha [] sources = ok sources
  source_by_clean_sha (info ∷ infos) sources = elim (source_of_clean info) [
    | none ↦ source_by_clean_sha infos sources
    | some (clean_commit, source) ↦ elim (lookup clean_commit sources) [
      | none ↦ source_by_clean_sha infos (insert clean_commit source sources)
      | some previous ↦
          let rest = source_by_clean_sha infos sources in
          if previous == source then rest else err (value_error previous source)
    ]
  ]

  -- The body of the second loop. The test `info.sha in by_sha` holds of every commit of the list.
  unfoldable pub correlated : Dict Text Text → CommitInfo → CommitInfo
  correlated sources info = elim (lookup info.sha sources) [
    | none ↦ info
    | some source ↦ if info.source == none then record info { source = some source } else info
  ]

  unfoldable pub correlate_clean_infos :
      List CommitInfo → List CommitInfo → Result (List CommitInfo)
  correlate_clean_infos clean_infos history_infos = do
    sources ← source_by_clean_sha history_infos []
    ok (map (correlated sources) clean_infos)

  unfoldable pub key_for_info : CommitInfo → Key
  key_for_info info = elim info.source [
    | none ↦ unmatched info.sha
    | some source ↦ if rev_exists source then matched source else unmatched info.sha
  ]

  -- The body of the loops of `bucket_commits`, by what stands in the bucket.
  unfoldable pub put : Side → CommitInfo → Option CommitInfo → Buckets → Result Buckets
  put side info (some there) buckets = err (value_error there.sha info.sha)
  put side info none buckets =
      let key = key_for_info info in
      ok (insert key (filled side info (bucket_at key buckets)) buckets)

  unfoldable pub put_all : Side → List CommitInfo → Buckets → Result Buckets
  put_all side [] buckets = ok buckets
  put_all side (info ∷ infos) buckets =
      put side info (at_side side (bucket_at (key_for_info info) buckets)) buckets
      >>= put_all side infos

  unfoldable pub bucket_commits : List CommitInfo → List CommitInfo → Result Buckets
  bucket_commits clean_infos history_infos = do
    half ← put_all clean_side clean_infos []
    put_all history_side history_infos half
