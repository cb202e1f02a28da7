-- ===== src/Unclean/Buckets/Lookup.antt =====
-- What the buckets hold: the commits of both sides, by their keys.
use tunnel2tunnel.Base.{
  ◌≡◌, refl, ap, sym, ◌∙◌, Bool, Option, none, some, List, [], ◌∷◌, Text, arith, ◌==◌, list_eq,
  nat_eq, if◌then◌else◌, All,
}
use tunnel2tunnel.Base.Dict.{lookup, insert, lookup-insert}
use tunnel2tunnel.Base.Result.{ok, ok-injective, >>=-eq-ok}
use tunnel2tunnel.Unclean.Info.{CommitInfo}
use tunnel2tunnel.Unclean.Buckets.{
  Key, key_eq, Side, clean_side, history_side, Bucket, Buckets, at_side, filled, bucket_at,
  key_for_info, put, put_all, bucket_commits,
}

-- The commit that the buckets have for a key on a side.
abbrev pub held : Side → Key → Buckets → Option CommitInfo
held side key buckets = at_side side (bucket_at key buckets)

abbrev first_some : Option CommitInfo → Option CommitInfo → Option CommitInfo
first_some none b = b
first_some (some a) b = some a

first_some-none : (a : Option CommitInfo) → first_some a none ≡ a
first_some-none none = refl
first_some-none (some a) = refl

module _ (rev_exists : Text → Bool) where
  -- The first commit of the list with the key.
  abbrev pub with_key : Key → List CommitInfo → Option CommitInfo
  with_key key [] = none
  with_key key (info ∷ infos) =
      let rest = with_key key infos in
      if key == key_for_info rev_exists info then some info else rest

  bucket_at-insert :
      (key k : Key) (bucket : Bucket) (buckets : Buckets)
      → bucket_at k (insert key bucket buckets) ≡ (if k == key then bucket else bucket_at k buckets)
  bucket_at-insert key k bucket buckets = ground (arith, lookup-insert k key bucket buckets)

  other : Side → Side
  other clean_side = history_side
  other history_side = clean_side

  put-held :
      (side : Side) (info : CommitInfo) (k : Key) (buckets : Buckets) (there : Option CommitInfo)
      {after : Buckets}
      → put rev_exists side info there buckets ≡ ok after
      → (held side k after
          ≡ (if k == key_for_info rev_exists info then some info else held side k buckets))
        × (held (other side) k after ≡ held (other side) k buckets)
  unfolding put other
  put-held side info k buckets (some x) h = cc
  put-held clean_side info k buckets none h =
      let key = key_for_info rev_exists info in
      let step = bucket_at-insert key k (filled clean_side info (bucket_at key buckets)) buckets in
      (ground (arith, step), ground (arith, step))
  put-held history_side info k buckets none h =
      let key = key_for_info rev_exists info in
      let step =
        bucket_at-insert key k (filled history_side info (bucket_at key buckets)) buckets in
      (ground (arith, step), ground (arith, step))

  -- A commit is put only where none is.
  put_free :
      (side : Side) (info : CommitInfo) (buckets : Buckets) (there : Option CommitInfo)
      {after : Buckets}
      → put rev_exists side info there buckets ≡ ok after
      → there ≡ none
  unfolding put
  put_free side info buckets none h = refl
  put_free side info buckets (some x) h = cc

  put_all-held :
      (side : Side) (infos : List CommitInfo) (k : Key) (buckets : Buckets) {after : Buckets}
      → put_all rev_exists side infos buckets ≡ ok after
      → (held side k after ≡ first_some (held side k buckets) (with_key k infos))
        × (held (other side) k after ≡ held (other side) k buckets)
  unfolding put_all
  put_all-held side [] k buckets h =
      let same = ok-injective h in
      (
        ap (held side k) (sym same) ∙ sym (first_some-none (held side k buckets)),
        ap (held (other side) k) (sym same),
      )
  put_all-held side (info ∷ infos) k buckets h =
      let there = held side (key_for_info rev_exists info) buckets in
      let (middle, first, second) =
        >>=-eq-ok (put rev_exists side info there buckets) (put_all rev_exists side infos) h in
      let free = put_free side info buckets there first in
      let (one, two) = put-held side info k buckets there first in
      let (rest, rest_other) = put_all-held side infos k middle second in
      (ground (arith, free, one, rest), rest_other ∙ two)

  -- A commit that was put is found.
  put_all-stays :
      (side : Side) (infos : List CommitInfo) (k : Key) (buckets : Buckets) {after : Buckets}
      {info : CommitInfo}
      → put_all rev_exists side infos buckets ≡ ok after
      → held side k buckets ≡ some info
      → held side k after ≡ some info
  put_all-stays side infos k buckets h there =
      rw ((put_all-held side infos k buckets h).0, there) refl

  abbrev pub HoldsAll : Side → Buckets → List CommitInfo → Type 0
  HoldsAll side buckets = All (λ info. held side (key_for_info rev_exists info) buckets ≡ some info)

  put_all-HoldsAll :
      (side : Side) (infos : List CommitInfo) (buckets : Buckets) {after : Buckets}
      → put_all rev_exists side infos buckets ≡ ok after
      → HoldsAll side after infos
  unfolding put_all
  put_all-HoldsAll side [] buckets h = tt
  put_all-HoldsAll side (info ∷ infos) buckets h =
      let key = key_for_info rev_exists info in
      let there = held side key buckets in
      let (middle, first, second) =
        >>=-eq-ok (put rev_exists side info there buckets) (put_all rev_exists side infos) h in
      let (one, two) = put-held side info key buckets there first in
      let put_there : held side key middle ≡ some info = ground (arith, one) in
      (
        put_all-stays side infos key middle second put_there,
        put_all-HoldsAll side infos middle second,
      )

  All-moved :
      (side : Side) (before after : Buckets)
      → ((k : Key) → held side k after ≡ held side k before)
      → (infos : List CommitInfo) → HoldsAll side before infos
      → HoldsAll side after infos
  All-moved side before after same [] all = tt
  All-moved side before after same (info ∷ infos) (h, all) =
      (same (key_for_info rev_exists info) ∙ h, All-moved side before after same infos all)

  -- Bucketing, where it does not refuse, loses no commit and makes none up: each commit stands in
  -- its key's bucket on its own side, and a bucket has on a side the first commit of that side
  -- with the bucket's key, or nothing if there is none.
  pub bucket_commits-held :
      (clean_infos history_infos : List CommitInfo) (buckets : Buckets) (k : Key)
      → bucket_commits rev_exists clean_infos history_infos ≡ ok buckets
      → HoldsAll clean_side buckets clean_infos
        × HoldsAll history_side buckets history_infos
        × (held clean_side k buckets ≡ with_key k clean_infos)
        × (held history_side k buckets ≡ with_key k history_infos)
  unfolding bucket_commits other lookup
  bucket_commits-held clean_infos history_infos buckets k h =
      let (half, first, second) =
        >>=-eq-ok (put_all rev_exists clean_side clean_infos [])
          (put_all rev_exists history_side history_infos) h in
      let (clean_first, history_first) = put_all-held clean_side clean_infos k [] first in
      let (history_second, clean_second) = put_all-held history_side history_infos k half second in
      (
        All-moved clean_side half buckets
            (λ j. (put_all-held history_side history_infos j half second).1) clean_infos
            (put_all-HoldsAll clean_side clean_infos [] first),
        put_all-HoldsAll history_side history_infos half second,
        clean_second ∙ clean_first,
        history_second ∙ ap (λ f. first_some f (with_key k history_infos)) history_first,
      )
