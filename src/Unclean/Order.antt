-- ===== src/Unclean/Order.antt =====
-- `order_key`, `_order_buckets` and `check_order_consistency`.
pub mod Consistent
use tunnel2tunnel.Base.{
  ℕ, zero, suc, ◌+◌, Bool, true, false, not, ◌&&◌, ◌||◌, Option, none, some, List, [], ◌∷◌, Text,
  ◌==◌, Eq, list_eq, nat_eq, option_eq, if◌then◌else◌, is_some, map, ltb, contains, sort_by,
}
use tunnel2tunnel.Base.Result.{Result, ok, err, value_error, attribute_error, ◌>>=◌, ◌>>◌, traverse}
use tunnel2tunnel.Unclean.Info.{CommitInfo, date_ts}
use tunnel2tunnel.Unclean.Buckets.{Key, matched, unmatched, Bucket, key_for_info}
use tunnel2tunnel.Git.{Author}

-- `unclean_source_order.index(sha)`, where the list has it.
unfoldable pub index_of : Text → List Text → Option ℕ
index_of sha [] = none
index_of sha (x ∷ xs) =
    let rest = index_of sha xs in
    if sha == x then some 0 else elim rest [ none ↦ none | some i ↦ some (suc i) ]

-- `{sha: i for i, sha in enumerate(…)}.get(sha)`: the last place of `sha`.
unfoldable pub order_index : Text → List Text → Option ℕ
order_index sha [] = none
order_index sha (x ∷ xs) =
    let rest = order_index sha xs in
    elim rest [ some i ↦ some (suc i) | none ↦ if sha == x then some 0 else none ]

pub record OrderEntry : Type 0 where
  pub key : Key
  pub bucket : Bucket
  -- one more than in the source, where it is -1 if there is none
  pub preceding_matched_index : ℕ
  pub date : ℕ
  pub is_clean : Bool

-- The place of a matched key in the known order.
abbrev pub known_index : Key → List Text → Option ℕ
known_index (matched source) order = index_of source order
known_index (unmatched sha) order = none

-- The tuple, its second number one more than in the source.
unfoldable pub order_key : OrderEntry → List Text → List ℕ
order_key item unclean_source_order = elim (known_index item.key unclean_source_order) [
  | some i ↦ 0 ∷ suc i ∷ 0 ∷ 0 ∷ []
  | none ↦ 1 ∷ item.preceding_matched_index ∷ item.date ∷ (if item.is_clean then 0 else 1) ∷ []
]

-- `<=` on tuples.
unfoldable pub tuple_leb : List ℕ → List ℕ → Bool
tuple_leb [] b = true
tuple_leb (x ∷ a) [] = false
tuple_leb (x ∷ a) (y ∷ b) = ltb x y || (x == y && tuple_leb a b)

-- `key=lambda entry: order_key(entry, …)`: whether an entry's key is at most another's.
unfoldable pub comes_before : List Text → OrderEntry → OrderEntry → Bool
comes_before order e f = tuple_leb (order_key e order) (order_key f order)

module _ (rev_exists : Text → Bool) where
  -- The walk of `preceding_matched_index`, over a side's commits from the first to the one at
  -- hand: the last place met.
  unfoldable pub preceding_matched_index : Text → List CommitInfo → List Text → ℕ → ℕ
  preceding_matched_index sha [] order last = last
  preceding_matched_index sha (info ∷ infos) order last =
      let rest =
        preceding_matched_index sha infos order
          (elim (known_index (key_for_info rev_exists info) order) [
            | some i ↦ suc i
            | none ↦ last
          ]) in
      if info.sha == sha then last else rest

  -- The body of the loop of `_order_buckets`.
  unfoldable pub order_entry :
      List CommitInfo → List CommitInfo → List Text → Key × Bucket → Result OrderEntry
  order_entry clean_infos history_infos order (key, bucket) = elim bucket.clean [
    | some info ↦ do
      ts ← date_ts info.author.date
      ok (record {
        key = key;
        bucket = bucket;
        preceding_matched_index = preceding key info.sha clean_infos;
        date = ts;
        is_clean = true;
      })
    | none ↦ elim bucket.history [
      | some info ↦ do
        ts ← date_ts info.author.date
        ok (record {
          key = key;
          bucket = bucket;
          preceding_matched_index = preceding key info.sha history_infos;
          date = ts;
          is_clean = false;
        })
      | none ↦ err attribute_error
    ]
  ]
    where
      preceding : Key → Text → List CommitInfo → ℕ
      preceding key sha infos = elim (known_index key order) [
        | some i ↦ 0
        | none ↦ preceding_matched_index sha infos order 0
      ]

  unfoldable pub order_buckets :
      List (Key × Bucket)
      → List CommitInfo
      → List CommitInfo
      → List Text
      → Result (List (Key × Bucket))
  order_buckets items clean_infos history_infos unclean_source_order = do
    entries ← traverse (order_entry clean_infos history_infos unclean_source_order) items
    ok (map (λ e. (e.key, e.bucket)) (sort_by (comes_before unclean_source_order) entries))

-- The place of a commit's source in the known order: `order_index[info.source]`, if it is there.
abbrev pub place : List Text → CommitInfo → Option ℕ
place order info = elim info.source [ none ↦ none | some s ↦ order_index s order ]

-- The inner loop of `check_order_consistency`: `last` is the place and the sha of the last commit
-- that has one.
unfoldable pub check_side : List Text → List CommitInfo → Option (ℕ × Text) → Result (Unit {0})
check_side order [] last = ok tt
check_side order (info ∷ infos) last = elim (place order info) [
  | none ↦ check_side order infos last
  | some pos ↦ elim last [
    | none ↦ check_side order infos (some (pos, info.sha))
    | some (last_pos, last_sha) ↦
        let rest = check_side order infos (some (pos, info.sha)) in
        if ltb pos last_pos then err (value_error info.sha last_sha) else rest
  ]
]

unfoldable pub check_order_consistency :
    List CommitInfo → List CommitInfo → List Text → Bool → Result (Unit {0})
check_order_consistency clean_infos history_infos unclean_source_order force =
    let check =
      check_side unclean_source_order clean_infos none
      >> check_side unclean_source_order history_infos none in
    if force || unclean_source_order == [] then ok tt else check
