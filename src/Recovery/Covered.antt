-- ===== src/Recovery/Covered.antt =====
-- The recovery log covers what the split tools write.
use tunnel2tunnel.Base.{
  ◌≡◌, refl, true, not, ◌&&◌, ◌||◌, Option, List, [], ◌∷◌, ◌++◌, Text, arith, list_eq, nat_eq,
  contains,
}
use tunnel2tunnel.Base.Result.{to_clean, to_history}
use tunnel2tunnel.Branches.{history_name}
use tunnel2tunnel.Split.Passes.Frame.{Touched, clean_branch, history_branch, fork_point, cursor}
use tunnel2tunnel.Unclean.Rebuild.Frame.{Written, unclean_branch, clean_cursor, history_cursor}
use tunnel2tunnel.Recovery.{refs_of_branch, refs_of_branches, dedup, covered, resolve_watched_refs}

-- A ref is in the shortened list exactly if it is in the list and was not seen before.
dedup-contains :
    (seen refs : List Text) (r : Text)
    → contains (dedup seen refs) r ≡ (not (contains seen r) && contains refs r)
unfolding dedup
dedup-contains seen [] r = ground arith
dedup-contains seen (ref ∷ refs) r =
    ground (arith, dedup-contains seen refs r, dedup-contains (ref ∷ seen) refs r)

contains-append :
    (xs ys : List Text) (r : Text) → contains (xs ++ ys) r ≡ (contains xs r || contains ys r)
contains-append [] ys r = refl
contains-append (x ∷ xs) ys r = ground (arith, contains-append xs ys r)

-- The refs that a forward run or a reverse run of a base branch may write.
pub data Changed (base_branch : Text) (ref : Text) : Type 0 where
  forward : Touched base_branch ref → Changed base_branch ref
  backward : Written base_branch ref → Changed base_branch ref

contains-same : (r : Text) (rs : List Text) → contains (r ∷ rs) r ≡ true
contains-same r rs = ground arith

refs_of_branch-contains : (b r : Text) → Changed b r → contains (refs_of_branch b) r ≡ true
unfolding refs_of_branch
refs_of_branch-contains b _ (forward clean_branch) = ground arith
refs_of_branch-contains b _ (forward history_branch) = ground arith
refs_of_branch-contains b _ (forward fork_point) = ground arith
refs_of_branch-contains b _ (forward (cursor to_clean)) = ground arith
refs_of_branch-contains b _ (forward (cursor to_history)) = ground arith
refs_of_branch-contains b _ (backward unclean_branch) = ground arith
refs_of_branch-contains b _ (backward clean_cursor) = ground arith
refs_of_branch-contains b _ (backward history_cursor) = ground arith

refs_of_branches-contains :
    (bs : List Text) (b r : Text)
    → contains bs b ≡ true
    → contains (refs_of_branch b) r ≡ true
    → contains (refs_of_branches bs) r ≡ true
unfolding refs_of_branches
refs_of_branches-contains [] b r h k = cc
refs_of_branches-contains (c ∷ bs) b r h k = ground (
  arith,
  contains-append (refs_of_branch c) (refs_of_branches bs) r,
  refs_of_branches-contains bs b r,
)

-- The recovery log watches every ref that a forward run or a reverse run may write on a covered
-- branch: the branch that the run names, or each discovered branch where it names none.
pub resolve_watched_refs-contains :
    (branch : Option Text) (main_branch : Text) (discovered : List Text) (b r : Text)
    → contains (covered branch discovered) b ≡ true
    → Changed b r
    → contains (resolve_watched_refs branch main_branch discovered) r ≡ true
unfolding resolve_watched_refs
resolve_watched_refs-contains branch main_branch discovered b r h changed =
    let watched = covered branch discovered in
    let all_refs = main_branch ∷ history_name main_branch ∷ refs_of_branches watched in
    ground (
      arith,
      dedup-contains [] all_refs r,
      refs_of_branches-contains watched b r h (refs_of_branch-contains b r changed),
    )
