-- ===== src/History/Plan.antt =====
-- The plan: which commits are replayed, and which merged branches get their history and a marker.
pub mod Markers
use tunnel2tunnel.Base.{
  ℕ, zero, suc, Bool, true, false, not, ◌&&◌, ◌||◌, Option, none, some, List, [], ◌∷◌, ◌++◌, Text,
  codes, ◌==◌, list_eq, nat_eq, option_eq, if◌then◌else◌, map, contains, leb, sort_by,
}
use tunnel2tunnel.Base.Dict.{Dict, insert}
use tunnel2tunnel.Base.Result.{Result, ok, err, history_master_error, ◌>>=◌, traverse}
use tunnel2tunnel.Git.{Git}
use tunnel2tunnel.Trailers.{read_trailer_value}
use tunnel2tunnel.Branches.{history_name, history_fork_point_ref}

abbrev pub merge_kind_trailer : Text
merge_kind_trailer = codes "X-Base-History-Merge-Kind"

abbrev pub clean_branch_trailer : Text
clean_branch_trailer = codes "X-Base-Split-Clean-Branch"

abbrev pub merge_marker_trailer : Text
merge_marker_trailer = codes "X-Base-Split-Merge-Marker-For"

pub data Step : Type 0 where
  commit base_merge base_fold : Text → Step
  -- the clean merge and the branch
  marker : Text → Text → Step

-- `if branch:` of a trailer's value
unfoldable pub found_branch : Text → Option Text → List (Text × Text)
found_branch sha none = []
found_branch sha (some branch) = if branch == [] then [] else (sha, branch) ∷ []

unfoldable pub put_found : List (Text × Text) → Dict Text Text → Dict Text Text
put_found [] combined = combined
put_found ((sha, branch) ∷ found) combined = put_found found (insert sha branch combined)

-- Those of the branches that are wanted.
unfoldable pub put_wanted : List Text → List (Text × Text) → Dict Text Text → Dict Text Text
put_wanted wanted [] combined = combined
put_wanted wanted ((sha, branch) ∷ found) combined =
    put_wanted wanted found
      (if contains wanted branch then insert sha branch combined else combined)

-- `order_index.get(sha, len(master_order))`
unfoldable pub place_of : List Text → Text → ℕ
place_of [] sha = 0
place_of (s ∷ order) sha = let rest = place_of order sha in if sha == s then 0 else suc rest

-- `sorted(…, key=…)`, by the place of the merge in master.
unfoldable pub sort_merged : List Text → List (Text × Text) → List (Text × Text)
sort_merged order = sort_by (λ a b. leb (place_of order a.0) (place_of order b.0))

module _ (git : Git) (refs : git.Refs) where
  unfoldable pub is_base_merge : Text → Result Bool
  is_base_merge sha = do
    message ← git.commit_message sha
    value ← read_trailer_value git message merge_kind_trailer
    ok (value == some (codes "base-merge"))

  unfoldable pub tagged : List Text → Result (List (Text × Text))
  tagged [] = ok []
  tagged (sha ∷ shas) =
      let rest = tagged shas in
      do
        message ← git.commit_message sha
        branch ← read_trailer_value git message clean_branch_trailer
        more ← rest
        ok (found_branch sha branch ++ more)

  unfoldable pub find_newly_merged_clean_branches : Option Text → Text → Result (List (Text × Text))
  find_newly_merged_clean_branches old_master_sha new_master_sha = do
    shas ← git.rev_list_reverse refs old_master_sha new_master_sha
    tagged shas

  unfoldable pub marked_by : Text → List Text → Result Bool
  marked_by clean_merge_sha [] = ok false
  marked_by clean_merge_sha (sha ∷ shas) =
      let rest = marked_by clean_merge_sha shas in
      do
        message ← git.commit_message sha
        value ← read_trailer_value git message merge_marker_trailer
        if value == some clean_merge_sha then ok true else rest

  unfoldable pub has_merge_marker : Text → Text → Result Bool
  has_merge_marker history_master_tip clean_merge_sha = do
    shas ← git.rev_list_reverse refs none history_master_tip
    marked_by clean_merge_sha shas

  unfoldable pub replay_step : Text → Result Step
  replay_step sha = do
    merged ← is_base_merge sha
    ok (if merged then base_merge sha else commit sha)

  -- What is replayed, by the last master that history agreed with.
  unfoldable pub replay_from : Text → Text → Option Text → Result (List Step × Text × Option Text)
  replay_from master_tip old_history_sha none =
      err (history_master_error (codes "no common ancestor"))
  replay_from master_tip old_history_sha (some old_master_sha) =
      if old_master_sha == master_tip then ok ([], old_history_sha, some old_master_sha) else (do
        shas ← git.rev_list_first_parent_reverse refs (some old_master_sha) old_history_sha
        steps ← traverse replay_step shas
        ok (steps, master_tip, some old_master_sha))

  -- The replayed steps, where they start, and the master that history last agreed with.
  unfoldable pub replay_plan : Text → Option Text → Result (List Step × Text × Option Text)
  replay_plan master_tip none = ok ([], master_tip, none)
  replay_plan master_tip (some old_history_sha) =
      replay_from master_tip old_history_sha (git.merge_base refs old_history_sha master_tip)

  unfoldable pub put_registered :
      Text → List (Text × Text) → Dict Text Text → Result (Dict Text Text)
  put_registered master_tip [] combined = ok combined
  put_registered master_tip ((branch, clean_sha) ∷ registered) combined =
      let rest = put_registered master_tip registered (insert clean_sha branch combined) in
      if git.is_ancestor clean_sha master_tip
      then rest
      else err (history_master_error (codes "not reachable"))

  unfoldable pub forced_found : Text → List Text → Result (List (Text × Text))
  forced_found master_tip [] = ok []
  forced_found master_tip (branch ∷ branches) = find_newly_merged_clean_branches none master_tip

  -- The merged branches, in the order of master.
  unfoldable pub merged_branches :
      Text → Option Text → List Text → List (Text × Text) → Result (List (Text × Text))
  merged_branches master_tip old_master_sha force_merge registered_merges = do
    normal_detected ← find_newly_merged_clean_branches old_master_sha master_tip
    forced ← forced_found master_tip force_merge
    combined ←
        put_registered master_tip registered_merges
          (put_wanted force_merge forced (put_found normal_detected []))
    master_order ← git.rev_list_reverse refs none master_tip
    ok (sort_merged master_order combined)

  -- `or` of two shas that may be missing
  unfoldable pub fork_point_of : Text → Text → Text → Option Text
  fork_point_of branch_name history_branch_tip against =
      elim (git.rev_parse refs (history_fork_point_ref branch_name)) [
        | some fork_point ↦ some fork_point
        | none ↦ git.merge_base refs history_branch_tip against
      ]

  unfoldable pub commits_behind : Option Text → Text → Result (List Step)
  commits_behind none history_branch_tip = ok []
  commits_behind (some fork_point) history_branch_tip =
      if fork_point == [] || fork_point == history_branch_tip then ok [] else (do
        shas ← git.rev_list_reverse refs (some fork_point) history_branch_tip
        ok (map commit shas))

  unfoldable pub branch_steps : Text → Text → Result (List Step)
  branch_steps against branch_name =
      elim (git.rev_parse refs (codes "refs/heads/" ++ history_name branch_name)) [
        | none ↦ ok []
        | some tip ↦ commits_behind (fork_point_of branch_name tip against) tip
      ]

  unfoldable pub is_marked : Option Text → Text → Result Bool
  is_marked none clean_sha = ok false
  is_marked (some old_history_sha) clean_sha = has_merge_marker old_history_sha clean_sha

  -- The loop over the merged branches, with the markers that are planned already.
  unfoldable pub marker_steps :
      Option Text → Text → List Text → List (Text × Text) → Result (List Step)
  marker_steps old_history_sha against planned [] = ok []
  marker_steps old_history_sha against planned ((clean_sha, branch_name) ∷ merged) =
      let skipped = marker_steps old_history_sha against planned merged in
      let rest = marker_steps old_history_sha against (clean_sha ∷ planned) merged in
      if contains planned clean_sha then skipped else (do
        found ← is_marked old_history_sha clean_sha
        if found then skipped else (do
          steps ← branch_steps against branch_name
          more ← rest
          ok (steps ++ (marker clean_sha branch_name ∷ more))))

  unfoldable pub or_sha : Option Text → Text → Text
  or_sha none sha = sha
  or_sha (some old) sha = if old == [] then sha else old

  unfoldable pub build_plan :
      Text → Option Text → List Text → List (Text × Text) → Result (List Step × Text × Option Text)
  build_plan master_tip old_history_sha force_merge registered_merges = do
    start ← replay_plan master_tip old_history_sha
    merged ← merged_branches master_tip start.2 force_merge registered_merges
    steps ← marker_steps old_history_sha (or_sha old_history_sha master_tip) [] merged
    ok (start.0 ++ steps, start.1, start.2)
