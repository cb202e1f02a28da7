-- ===== src/Recovery/Backup.antt =====
-- `backup_split_refs`: tags on the tips of a branch before it is split. Times are counted in
-- seconds from the first candidate; `strftime` writes one, and `create_refs` creates refs.
use tunnel2tunnel.Base.{
  ℕ, zero, suc, ◌+◌, ◌<◌, ◌≡◌, refl, Bool, true, false, Option, none, some, List, [], ◌∷◌, ◌++◌,
  Text, codes, ◌==◌, list_eq, nat_eq, option_eq, pair_eq, if◌then◌else◌, all, arith,
}
use mathlib.Core.Path.{subst}
use tunnel2tunnel.Base.Result.{Result, ok, err, assertion_error, ◌>>=◌}
use tunnel2tunnel.Git.{Git}
use tunnel2tunnel.Branches.{unclean_name, history_name}

-- `f"{BACKUP_TAG_ROOT}/{base_branch}/{timestamp}/{label}"`
unfoldable pub backup_ref : Text → Text → Text → Text
backup_ref base_branch timestamp label =
    codes "refs/tags/bak/split/"
    ++ (base_branch ++ (codes "/" ++ (timestamp ++ (codes "/" ++ label))))

abbrev pub backup_labels : List Text
backup_labels = codes "clean" ∷ codes "UNCLEAN" ∷ codes "history" ∷ []

-- The tips that are there, by label.
unfoldable pub existing_tips : List (Text × Option Text) → List (Text × Text)
existing_tips [] = []
existing_tips ((label, none) ∷ tips) = existing_tips tips
existing_tips ((label, some sha) ∷ tips) = (label, sha) ∷ existing_tips tips

-- `tag_refs`
unfoldable pub tag_refs_of : Text → Text → List (Text × Text) → List (Text × Text)
tag_refs_of base_branch timestamp [] = []
tag_refs_of base_branch timestamp ((label, sha) ∷ tips) =
    (label, backup_ref base_branch timestamp label) ∷ tag_refs_of base_branch timestamp tips

-- What `create_refs` is given.
unfoldable pub created_refs_of : Text → Text → List (Text × Text) → List (Text × Text)
created_refs_of base_branch timestamp [] = []
created_refs_of base_branch timestamp ((label, sha) ∷ tips) =
    (backup_ref base_branch timestamp label, sha) ∷ created_refs_of base_branch timestamp tips

module _ (git : Git) (strftime : ℕ → Text) where
  -- No reserved tag of the time is taken.
  unfoldable pub is_free : Text → git.Refs → ℕ → Bool
  is_free base_branch refs candidate =
      all (λ label. git.rev_parse refs (backup_ref base_branch (strftime candidate) label) == none)
        backup_labels

  -- The loop, for at most so many rounds.
  unfoldable pub free_candidate : ℕ → Text → git.Refs → ℕ → Option ℕ
  free_candidate zero base_branch refs candidate = none
  free_candidate (suc fuel) base_branch refs candidate =
      let rest = free_candidate fuel base_branch refs (candidate + 1) in
      if is_free base_branch refs candidate then some candidate else rest

  -- By what the loop found: the tag refs, and the refs behind the creation.
  unfoldable pub create_backup :
      (List (Text × Text) → git.Refs → Result git.Refs)
      → Text
      → List (Text × Text)
      → git.Refs
      → Option ℕ
      → Result (List (Text × Text) × git.Refs)
  create_backup create_refs base_branch tips refs none = err assertion_error
  create_backup create_refs base_branch tips refs (some candidate) = do
    after ← create_refs (created_refs_of base_branch (strftime candidate) tips) refs
    ok (tag_refs_of base_branch (strftime candidate) tips, after)

  unfoldable pub backup_split_refs :
      ℕ
      → (List (Text × Text) → git.Refs → Result git.Refs)
      → Text
      → git.Refs
      → Result (List (Text × Text) × git.Refs)
  backup_split_refs fuel create_refs base_branch refs =
      let tips = existing_tips (
        (codes "clean", git.rev_parse refs base_branch)
        ∷ (codes "UNCLEAN", git.rev_parse refs (unclean_name base_branch))
        ∷ (codes "history", git.rev_parse refs (history_name base_branch))
        ∷ []) in
      if tips == []
      then ok ([], refs)
      else create_backup create_refs base_branch tips refs (free_candidate fuel base_branch refs 0)

  -- The search ends: if the time `n` seconds behind the candidate is free and there are more than
  -- `n` rounds, it finds a time, and the reserved tags of that time are all free.
  pub free_candidate_lem :
      (fuel : ℕ) (base_branch : Text) (refs : git.Refs) (candidate n : ℕ)
      → n < fuel
      → is_free base_branch refs (candidate + n) ≡ true
      → (found : ℕ) × (free_candidate fuel base_branch refs candidate ≡ some found)
        × (is_free base_branch refs found ≡ true)
  unfolding free_candidate
  free_candidate_lem zero base_branch refs candidate n enough free = absurd (none_below n enough)
    where
      none_below : (n : ℕ) → n < zero → ⊥
      none_below n h = omega arith
  free_candidate_lem (suc fuel) base_branch refs candidate n enough free =
      go (is_free base_branch refs candidate) refl n enough free
        (free_candidate_lem fuel base_branch refs (candidate + 1))
    where
      moved :
          (n : ℕ)
          → is_free base_branch refs (candidate + suc n) ≡ true
          → is_free base_branch refs (candidate + 1 + n) ≡ true
      moved n free = subst (λ k. is_free base_branch refs k ≡ true) (omega arith) free

      clash :
          is_free base_branch refs candidate ≡ false
          → is_free base_branch refs (candidate + 0) ≡ true
          → ⊥
      clash e free =
          let here : candidate + 0 ≡ candidate = omega arith in
          let now : is_free base_branch refs candidate ≡ true =
            subst (λ k. is_free base_branch refs k ≡ true) here free in
          cc

      go :
          (b : Bool)
          → is_free base_branch refs candidate ≡ b
          → (n : ℕ) → n < suc fuel
          → is_free base_branch refs (candidate + n) ≡ true
          → ((m : ℕ)
              → m < fuel
              → is_free base_branch refs (candidate + 1 + m) ≡ true
              → (found : ℕ) × (free_candidate fuel base_branch refs (candidate + 1) ≡ some found)
                × (is_free base_branch refs found ≡ true))
          → (found : ℕ) × (free_candidate (suc fuel) base_branch refs candidate ≡ some found)
            × (is_free base_branch refs found ≡ true)
      go true e n enough free later = (candidate, rw (e, free_candidate) refl, e)
      go false e zero enough free later = absurd (clash e free)
      go false e (suc n) enough free later =
          let (found, there, is_it) = later n (omega arith) (moved n free) in
          (found, rw (e, free_candidate) there, is_it)
