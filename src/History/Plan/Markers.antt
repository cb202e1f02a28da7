-- ===== src/History/Plan/Markers.antt =====
-- Which markers are planned.
use tunnel2tunnel.Base.{
  Bool, true, false, codes, ◌||◌, Option, none, some, List, [], ◌∷◌, ◌++◌, Text, ◌==◌, list_eq,
  nat_eq, if◌then◌else◌, map, contains, ◌≡◌, refl, ap, sym, ◌∙◌, ◌⊎◌, inl, inr, All, arith,
}
use mathlib.Core.Path.{subst}
use tunnel2tunnel.Base.Result.{Result, ok, ◌>>=◌, >>=-eq-ok, ok-injective, traverse}
use tunnel2tunnel.Git.{Git}
use tunnel2tunnel.Branches.{history_name}
use tunnel2tunnel.History.Plan.{
  Step, commit, base_merge, base_fold, marker, replay_step, replay_plan, replay_from,
  commits_behind, branch_steps, is_marked, marker_steps, build_plan, is_base_merge, merged_branches,
  or_sha, fork_point_of,
}

unfoldable pub marker_shas : List Step → List Text
marker_shas [] = []
marker_shas (commit sha ∷ steps) = marker_shas steps
marker_shas (base_merge sha ∷ steps) = marker_shas steps
marker_shas (base_fold sha ∷ steps) = marker_shas steps
marker_shas (marker sha branch ∷ steps) = sha ∷ marker_shas steps

-- Every text stands once in the list.
abbrev pub Once : List Text → Type 0
Once [] = Unit
Once (x ∷ xs) = (contains xs x ≡ false) × Once xs

marker_shas-append :
    (xs ys : List Step) → marker_shas xs ≡ [] → marker_shas (xs ++ ys) ≡ marker_shas ys
unfolding marker_shas
marker_shas-append [] ys h = refl
marker_shas-append (commit sha ∷ xs) ys h = marker_shas-append xs ys h
marker_shas-append (base_merge sha ∷ xs) ys h = marker_shas-append xs ys h
marker_shas-append (base_fold sha ∷ xs) ys h = marker_shas-append xs ys h
marker_shas-append (marker sha branch ∷ xs) ys h = cc

marker_shas-map : (shas : List Text) → marker_shas (map commit shas) ≡ []
unfolding marker_shas
marker_shas-map [] = refl
marker_shas-map (sha ∷ shas) = marker_shas-map shas

-- The branch that a test took.
taken :
    {A : Type 0} (test : Bool) (a b : Result A) {x : A}
    → (if test then a else b) ≡ ok x
    → ((test ≡ true) × (a ≡ ok x)) ⊎ ((test ≡ false) × (b ≡ ok x))
taken true a b h = inl (refl, h)
taken false a b h = inr (refl, h)

module _ (git : Git) (refs : git.Refs) where
  no_markers-commits_behind :
      (fork : Option Text) (tip : Text) {steps : List Step}
      → commits_behind git refs fork tip ≡ ok steps
      → marker_shas steps ≡ []
  unfolding commits_behind
  no_markers-commits_behind none tip h = ap marker_shas (sym (ok-injective h)) ∙ marker_shas-map []
  no_markers-commits_behind (some f) tip h = elim (taken (f == [] || f == tip) _ _ h) [
    | inl (t, k) ↦ ap marker_shas (sym (ok-injective k)) ∙ marker_shas-map []
    | inr (t, k) ↦ shas_only k
  ]
    where
      shas_only :
          {steps : List Step}
          → (do shas ← git.rev_list_reverse refs (some f) tip; ok (map commit shas)) ≡ ok steps
          → marker_shas steps ≡ []
      shas_only k =
          let (shas, found, last) = >>=-eq-ok (git.rev_list_reverse refs (some f) tip) _ k in
          ap marker_shas (sym (ok-injective last)) ∙ marker_shas-map shas

  no_markers-branch_steps :
      (against branch : Text) {steps : List Step}
      → branch_steps git refs against branch ≡ ok steps
      → marker_shas steps ≡ []
  unfolding branch_steps
  no_markers-branch_steps against branch h =
      from_tip (git.rev_parse refs (codes "refs/heads/" ++ history_name branch)) h
    where
      from_tip :
          (found : Option Text) {steps : List Step}
          → (elim found as (λ _. Result (List Step)) [
            | none ↦ ok []
            | some tip ↦ commits_behind git refs (fork_point_of git refs branch tip against) tip
          ])
            ≡ ok steps
          → marker_shas steps ≡ []
      from_tip none h = ap marker_shas (sym (ok-injective h)) ∙ marker_shas-map []
      from_tip (some tip) h =
          no_markers-commits_behind (fork_point_of git refs branch tip against) tip h

  no_markers-traverse :
      (shas : List Text) {steps : List Step}
      → traverse (replay_step git refs) shas ≡ ok steps
      → marker_shas steps ≡ []
  unfolding traverse replay_step marker_shas
  no_markers-traverse [] h = ap marker_shas (sym (ok-injective h)) ∙ marker_shas-map []
  no_markers-traverse (sha ∷ shas) h =
      let (step, first, next) =
        >>=-eq-ok (replay_step git refs sha)
          (λ step. do steps ← traverse (replay_step git refs) shas; ok (step ∷ steps)) h in
      let (steps, rest, last) =
        >>=-eq-ok (traverse (replay_step git refs) shas) (λ steps. ok (step ∷ steps)) next in
      let (merged, found, built) = >>=-eq-ok (is_base_merge git refs sha) _ first in
      ap marker_shas (sym (ok-injective last))
      ∙ ap (λ s. marker_shas (s ∷ steps)) (sym (ok-injective built))
      ∙ replayed merged sha steps
      ∙ no_markers-traverse shas rest
    where
      replayed :
          (merged : Bool) (sha : Text) (steps : List Step)
          → marker_shas ((if merged then base_merge sha else commit sha) ∷ steps)
            ≡ marker_shas steps
      replayed true sha steps = refl
      replayed false sha steps = refl

  no_markers-replay_from :
      (master_tip old : Text) (base : Option Text) {start : List Step × Text × Option Text}
      → replay_from git refs master_tip old base ≡ ok start
      → marker_shas start.0 ≡ []
  unfolding replay_from marker_shas
  no_markers-replay_from master_tip old none h = cc
  no_markers-replay_from master_tip old (some base) h = elim (taken (base == master_tip) _ _ h) [
    | inl (t, k) ↦ ap (λ s. marker_shas s.0) (sym (ok-injective k))
    | inr (t, k) ↦
        let (shas, found, next) =
          >>=-eq-ok (git.rev_list_first_parent_reverse refs (some base) old) _ k in
        let (steps, planned, last) =
          >>=-eq-ok (traverse (replay_step git refs) shas)
            (λ steps. ok (steps, master_tip, some base)) next in
        ap (λ s. marker_shas s.0) (sym (ok-injective last)) ∙ no_markers-traverse shas planned
  ]

  no_markers-replay_plan :
      (master_tip : Text) (old : Option Text) {start : List Step × Text × Option Text}
      → replay_plan git refs master_tip old ≡ ok start
      → marker_shas start.0 ≡ []
  unfolding replay_plan marker_shas
  no_markers-replay_plan master_tip none h = ap (λ s. marker_shas s.0) (sym (ok-injective h))
  no_markers-replay_plan master_tip (some old) h =
      no_markers-replay_from master_tip old (git.merge_base refs old master_tip) h

  -- The markers are of merges that are neither planned before nor marked.
  abbrev IsFresh : Option Text → List Text → List Text → Type 0
  IsFresh old planned shas =
      Once shas
      × All (λ sha. (contains planned sha ≡ false) × (is_marked git refs old sha ≡ ok false)) shas

  IsFresh-cons :
      (old : Option Text) (planned shas : List Text) (sha : Text)
      → contains planned sha ≡ false
      → is_marked git refs old sha ≡ ok false
      → IsFresh old (sha ∷ planned) shas
      → IsFresh old planned (sha ∷ shas)
  IsFresh-cons old planned shas sha h k (once, fresh) =
      ((apart shas fresh, once), ((h, k), fewer shas fresh))
    where
      apart :
          (xs : List Text)
          → All
              (λ x. (contains (sha ∷ planned) x ≡ false) × (is_marked git refs old x ≡ ok false))
              xs
          → contains xs sha ≡ false
      apart [] f = refl
      apart (x ∷ xs) f = ground (arith, f.0.0, apart xs f.1)

      fewer :
          (xs : List Text)
          → All
              (λ x. (contains (sha ∷ planned) x ≡ false) × (is_marked git refs old x ≡ ok false))
              xs
          → All (λ x. (contains planned x ≡ false) × (is_marked git refs old x ≡ ok false)) xs
      fewer [] f = tt
      fewer (x ∷ xs) f = ((ground (arith, f.0.0), f.0.1), fewer xs f.1)

  marker_steps-IsFresh :
      (old : Option Text) (against : Text) (planned : List Text) (merged : List (Text × Text))
      {steps : List Step}
      → marker_steps git refs old against planned merged ≡ ok steps
      → IsFresh old planned (marker_shas steps)
  unfolding marker_steps marker_shas
  marker_steps-IsFresh old against planned [] h =
      subst (λ s. IsFresh old planned (marker_shas s)) (ok-injective h) (tt, tt)
  marker_steps-IsFresh old against planned ((sha, branch) ∷ merged) h =
      elim (taken (contains planned sha) _ _ h) [
        | inl (t, k) ↦ marker_steps-IsFresh old against planned merged k
        | inr (t, k) ↦
            let (found, asked, next) = >>=-eq-ok (is_marked git refs old sha) _ k in
            elim (taken found _ _ next) [
              | inl (u, l) ↦ marker_steps-IsFresh old against planned merged l
              | inr (u, l) ↦
                  let (steps, behind, next) =
                    >>=-eq-ok (branch_steps git refs against branch)
                      (λ steps. do
                        more ← marker_steps git refs old against (sha ∷ planned) merged
                        ok (steps ++ (marker sha branch ∷ more)))
                      l in
                  let (more, rest, last) =
                    >>=-eq-ok (marker_steps git refs old against (sha ∷ planned) merged)
                      (λ more. ok (steps ++ (marker sha branch ∷ more))) next in
                  subst (IsFresh old planned)
                    (sym (
                        marker_shas-append steps (marker sha branch ∷ more)
                          (no_markers-branch_steps against branch behind))
                      ∙ ap marker_shas (ok-injective last))
                    (IsFresh-cons old planned (marker_shas more) sha t (asked ∙ ap ok u)
                      (marker_steps-IsFresh old against (sha ∷ planned) merged rest))
            ]
      ]

-- A plan marks no merge twice, and none that the history branch has a marker of: run again, it plans no
-- marker that is there.
pub build_plan-Once :
    (git : Git) (refs : git.Refs) (master_tip : Text) (old_history_sha : Option Text)
    (force_merge : List Text) (registered_merges : List (Text × Text))
    {plan : List Step × Text × Option Text}
    → build_plan git refs master_tip old_history_sha force_merge registered_merges ≡ ok plan
    → Once (marker_shas plan.0)
      × All (λ sha. is_marked git refs old_history_sha sha ≡ ok false) (marker_shas plan.0)
unfolding build_plan
build_plan-Once git refs master_tip old force registered {plan} h =
    let (start, first, next) = >>=-eq-ok (replay_plan git refs master_tip old) _ h in
    let (merged, second, last) =
      >>=-eq-ok (merged_branches git refs master_tip start.2 force registered)
        (λ merged. do
          steps ← marker_steps git refs old (or_sha git refs old master_tip) [] merged
          ok (start.0 ++ steps, start.1, start.2))
        next in
    let (steps, marked, built) =
      >>=-eq-ok (marker_steps git refs old (or_sha git refs old master_tip) [] merged)
        (λ steps. ok (start.0 ++ steps, start.1, start.2)) last in
    let same =
      sym (marker_shas-append start.0 steps (no_markers-replay_plan git refs master_tip old first))
      ∙ ap (λ p. marker_shas p.0) (ok-injective built) in
    let fresh =
      marker_steps-IsFresh git refs old (or_sha git refs old master_tip) [] merged marked in
    (
      subst Once same fresh.0,
      subst (All (λ sha. is_marked git refs old sha ≡ ok false)) same
          (unmarked (marker_shas steps) fresh.1),
    )
  where
    unmarked :
        (shas : List Text)
        → All (λ sha. (contains [] sha ≡ false) × (is_marked git refs old sha ≡ ok false)) shas
        → All (λ sha. is_marked git refs old sha ≡ ok false) shas
    unmarked [] h = tt
    unmarked (sha ∷ shas) h = (h.0.1, unmarked shas h.1)
