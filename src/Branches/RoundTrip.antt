-- ===== src/Branches/RoundTrip.antt =====
-- What the names of branches.py say about one another.
use mathlib.Core.Path.{subst}
use native.Mathlib.Decide.{ℕ_discrete}
use tunnel2tunnel.Base.{
  ◌≡◌, refl, sym, ◌≢◌, ◌∙◌, ◌↔◌, true, false, none, some, [], ◌++◌, arith, Text, codes, IsLine,
  after_prefix, after_prefix-append, append_of_after_prefix, break_at-line, IsLine-append_right,
  remove_prefix, ◌==◌, list_eq, nat_eq, Option-cases, inl, inr, ap,
}
use tunnel2tunnel.Branches.{
  BranchFormat, clean, unclean, history, refs_heads, unclean_prefix, history_prefix,
  strip_refs_heads, last_line, match_prefix, classify_branch, unclean_name, history_name,
  base_name_from_unclean, base_name_from_history,
}

append-cancel : (p s t : Text) → p ++ s ≡ p ++ t → s ≡ t
append-cancel p s t h =
    let left = after_prefix-append p s in let right = after_prefix-append p t in cc

last_line_of_line : (s : Text) → IsLine s → s ≢ [] → last_line s ≡ some s
unfolding last_line
last_line_of_line s h n = rw (break_at-line s h) (ground arith)

-- On one line, a match gives back what was matched.
match_prefix-append : (p s : Text) → IsLine s → s ≢ [] → match_prefix p (p ++ s) ≡ some s
unfolding match_prefix
match_prefix-append p s h n = rw (after_prefix-append p s, match_prefix) (last_line_of_line s h n)

last_line-inversion : (s : Text) {b : Text} → IsLine s → last_line s ≡ some b → s ≡ b
unfolding last_line
last_line-inversion s h e = let q = break_at-line s h in ground arith

append_of_match_prefix :
    (p name : Text) {b : Text} → IsLine name → match_prefix p name ≡ some b → name ≡ p ++ b
unfolding match_prefix
append_of_match_prefix p name {b} h e = elim (Option-cases (after_prefix p name)) [
  | inl absent ↦ absurd (ground arith)
  | inr (rest, found) ↦
      let shape = append_of_after_prefix p name found in
      let line = IsLine-append_right p rest (subst IsLine shape h) in
      shape ∙ ap (λ t. p ++ t) (last_line-inversion rest line (rw (found, match_prefix) at e))
]

strip_refs_heads-unclean_name : (b : Text) → strip_refs_heads (unclean_name b) ≡ unclean_name b
unfolding strip_refs_heads remove_prefix after_prefix unclean_name codes ℕ_discrete
strip_refs_heads-unclean_name b = refl

strip_refs_heads-history_name : (b : Text) → strip_refs_heads (history_name b) ≡ history_name b
unfolding strip_refs_heads remove_prefix after_prefix history_name codes ℕ_discrete
strip_refs_heads-history_name b = refl

strip_refs_heads-full : (name : Text) → strip_refs_heads (refs_heads ++ name) ≡ name
unfolding strip_refs_heads remove_prefix
strip_refs_heads-full name = rw (after_prefix-append refs_heads name, remove_prefix)

-- A history name is no unclean name.
match_unclean-history : (b : Text) → match_prefix unclean_prefix (history_name b) ≡ none
unfolding match_prefix after_prefix history_name codes ℕ_discrete
match_unclean-history b = refl

match_history-unclean : (b : Text) → match_prefix history_prefix (unclean_name b) ≡ none
unfolding match_prefix after_prefix unclean_name codes ℕ_discrete
match_history-unclean b = refl

-- The name of a variant, from its format and its base name.
abbrev pub variant_name : BranchFormat → Text → Text
variant_name clean b = b
variant_name unclean b = unclean_name b
variant_name history b = history_name b

module _ (b main_branch : Text) (line : IsLine b) (filled : b ≢ []) where
  -- For a base name that is one line and is not empty, the unclean variant's name, bare or as a
  -- full ref, is classified as unclean with that base name, and its base name is read back.
  pub classify_branch-unclean_name :
      (classify_branch (unclean_name b) main_branch ≡ record {
        ref = unclean_name b;
        format = unclean;
        base_name = b;
        is_history_master = false;
      })
      × (classify_branch (refs_heads ++ unclean_name b) main_branch
          ≡ classify_branch (unclean_name b) main_branch)
      × (base_name_from_unclean (unclean_name b) ≡ some b)
      × (base_name_from_history (unclean_name b) ≡ none)
  unfolding classify_branch base_name_from_unclean base_name_from_history unclean_name
  classify_branch-unclean_name =
      let own = match_prefix-append unclean_prefix b line filled in
      let other = match_history-unclean b in
      let bare = strip_refs_heads-unclean_name b in
      let full = strip_refs_heads-full (unclean_name b) in (cc, cc, cc, cc)

  -- For a base name that is one line and is not empty, the history variant's name, bare or as a
  -- full ref, is classified as history with that base name, as the history of the main branch
  -- exactly when the base name is the main branch, and its base name is read back.
  pub classify_branch-history_name :
      (classify_branch (history_name b) main_branch ≡ record {
        ref = history_name b;
        format = history;
        base_name = b;
        is_history_master = b == main_branch;
      })
      × (classify_branch (refs_heads ++ history_name b) main_branch
          ≡ classify_branch (history_name b) main_branch)
      × (base_name_from_history (history_name b) ≡ some b)
      × (base_name_from_unclean (history_name b) ≡ none)
  unfolding classify_branch base_name_from_unclean base_name_from_history history_name
  classify_branch-history_name =
      let own = match_prefix-append history_prefix b line filled in
      let other = match_unclean-history b in
      let bare = strip_refs_heads-history_name b in
      let full = strip_refs_heads-full (history_name b) in (cc, cc, cc, cc)

-- Classification loses nothing: for a ref whose name is one line, the name of the variant that the
-- format and the base name stand for is the ref's own name, and the main branch's history is
-- recognised by its base name.
pub variant_name-classify_branch :
    (ref main_branch : Text)
    → IsLine (strip_refs_heads ref)
    → let c = classify_branch ref main_branch in
      (variant_name c.format c.base_name ≡ strip_refs_heads ref)
      × (c.ref ≡ strip_refs_heads ref)
      × ((c.is_history_master ≡ true) ↔ (c.ref ≡ history_name main_branch) × (c.format ≡ history))
unfolding classify_branch unclean_name history_name
variant_name-classify_branch ref main_branch line =
    let name = strip_refs_heads ref in
    elim (Option-cases (match_prefix unclean_prefix name)) [
      | inl not_unclean ↦ elim (Option-cases (match_prefix history_prefix name)) [
        | inl not_history ↦
            rw (not_unclean, not_history, classify_branch)
              (refl, refl, (λ h. cc, λ h. let q = h.1 in cc))
        | inr (b, found) ↦
            let shape = append_of_match_prefix history_prefix name line found in
            rw (not_unclean, found, classify_branch)
              (
                sym shape,
                refl,
                (
                  λ h. (ground arith, refl),
                  λ h.
                      let same = append-cancel history_prefix b main_branch (sym shape ∙ h.0) in
                      ground arith,
                ),
              )
      ]
      | inr (b, found) ↦
          let shape = append_of_match_prefix unclean_prefix name line found in
          rw (found, classify_branch) (sym shape, refl, (λ h. cc, λ h. let q = h.1 in cc))
    ]
