-- ===== src/Identity/Remaining.antt =====
-- What `remaining_identity` gives.
use tunnel2tunnel.Base.{
  ◌≡◌, refl, sym, ◌⊎◌, inl, inr, Bool, true, false, not, ◌&&◌, none, some, Text, ◌==◌, list_eq,
  nat_eq, if◌then◌else◌,
}
use mathlib.Core.Option.{some-injective}
use tunnel2tunnel.Identity.{CommitIdentity, is_ai_identity, remaining_identity}

module _ (casefold : Text → Text) where
  chosen :
      (same ai_author ai_committer : Bool) (author committer : CommitIdentity) {r : CommitIdentity}
      → is_ai_identity casefold author ≡ ai_author
      → is_ai_identity casefold committer ≡ ai_committer
      → (if same
          then none
          else if not ai_author
          then some author
          else if not ai_committer
          then some committer
          else none)
        ≡ some r
      → (same ≡ false)
        × (is_ai_identity casefold r ≡ false)
        × ((r ≡ author) ⊎ ((r ≡ committer) × (is_ai_identity casefold author ≡ true)))
  chosen true a b author committer e f h = cc
  chosen false false b author committer e f h =
      (refl, rw (sym (some-injective _ _ h)) e, inl (sym (some-injective _ _ h)))
  chosen false true false author committer e f h =
      (refl, rw (sym (some-injective _ _ h)) f, inr (sym (some-injective _ _ h), e))
  chosen false true true author committer e f h = cc

  -- An identity that remains is of no AI. It is the author, or it is the committer where the
  -- author is of an AI; and the two were not the same.
  pub remaining_identity_lem :
      (author committer r : CommitIdentity)
      → remaining_identity casefold author committer ≡ some r
      → ((author.name == committer.name && author.email == committer.email) ≡ false)
        × (is_ai_identity casefold r ≡ false)
        × ((r ≡ author) ⊎ ((r ≡ committer) × (is_ai_identity casefold author ≡ true)))
  unfolding remaining_identity
  remaining_identity_lem author committer r h =
      chosen (author.name == committer.name && author.email == committer.email)
        (is_ai_identity casefold author) (is_ai_identity casefold committer) author committer refl
        refl h
