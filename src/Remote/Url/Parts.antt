-- ===== src/Remote/Url/Parts.antt =====
-- The owner and the repository in the path of a rewritten URL.
use tunnel2tunnel.Base.{
  ℕ, ◌-◌, true, false, [], ◌∷◌, ◌++◌, Text, codes, ◌==◌, list_eq, nat_eq, option_eq, ends_with,
  starts_with, length, take, lacks, split_on-lacks, split_on-append, take-append,
  after_prefix-append, length-append, ◌≡◌, refl, ap, ◌∙◌, arith, zero, suc,
}
use mathlib.Core.List.{reverse, reverse-append}
use tunnel2tunnel.Remote.Url.{git_suffix, repo_name, path_parts, path_of}

pub lacks-append :
    (sep : ℕ) (s t : Text) → lacks sep s ≡ true → lacks sep t ≡ true → lacks sep (s ++ t) ≡ true
lacks-append sep [] t h k = k
lacks-append sep (c ∷ s) t h k = ground (arith, lacks-append sep s t)

pub lacks-take : (sep n : ℕ) (s : Text) → lacks sep s ≡ true → lacks sep (take n s) ≡ true
lacks-take sep zero s h = refl
lacks-take sep (suc n) [] h = refl
lacks-take sep (suc n) (c ∷ s) h = ground (arith, lacks-take sep n s)

starts_with-append : (s p : Text) → starts_with (p ++ s) p ≡ true
unfolding starts_with
starts_with-append s p = rw (after_prefix-append p s) refl

pub ends_with-append : (s p : Text) → ends_with (s ++ p) p ≡ true
unfolding ends_with
ends_with-append s p = rw (reverse-append s p) (starts_with-append (reverse s) (reverse p))

pub git_suffix-length : length git_suffix ≡ 4
unfolding codes
git_suffix-length = refl

pub repo_name-git_suffix : (name : Text) → repo_name (name ++ git_suffix) ≡ name
unfolding repo_name
repo_name-git_suffix name =
    rw (ends_with-append name git_suffix)
      (ap (λ n. take n (name ++ git_suffix)) counted ∙ take-append name git_suffix)
  where
    counted : length (name ++ git_suffix) - 4 ≡ length name
    counted = omega (arith, git_suffix-length, length-append name git_suffix)

-- The two parts of a path that is written from an owner and a repository.
pub path_parts-path_of :
    (owner rest : Text)
    → lacks b'/' owner ≡ true
    → lacks b'/' rest ≡ true
    → (owner == []) ≡ false
    → (rest == []) ≡ false
    → path_parts (path_of owner rest) ≡ owner ∷ rest ∷ []
unfolding path_parts path_of
path_parts-path_of owner rest h k n m =
    rw
      (
        split_on-append b'/' [] (owner ++ (b'/' ∷ rest)) refl,
        split_on-append b'/' owner rest h,
        split_on-lacks b'/' rest k,
      )
      (ground (arith, n, m))
