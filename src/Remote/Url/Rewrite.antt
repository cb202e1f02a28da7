-- ===== src/Remote/Url/Rewrite.antt =====
-- The reading of what `rewrite_github_https_url` returns.
use tunnel2tunnel.Base.{
  ℕ, Bool, true, false, ◌&&◌, ◌||◌, Option, none, some, [], ◌∷◌, ◌++◌, Text, codes, ◌==◌, list_eq,
  nat_eq, option_eq, if◌then◌else◌, ends_with, lacks, ◌≡◌, refl, ap, sym, ◌∙◌, arith,
}
use native.Mathlib.Decide.{ℕ_discrete}
use mathlib.Core.List.{append_assoc}
use tunnel2tunnel.Base.Result.{ok, err, username_required, ◌>>=◌, >>=-eq-ok, ok-injective}
use tunnel2tunnel.Remote.Url.{
  GitHubUrlInfo, SplitResult, Urls, git_suffix, repo_name, path_parts, path_of, info_of_parts,
  new_path, new_netloc, is_github, parse_github_https_url, rewritten_split, rewrite_info,
  rewrite_github_https_url,
}
use tunnel2tunnel.Remote.Url.Read.{IsParsed, parse_github_https_url-IsRead}
use tunnel2tunnel.Remote.Url.Parts.{
  lacks-append, ends_with-append, repo_name-git_suffix, path_parts-path_of,
}

path_of-append :
    (owner repo rest : Text) → path_of owner repo ++ rest ≡ path_of owner (repo ++ rest)
unfolding path_of
path_of-append owner repo rest = ap (λ s. b'/' ∷ s) (append_assoc owner (b'/' ∷ repo) rest)

append-some : (s t : Text) → (s == []) ≡ false → (s ++ t == []) ≡ false
unfolding list_eq
append-some [] t h = ground (arith, h)
append-some (c ∷ s) t h = refl

suffix_lacks : lacks b'/' git_suffix ≡ true
unfolding codes ℕ_discrete
suffix_lacks = refl

repo_name_plain : (repo : Text) → ends_with repo git_suffix ≡ false → repo_name repo ≡ repo
unfolding repo_name
repo_name_plain repo h = rw h refl

or_left : (a b : Bool) → (a || b) ≡ false → a ≡ false
or_left false b h = refl
or_left true b h = h

-- A parsed URL as it is read after it was rewritten.
unfoldable pub reread : Urls → Text → SplitResult → GitHubUrlInfo → Bool → GitHubUrlInfo
reread urls url split info add = record info {
  original_url = url;
  split = split;
  username = urls.username split.netloc;
  has_git_suffix = info.has_git_suffix || add;
}

module _ (urls : Urls) where
  -- The second part of the new path.
  abbrev new_repo : GitHubUrlInfo → Bool → Text
  new_repo info add = if info.has_git_suffix || add then info.repo ++ git_suffix else info.repo

  new_parts :
      (info : GitHubUrlInfo) (add : Bool)
      → IsParsed info.split info
      → path_parts (new_path urls info add) ≡ info.owner ∷ new_repo info add ∷ []
  unfolding new_path
  new_parts info add q = by_test (info.has_git_suffix || add)
    where
      by_test :
          (test : Bool)
          → path_parts
              (if test then info.path_without_suffix ++ git_suffix else info.path_without_suffix)
            ≡ info.owner ∷ (if test then info.repo ++ git_suffix else info.repo) ∷ []
      by_test true =
          ap (λ p. path_parts (p ++ git_suffix)) q.path_is
          ∙ ap path_parts (path_of-append info.owner info.repo git_suffix)
          ∙ path_parts-path_of info.owner (info.repo ++ git_suffix) q.owner_lacks
              (lacks-append b'/' info.repo git_suffix q.repo_lacks suffix_lacks) q.owner_some
              (append-some info.repo git_suffix q.repo_some)
      by_test false =
          ap path_parts q.path_is
          ∙ path_parts-path_of info.owner info.repo q.owner_lacks q.repo_lacks q.owner_some
              q.repo_some

  -- The name and the suffix that are read from the new second part.
  read_new_repo :
      (info : GitHubUrlInfo) (add : Bool)
      → IsParsed info.split info
      → (repo_name (new_repo info add) ≡ info.repo)
        × (ends_with (new_repo info add) git_suffix ≡ (info.has_git_suffix || add))
        × ((new_repo info add == []) ≡ false)
  read_new_repo info add q = by_test (info.has_git_suffix || add) refl
    where
      by_test :
          (test : Bool)
          → (info.has_git_suffix || add) ≡ test
          → (repo_name (if test then info.repo ++ git_suffix else info.repo) ≡ info.repo)
            × (ends_with (if test then info.repo ++ git_suffix else info.repo) git_suffix ≡ test)
            × (((if test then info.repo ++ git_suffix else info.repo) == []) ≡ false)
      by_test true t = (
        repo_name-git_suffix info.repo,
        ends_with-append info.repo git_suffix,
        append-some info.repo git_suffix q.repo_some,
      )
      by_test false t =
          let p = q.plain (or_left info.has_git_suffix add t) in
          (repo_name_plain info.repo p, p, q.repo_some)

  -- What is read from the parts of the new path.
  read_parts :
      (url : Text) (split : SplitResult) (info : GitHubUrlInfo) (add : Bool)
      → IsParsed info.split info
      → info_of_parts urls url split (info.owner ∷ new_repo info add ∷ [])
        ≡ some (reread urls url split info add)
  unfolding info_of_parts reread
  read_parts url split info add q =
      let (name, suffix, given) = read_new_repo info add q in
      rw (q.owner_some, given, name, q.repo_some, suffix, sym q.path_is) refl

  -- What rewriting keeps of the split, and the path it sets.
  rewritten_split-kept :
      (info : GitHubUrlInfo) (username : Text) (set add : Bool) {split : SplitResult}
      → rewritten_split urls info username set add ≡ ok split
      → (split.scheme ≡ info.split.scheme) × (split.path ≡ new_path urls info add)
  unfolding rewritten_split
  rewritten_split-kept info username set add r =
      let (netloc, first, next) = >>=-eq-ok (new_netloc urls username set info.split.netloc) _ r in
      (ap (λ s. s.scheme) (sym (ok-injective next)), ap (λ s. s.path) (sym (ok-injective next)))

  target_of :
      (url target username : Text) (set add : Bool) {info : GitHubUrlInfo} {split : SplitResult}
      → parse_github_https_url urls url ≡ ok (some info)
      → rewrite_github_https_url urls url username set add ≡ ok target
      → rewritten_split urls info username set add ≡ ok split
      → urls.urlunsplit split ≡ target
  unfolding rewrite_github_https_url rewrite_info
  target_of url target username set add {info} {split} h r s = by_test (set && username == []) given
    where
      given : rewrite_info urls url username set add (some info) ≡ ok target
      given = sym (ap (λ i. i >>= rewrite_info urls url username set add) h) ∙ r

      by_test :
          (test : Bool)
          → (if test then err username_required else (do
            split ← rewritten_split urls info username set add
            ok (urls.urlunsplit split)))
            ≡ ok target
          → urls.urlunsplit split ≡ target
      by_test true e = cc
      by_test false e =
          ok-injective (sym (ap (λ i. i >>= (λ split. ok (urls.urlunsplit split))) s) ∙ e)

  read_back :
      (url : Text) (split : SplitResult) (port : Option ℕ)
      → urls.urlsplit url ≡ ok split
      → is_github urls split ≡ true
      → urls.port split.netloc ≡ ok port
      → (port == none || port == some 443) ≡ true
      → parse_github_https_url urls url ≡ ok (info_of_parts urls url split (path_parts split.path))
  unfolding parse_github_https_url
  read_back url split port h g p a = rw (h, g, p, a) refl

  is_github-same :
      (split old : SplitResult)
      → split.scheme ≡ old.scheme
      → urls.hostname split.netloc ≡ urls.hostname old.netloc
      → is_github urls split ≡ is_github urls old
  unfolding is_github
  is_github-same split old s h = rw (s, h) refl

  -- The rewritten URL of a parsed one is read as the same owner and repository, with a suffix where
  -- it had one or one was to be added, if the parts that were joined are split again as they were and
  -- the new netloc has the host and the port of the old one.
  pub parse_github_https_url-rewrite_github_https_url :
      (url target username : Text) (set add : Bool) {info : GitHubUrlInfo} {split : SplitResult}
      → parse_github_https_url urls url ≡ ok (some info)
      → rewrite_github_https_url urls url username set add ≡ ok target
      → rewritten_split urls info username set add ≡ ok split
      → urls.urlsplit (urls.urlunsplit split) ≡ ok split
      → urls.hostname split.netloc ≡ urls.hostname info.split.netloc
      → urls.port split.netloc ≡ urls.port info.split.netloc
      → parse_github_https_url urls target ≡ ok (some (reread urls target split info add))
  parse_github_https_url-rewrite_github_https_url url target username set add {info} {split} h r s
        back host port =
      let q = parse_github_https_url-IsRead urls url h in
      let (scheme, path) = rewritten_split-kept info username set add s in
      let written = target_of url target username set add h r s in
      read_back target split q.port (ap urls.urlsplit (sym written) ∙ back)
        (is_github-same split info.split scheme host ∙ q.github) (port ∙ q.port_read) q.port_allowed
      ∙ ap (λ parts. ok (info_of_parts urls target split parts))
          (ap path_parts path ∙ new_parts info add q.parsed)
      ∙ ap ok (read_parts target split info add q.parsed)
