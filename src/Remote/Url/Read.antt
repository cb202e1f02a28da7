-- ===== src/Remote/Url/Read.antt =====
-- What is known of a URL that was parsed.
use tunnel2tunnel.Base.{
  ℕ, ◌-◌, Bool, true, false, not, ◌||◌, Option, none, some, List, [], ◌∷◌, Text, ◌==◌, list_eq,
  nat_eq, option_eq, if◌then◌else◌, ends_with, length, lacks, all, ◌≡◌, refl, ap, sym, ◌∙◌, arith,
  all-keep_if, lacks-split_on, split_on,
}
use mathlib.Core.Path.{subst}
use mathlib.Core.Option.{some-injective}
use tunnel2tunnel.Base.Result.{ok, ◌>>=◌, >>=-eq-ok, ok-injective}
use tunnel2tunnel.Remote.Url.{
  GitHubUrlInfo, SplitResult, Urls, git_suffix, repo_name, path_parts, path_of, info_of_parts,
  is_github, parse_github_https_url,
}
use tunnel2tunnel.Remote.Url.Parts.{lacks-take}

-- What the parts of a path give.
pub record IsParsed (split : SplitResult) (info : GitHubUrlInfo) : Type 0 where
  pub owner_lacks : lacks b'/' info.owner ≡ true
  pub repo_lacks : lacks b'/' info.repo ≡ true
  pub owner_some : (info.owner == []) ≡ false
  pub repo_some : (info.repo == []) ≡ false
  pub path_is : info.path_without_suffix ≡ path_of info.owner info.repo
  pub plain : info.has_git_suffix ≡ false → ends_with info.repo git_suffix ≡ false
  pub split_is : info.split ≡ split

lacks-repo_name : (repo : Text) → lacks b'/' repo ≡ true → lacks b'/' (repo_name repo) ≡ true
unfolding repo_name
lacks-repo_name repo h = ground (arith, lacks-take b'/' (length repo - 4) repo h)

slashless : (path : Text) → all (lacks b'/') (path_parts path) ≡ true
unfolding path_parts
slashless path =
    all-keep_if (lacks b'/') (λ part. not (part == [])) (split_on b'/' path)
      (lacks-split_on b'/' path)

plain_name :
    (repo : Text)
    → ends_with repo git_suffix ≡ false
    → ends_with (repo_name repo) git_suffix ≡ false
unfolding repo_name
plain_name repo h = ground (arith, h)

module _ (urls : Urls) where
  info_of_parts-IsParsed :
      (url : Text) (split : SplitResult) (parts : List Text) {info : GitHubUrlInfo}
      → all (lacks b'/') parts ≡ true
      → info_of_parts urls url split parts ≡ some info
      → IsParsed split info
  unfolding info_of_parts
  info_of_parts-IsParsed url split [] h k = cc
  info_of_parts-IsParsed url split (owner ∷ []) h k = cc
  info_of_parts-IsParsed url split (owner ∷ repo ∷ third ∷ rest) h k = cc
  info_of_parts-IsParsed url split (owner ∷ repo ∷ []) {info} h k =
      by_test (owner == [] || repo == [] || repo_name repo == []) refl k
    where
      found : GitHubUrlInfo
      found = record {
        original_url = url;
        split = split;
        username = urls.username split.netloc;
        owner = owner;
        repo = repo_name repo;
        path_without_suffix = path_of owner (repo_name repo);
        has_git_suffix = ends_with repo git_suffix;
      }

      by_test :
          (test : Bool)
          → (owner == [] || repo == [] || repo_name repo == []) ≡ test
          → (if test then none else some found) ≡ some info
          → IsParsed split info
      by_test true t e = cc
      by_test false t e = subst (IsParsed split) (some-injective found info e) (record {
        owner_lacks = ground arith;
        repo_lacks = lacks-repo_name repo (ground arith);
        owner_some = ground (arith, t);
        repo_some = ground (arith, t);
        path_is = refl;
        plain = λ p. plain_name repo p;
        split_is = refl;
      })

  -- A parsed URL is of GitHub, has no other port, and has the parts of its path.
  pub record IsRead (url : Text) (info : GitHubUrlInfo) : Type 0 where
    pub parsed : IsParsed info.split info
    pub github : is_github urls info.split ≡ true
    pub port : Option ℕ
    pub port_read : urls.port info.split.netloc ≡ ok port
    pub port_allowed : (port == none || port == some 443) ≡ true

  pub parse_github_https_url-IsRead :
      (url : Text) {info : GitHubUrlInfo}
      → parse_github_https_url urls url ≡ ok (some info)
      → IsRead url info
  unfolding parse_github_https_url
  parse_github_https_url-IsRead url {info} h =
      let (split, first, next) = >>=-eq-ok (urls.urlsplit url) _ h in
      by_host split (is_github urls split) refl next
    where
      by_port :
          (split : SplitResult) (port : Option ℕ) (test : Bool)
          → is_github urls split ≡ true
          → urls.port split.netloc ≡ ok port
          → (port == none || port == some 443) ≡ test
          → ok (if test then info_of_parts urls url split (path_parts split.path) else none)
            ≡ ok (some info)
          → IsRead url info
      by_port split port false g p t e = cc
      by_port split port true g p t e =
          let q =
            info_of_parts-IsParsed url split (path_parts split.path) (slashless split.path)
              (ok-injective e) in
          record {
            parsed = subst (λ s. IsParsed s info) (sym q.split_is) q;
            github = ap (is_github urls) q.split_is ∙ g;
            port = port;
            port_read = ap (λ s. urls.port s.netloc) q.split_is ∙ p;
            port_allowed = t;
          }

      by_host :
          (split : SplitResult) (github : Bool)
          → is_github urls split ≡ github
          → (if not github then ok none else (do
            port ← urls.port split.netloc
            ok (
                if port == none || port == some 443
                then info_of_parts urls url split (path_parts split.path)
                else none)))
            ≡ ok (some info)
          → IsRead url info
      by_host split false g e = cc
      by_host split true g e =
          let (port, p, last) = >>=-eq-ok (urls.port split.netloc) _ e in
          by_port split port (port == none || port == some 443) g p refl last
