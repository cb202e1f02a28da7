-- ===== src/Tests/Urls.antt =====
-- The URL of the remote, rewritten and read again.
use tunnel2tunnel.Base.{
  true, some, codes, ◌≡◌, refl, list_eq, nat_eq, option_eq, after_prefix, break_at, ends_with,
  starts_with, split_on,
}
use native.Mathlib.Decide.{ℕ_discrete}
use tunnel2tunnel.Base.Result.{ok}
use tunnel2tunnel.Remote.Url.{
  SplitResult, rewrite_github_https_url, parse_github_https_url, is_github, or_default,
  rewrite_info, info_of_parts, path_parts, repo_name, rewritten_split, new_netloc, with_port,
  new_path, path_of,
}
use tunnel2tunnel.Remote.Url.Rewrite.{reread, parse_github_https_url-rewrite_github_https_url}
use tunnel2tunnel.Tests.Remote.{simple_urls, old_url, new_url, info, urlsplit_simple}

abbrev new_split : SplitResult
new_split = urlsplit_simple (some (codes "me@github.com/o/r.git"))

parsed : parse_github_https_url simple_urls old_url ≡ ok (some info)
unfolding parse_github_https_url is_github or_default info_of_parts path_parts split_on repo_name
    ends_with starts_with path_of codes list_eq ℕ_discrete option_eq after_prefix break_at
parsed = refl

rewritten : rewrite_github_https_url simple_urls old_url (codes "me") true true ≡ ok new_url
unfolding rewrite_github_https_url rewrite_info rewritten_split new_netloc with_port new_path
    parse_github_https_url is_github or_default info_of_parts path_parts split_on repo_name
    ends_with starts_with path_of codes list_eq ℕ_discrete option_eq after_prefix break_at
rewritten = refl

split_rewritten : rewritten_split simple_urls info (codes "me") true true ≡ ok new_split
unfolding rewritten_split new_netloc with_port new_path or_default codes list_eq ℕ_discrete break_at
    after_prefix
split_rewritten = refl

split_back : simple_urls.urlsplit (simple_urls.urlunsplit new_split) ≡ ok new_split
unfolding codes list_eq ℕ_discrete break_at after_prefix
split_back = refl

same_host : simple_urls.hostname new_split.netloc ≡ simple_urls.hostname info.split.netloc
unfolding codes list_eq ℕ_discrete break_at
same_host = refl

parse_github_https_url-rewrite_github_https_url_example :
    parse_github_https_url simple_urls new_url
    ≡ ok (some (reread simple_urls new_url new_split info true))
parse_github_https_url-rewrite_github_https_url_example =
    parse_github_https_url-rewrite_github_https_url simple_urls old_url new_url (codes "me") true
      true parsed rewritten split_rewritten split_back same_host refl
