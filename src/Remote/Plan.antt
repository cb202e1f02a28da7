-- ===== src/Remote/Plan.antt =====
-- What is to be changed: the previews, and the git commands that make the changes.
use tunnel2tunnel.Base.{
  Bool, not, ◌&&◌, List, [], ◌∷◌, ◌++◌, Text, codes, ◌==◌, list_eq, nat_eq, if◌then◌else◌, strip,
}
use tunnel2tunnel.Base.Result.{Result, ok, err, username_required, ◌>>=◌, traverse}
use tunnel2tunnel.Remote.Url.{Urls}
use tunnel2tunnel.Remote.UrlSelection.{UrlKind, fetch, push, compute_target_url}
use tunnel2tunnel.Remote.Selection.{RemoteSelection, requires_username}

pub record UrlPreview : Type 0 where
  pub remote_name : Text
  pub kind : UrlKind
  pub old_url : Text
  pub new_url : Text

-- The commands of a plan; `argv` writes them out.
pub data Command : Type 0 where
  set_url set_push_url : Text → Text → Command

unfoldable pub argv : Command → List Text
argv (set_url name url) = codes "git" ∷ codes "remote" ∷ codes "set-url" ∷ name ∷ url ∷ []
argv (set_push_url name url) =
    codes "git" ∷ codes "remote" ∷ codes "set-url" ∷ codes "--push" ∷ name ∷ url ∷ []

pub record ExecutionPlan : Type 0 where
  pub previews : List UrlPreview
  pub commands : List Command

-- The URLs that are computed for one remote.
pub record Targets : Type 0 where
  pub remote : RemoteSelection
  pub new_fetch : Text
  pub new_push : Text

abbrev pub when {ℓ} : {A : Type ℓ} → Bool → A → List A
when test item = if test then item ∷ [] else []

abbrev pub old_fetch : Targets → Text
old_fetch t = t.remote.fetch.original_url

abbrev pub old_push : Targets → Text
old_push t = t.remote.push.original_url

unfoldable pub previews_of : Targets → List UrlPreview
previews_of t =
    when (not (t.new_fetch == old_fetch t)) (record {
      remote_name = t.remote.name;
      kind = fetch;
      old_url = old_fetch t;
      new_url = t.new_fetch;
    })
    ++ when (not (t.new_push == old_push t)) (record {
      remote_name = t.remote.name;
      kind = push;
      old_url = old_push t;
      new_url = t.new_push;
    })

unfoldable pub commands_of : Targets → List Command
commands_of t =
    let fetch_command =
      when (not (t.new_fetch == old_fetch t)) (set_url t.remote.name t.new_fetch) in
    if t.remote.push_is_explicit
    then fetch_command
      ++ when (not (t.new_push == old_push t)) (set_push_url t.remote.name t.new_push)
    else if t.new_fetch == t.new_push
    then fetch_command
    else fetch_command
      ++ when (not (t.new_push == t.new_fetch)) (set_push_url t.remote.name t.new_push)

unfoldable pub plan_of : List Targets → ExecutionPlan
plan_of [] = record { previews = []; commands = [] }
plan_of (t ∷ ts) =
    let rest = plan_of ts in
    record { previews = previews_of t ++ rest.previews; commands = commands_of t ++ rest.commands }

module _ (urls : Urls) where
  unfoldable pub targets_of : Text → RemoteSelection → Result Targets
  targets_of username remote = do
    new_fetch ← compute_target_url urls remote.fetch username
    new_push ← compute_target_url urls remote.push username
    ok (record { remote = remote; new_fetch = new_fetch; new_push = new_push })

  unfoldable pub build_execution_plan : List RemoteSelection → Text → Result ExecutionPlan
  build_execution_plan remotes raw_username =
      let username = strip raw_username in
      if requires_username remotes && username == []
      then err username_required
      else (do targets ← traverse (targets_of username) remotes; ok (plan_of targets))
