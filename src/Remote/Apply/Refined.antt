-- ===== src/Remote/Apply/Refined.antt =====
-- Applying a plan gives each remote its target URLs.
use tunnel2tunnel.Base.{
  Bool, true, false, ◌&&◌, some, List, [], ◌∷◌, ◌++◌, Text, ◌==◌, list_eq, nat_eq, if◌then◌else◌,
  map, ◌≡◌, refl, sym, ap, ◌∙◌, arith, All, contains, strip,
}
use mathlib.Core.Path.{subst}
use tunnel2tunnel.Base.Result.{
  Result, ok, err, ◌>>=◌, >>=-eq-ok, traverse, ok-injective, username_required,
}
use tunnel2tunnel.Remote.Url.{Urls}
use tunnel2tunnel.Remote.UrlSelection.{compute_target_url}
use tunnel2tunnel.Remote.Selection.{RemoteSelection, requires_username}
use tunnel2tunnel.Remote.Plan.{
  Command, ExecutionPlan, argv, Targets, commands_of, plan_of, targets_of, build_execution_plan,
}
use tunnel2tunnel.Remote.Discover.{GitRemotes, RemoteUrls}
use tunnel2tunnel.Remote.Apply.{IsLawful, apply_execution_plan, run_commands}
use tunnel2tunnel.Remote.Apply.Effects.{
  View, IsRead, IsPresent, effects, effects-append, other_effects, final_urls, commands-IsPresent,
  steps,
}

abbrev pub names : List RemoteSelection → List Text
names rs = map (λ r. r.name) rs

-- No two remotes have one name.
abbrev pub Distinct : List RemoteSelection → Type 0
Distinct [] = Unit
Distinct (r ∷ rs) = (contains (names rs) r.name ≡ false) × Distinct rs

moved-IsRead :
    (view after : View) (r : RemoteSelection)
    → after r.name ≡ view r.name
    → IsRead view r
    → IsRead after r
moved-IsRead view after r h k = record {
  now = k.now;
  is_there = h ∙ k.is_there;
  fetch_read = k.fetch_read;
  push_read = k.push_read;
  explicit_read = k.explicit_read;
  default_push = k.default_push;
}

IsPresent-append :
    (view : View) (cs ds : List Command)
    → All (IsPresent view) cs
    → All (IsPresent view) ds
    → All (IsPresent view) (cs ++ ds)
IsPresent-append view [] ds h k = k
IsPresent-append view (c ∷ cs) ds (one, rest) k = (one, IsPresent-append view cs ds rest k)

module _ (urls : Urls) (username : Text) where
  -- git has for the remote the URLs that are computed for it.
  pub record IsTarget (view : View) (r : RemoteSelection) : Type 0 where
    pub now : RemoteUrls
    pub is_there : view r.name ≡ some now
    pub fetch_set : compute_target_url urls r.fetch username ≡ ok now.fetch_url
    pub push_set : compute_target_url urls r.push username ≡ ok now.push_url

  targets_of-eq-ok :
      (r : RemoteSelection) {t : Targets}
      → targets_of urls username r ≡ ok t
      → (t.remote ≡ r)
        × (compute_target_url urls r.fetch username ≡ ok t.new_fetch)
        × (compute_target_url urls r.push username ≡ ok t.new_push)
  unfolding targets_of
  targets_of-eq-ok r {t} h =
      let (f, first, next) =
        >>=-eq-ok (compute_target_url urls r.fetch username)
          (λ f. do
            p ← compute_target_url urls r.push username
            ok (record { remote = r; new_fetch = f; new_push = p }))
          h in
      let (p, second, last) =
        >>=-eq-ok (compute_target_url urls r.push username)
          (λ p. ok (record { remote = r; new_fetch = f; new_push = p })) next in
      let same = ok-injective last in
      (
        sym (ap (λ t. t.remote) same),
        first ∙ ap (λ t. ok t.new_fetch) same,
        second ∙ ap (λ t. ok t.new_push) same,
      )

  moved-IsTarget :
      (view after : View) (r : RemoteSelection)
      → after r.name ≡ view r.name
      → IsTarget view r
      → IsTarget after r
  moved-IsTarget view after r h k = record {
    now = k.now;
    is_there = h ∙ k.is_there;
    fetch_set = k.fetch_set;
    push_set = k.push_set;
  }

  others-IsRead :
      (n : Text) (view after : View) (rs : List RemoteSelection)
      → contains (names rs) n ≡ false
      → ((m : Text) → (m == n) ≡ false → after m ≡ view m)
      → All (IsRead view) rs
      → All (IsRead after) rs
  others-IsRead n view after [] h same k = tt
  others-IsRead n view after (r ∷ rs) h same (one, rest) = (
    moved-IsRead view after r (same r.name (ground arith)) one,
    others-IsRead n view after rs (ground arith) same rest,
  )

  -- What the commands of a plan do.
  record IsDone (view : View) (rs : List RemoteSelection) (ts : List Targets) : Type 0 where
    pub present : (v : View) → All (IsRead v) rs → All (IsPresent v) (plan_of ts).commands
    pub reached : All (IsTarget (effects (plan_of ts).commands view)) rs
    pub others :
        (n : Text) → contains (names rs) n ≡ false → effects (plan_of ts).commands view n ≡ view n

  -- The first remote's commands, and then those of the others.
  first-IsDone :
      (view : View) (r : RemoteSelection) (rs : List RemoteSelection) (t : Targets)
      (ts : List Targets)
      → targets_of urls username r ≡ ok t
      → contains (names rs) r.name ≡ false
      → IsRead view r
      → IsDone (effects (commands_of t) view) rs ts
      → IsDone view (r ∷ rs) (t ∷ ts)
  unfolding plan_of
  first-IsDone view r rs t ts h fresh read rest =
      let (remote_eq, fetch_eq, push_eq) = targets_of-eq-ok r h in
      let (w, there, fetch_is, push_is) =
        final_urls t view (subst (IsRead view) (sym remote_eq) read) in
      let split = effects-append (commands_of t) (plan_of ts).commands view in
      let own = ap (λ x. effects (commands_of t) view x.name) (sym remote_eq) ∙ there in
      let head : IsTarget (effects (plan_of ts).commands (effects (commands_of t) view)) r =
        record {
          now = w;
          is_there = rest.others r.name fresh ∙ own;
          fetch_set = fetch_eq ∙ ap ok (sym fetch_is);
          push_set = push_eq ∙ ap ok (sym push_is);
        } in
      record {
        present = λ v k.
            IsPresent-append v (commands_of t) (plan_of ts).commands
              (commands-IsPresent t v (subst (IsRead v) (sym remote_eq) k.0)) (rest.present v k.1);
        reached = subst (λ v. All (IsTarget v) (r ∷ rs)) (sym split) (head, rest.reached);
        others = λ n k.
            ap (λ v. v n) split
            ∙ (rest.others n (ground (arith, k))
                ∙ other_effects t view n (ground (arith, k, remote_eq)));
      }

  All-IsDone :
      (view : View) (rs : List RemoteSelection) {ts : List Targets}
      → traverse (targets_of urls username) rs ≡ ok ts
      → Distinct rs
      → All (IsRead view) rs
      → IsDone view rs ts
  unfolding traverse plan_of
  All-IsDone view [] h distinct read =
      subst (IsDone view []) (ok-injective h)
        (record { present = λ v k. tt; reached = tt; others = λ n k. refl })
  All-IsDone view (r ∷ rs) {ts} h (fresh, distinct) (one, read) =
      let (t, first, next) =
        >>=-eq-ok (targets_of urls username r)
          (λ t. do ts ← traverse (targets_of urls username) rs; ok (t ∷ ts)) h in
      let (others, rest, last) =
        >>=-eq-ok (traverse (targets_of urls username) rs) (λ ts. ok (t ∷ ts)) next in
      let remote_eq = (targets_of-eq-ok r first).0 in
      let kept =
        others-IsRead r.name view (effects (commands_of t) view) rs fresh
          (λ m k. other_effects t view m (rw remote_eq k)) read in
      subst (IsDone view (r ∷ rs)) (ok-injective last) (
        first-IsDone view r rs t others first fresh one
          (All-IsDone (effects (commands_of t) view) rs rest distinct kept))

planned :
    (refused : Bool) (found : Result (List Targets)) {plan : ExecutionPlan}
    → (if refused then err username_required else (do ts ← found; ok (plan_of ts))) ≡ ok plan
    → (ts : List Targets) × (found ≡ ok ts) × (plan_of ts ≡ plan)
planned true found h = cc
planned false found h =
    let (ts, first, last) = >>=-eq-ok found (λ ts. ok (plan_of ts)) h in
    (ts, first, ok-injective last)

-- The plan does what it is made for. If the remotes have different names, are read as git has them,
-- and push to the fetch URL where no push URL is set, and if a plan is built for them, then git runs all
-- its commands. Behind them each remote has the fetch URL and the push URL that are computed for
-- it, and no other remote has changed.
pub apply_execution_plan-build_execution_plan :
    (git : GitRemotes)
    → IsLawful git
    → (urls : Urls) (remotes : List RemoteSelection) (username : Text) (config : git.Config)
      {plan : ExecutionPlan}
    → Distinct remotes
    → All (IsRead (git.urls_of config)) remotes
    → build_execution_plan urls remotes username ≡ ok plan
    → (after : git.Config) × (apply_execution_plan git plan config ≡ (ok tt, after))
      × All (IsTarget urls (strip username) (git.urls_of after)) remotes
      × ((n : Text)
          → contains (names remotes) n ≡ false
          → git.urls_of after n ≡ git.urls_of config n)
unfolding build_execution_plan apply_execution_plan
apply_execution_plan-build_execution_plan git lawful urls remotes username config {plan} distinct
      read h =
    let user = strip username in
    let (ts, found, same) =
      planned (requires_username remotes && user == []) (traverse (targets_of urls user) remotes)
        h in
    let done = All-IsDone urls user (git.urls_of config) remotes found distinct read in
    let (after, ran, view) =
      steps git lawful (plan_of ts).commands config (done.present (git.urls_of config) read) in
    (
      after,
      subst (λ p. run_commands git (map argv p.commands) config ≡ (ok tt, after)) same ran,
      subst (λ v. All (IsTarget urls user v) remotes) (sym view) done.reached,
      λ n k. ap (λ v. v n) view ∙ done.others n k,
    )
