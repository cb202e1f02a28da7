-- ===== src/Remote/Apply/Effects.antt =====
-- What the commands of one remote do to the URLs of the remotes, and a run of them by git.
use tunnel2tunnel.Base.{
  Bool, true, false, not, Option, none, some, List, [], ◌∷◌, ◌++◌, Text, ◌==◌, list_eq, nat_eq,
  option_eq, if◌then◌else◌, map, ◌≡◌, refl, sym, ap, ◌∙◌, arith, All, Bool-cases, inl, inr,
}
use tunnel2tunnel.Base.Result.{ok}
use mathlib.Core.Path.{subst}
use tunnel2tunnel.Base.Exec
use tunnel2tunnel.Base.Exec.{Exec, pure, resumed}
use tunnel2tunnel.Remote.Selection.{RemoteSelection}
use tunnel2tunnel.Remote.Plan.{
  Command, argv, set_url, set_push_url, Targets, commands_of, old_fetch, old_push, when,
}
use tunnel2tunnel.Remote.Discover.{GitRemotes, RemoteUrls}
use tunnel2tunnel.Remote.Apply.{IsLawful, with_url, with_push_url, run_commands}

-- What a command makes of the URLs of the remotes, by the documented behaviour.
abbrev pub View : Type 0
View = Text → Option RemoteUrls

abbrev changed : (RemoteUrls → RemoteUrls) → Option RemoteUrls → Option RemoteUrls
changed f none = none
changed f (some now) = some (f now)

abbrev effect : Command → View → View
effect (set_url name url) view n = if n == name then changed (with_url url) (view n) else view n
effect (set_push_url name url) view n =
    if n == name then changed (with_push_url url) (view n) else view n

abbrev pub effects : List Command → View → View
effects [] view = view
effects (c ∷ cs) view = effects cs (effect c view)

abbrev command_name : Command → Text
command_name (set_url name url) = name
command_name (set_push_url name url) = name

-- The remote of each command is there.
abbrev pub IsPresent : View → Command → Type 0
IsPresent view c = (now : RemoteUrls) × (view (command_name c) ≡ some now)

IsPresent-effect : (c d : Command) (view : View) → IsPresent view c → IsPresent (effect d view) c
IsPresent-effect c (set_url name url) view (now, h) = elim (Bool-cases (command_name c == name)) [
  | inl p ↦ (with_url url now, ground (arith, p, h))
  | inr p ↦ (now, ground (arith, p, h))
]
IsPresent-effect c (set_push_url name url) view (now, h) =
    elim (Bool-cases (command_name c == name)) [
      | inl p ↦ (with_push_url url now, ground (arith, p, h))
      | inr p ↦ (now, ground (arith, p, h))
    ]

pub All-IsPresent-effect :
    (cs : List Command) (d : Command) (view : View)
    → All (IsPresent view) cs
    → All (IsPresent (effect d view)) cs
All-IsPresent-effect [] d view h = h
All-IsPresent-effect (c ∷ cs) d view h =
    (IsPresent-effect c d view h.0, All-IsPresent-effect cs d view h.1)

pub effects-append :
    (cs ds : List Command) (view : View) → effects (cs ++ ds) view ≡ effects ds (effects cs view)
effects-append [] ds view = refl
effects-append (c ∷ cs) ds view = effects-append cs ds (effect c view)

-- The remote is read as git has it, and git has for it the fetch URL as its push URL if no other is set.
pub record IsRead (view : View) (r : RemoteSelection) : Type 0 where
  pub now : RemoteUrls
  pub is_there : view r.name ≡ some now
  pub fetch_read : r.fetch.original_url ≡ now.fetch_url
  pub push_read : r.push.original_url ≡ now.push_url
  pub explicit_read : r.push_is_explicit ≡ now.push_is_set
  pub default_push : now.push_is_set ≡ false → now.push_url ≡ now.fetch_url

-- git has the target URLs.
pub record IsReached (t : Targets) (view : View) : Type 0 where
  pub now : RemoteUrls
  pub is_there : view t.remote.name ≡ some now
  pub fetch_set : now.fetch_url ≡ t.new_fetch
  pub push_set : now.push_url ≡ t.new_push

-- Whether the push URL is set.
abbrev sets_push : Targets → Bool
sets_push t =
    if t.remote.push_is_explicit
    then not (t.new_push == old_push t)
    else not (t.new_push == t.new_fetch)

commands_shape :
    (t : Targets)
    → commands_of t
      ≡ when (not (t.new_fetch == old_fetch t)) (set_url t.remote.name t.new_fetch)
        ++ when (sets_push t) (set_push_url t.remote.name t.new_push)
unfolding commands_of
commands_shape t = ground arith

module _ (name : Text) (f p : Text) (view : View) where
  abbrev pair : Bool → Bool → List Command
  pair a b = when a (set_url name f) ++ when b (set_push_url name p)

  pair_other : (a b : Bool) (n : Text) → (n == name) ≡ false → effects (pair a b) view n ≡ view n
  pair_other true true n h = ground arith
  pair_other true false n h = ground arith
  pair_other false true n h = ground arith
  pair_other false false n h = refl

  pair_own :
      (a b : Bool) (now : RemoteUrls)
      → view name ≡ some now
      → effects (pair a b) view name
        ≡ some (
            if b
            then with_push_url p (if a then with_url f now else now)
            else if a
            then with_url f now
            else now)
  pair_own true true now h = ground arith
  pair_own true false now h = ground arith
  pair_own false true now h = ground arith
  pair_own false false now h = h

  pair-IsPresent :
      (a b : Bool) (now : RemoteUrls) → view name ≡ some now → All (IsPresent view) (pair a b)
  pair-IsPresent true true now h = ((now, h), ((now, h), tt))
  pair-IsPresent true false now h = ((now, h), tt)
  pair-IsPresent false true now h = ((now, h), tt)
  pair-IsPresent false false now h = tt

pub other_effects :
    (t : Targets) (view : View) (n : Text)
    → (n == t.remote.name) ≡ false
    → effects (commands_of t) view n ≡ view n
other_effects t view n h = rw (
  commands_shape t,
  pair_other t.remote.name t.new_fetch t.new_push view (not (t.new_fetch == old_fetch t))
      (sets_push t) n h,
)

pub final_urls :
    (t : Targets) (view : View) (r : IsRead view t.remote)
    → (w : RemoteUrls) × (effects (commands_of t) view t.remote.name ≡ some w)
      × (w.fetch_url ≡ t.new_fetch)
      × (w.push_url ≡ t.new_push)
final_urls t view r =
    let a = not (t.new_fetch == old_fetch t) in
    let moved = if a then with_url t.new_fetch r.now else r.now in
    (
      if sets_push t then with_push_url t.new_push moved else moved,
      rw (
        commands_shape t,
        pair_own t.remote.name t.new_fetch t.new_push view a (sets_push t) r.now r.is_there,
      ),
      ground (arith, r.fetch_read, r.push_read, r.explicit_read, r.default_push),
      ground (arith, r.fetch_read, r.push_read, r.explicit_read, r.default_push),
    )

pub commands-IsPresent :
    (t : Targets) (view : View) → IsRead view t.remote → All (IsPresent view) (commands_of t)
commands-IsPresent t view r = rw (commands_shape t) (
    pair-IsPresent t.remote.name t.new_fetch t.new_push view (not (t.new_fetch == old_fetch t))
      (sets_push t) r.now r.is_there)

url_effect :
    (name url : Text) (view : View) (now : RemoteUrls) (n : Text)
    → view name ≡ some now
    → (if n == name then some (with_url url now) else view n) ≡ effect (set_url name url) view n
url_effect name url view now n h = ground (arith, h)

push_effect :
    (name url : Text) (view : View) (now : RemoteUrls) (n : Text)
    → view name ≡ some now
    → (if n == name then some (with_push_url url now) else view n)
      ≡ effect (set_push_url name url) view n
push_effect name url view now n h = ground (arith, h)

module _ (git : GitRemotes) (lawful : IsLawful git) where
  step :
      (c : Command) (config : git.Config)
      → IsPresent (git.urls_of config) c
      → (after : git.Config) × (git.run_command (argv c) config ≡ (ok tt, after))
        × (git.urls_of after ≡ effect c (git.urls_of config))
  step (set_url name url) config (now, h) =
      let (after, ran, sets) = lawful.run-set_url config name url h in
      (after, ran, λ i n. (sets n ∙ url_effect name url (git.urls_of config) now n h) i)
  step (set_push_url name url) config (now, h) =
      let (after, ran, sets) = lawful.run-set_push_url config name url h in
      (after, ran, λ i n. (sets n ∙ push_effect name url (git.urls_of config) now n h) i)

  -- Commands on remotes that are there all run, and have the effects that are documented.
  pub steps :
      (cs : List Command) (config : git.Config)
      → All (IsPresent (git.urls_of config)) cs
      → (after : git.Config) × (run_commands git (map argv cs) config ≡ (ok tt, after))
        × (git.urls_of after ≡ effects cs (git.urls_of config))
  unfolding run_commands pure Exec.◌>>=◌
  steps [] config h = (config, refl, refl)
  steps (c ∷ cs) config (one, rest) =
      let (middle, ran, moved) = step c config one in
      let (after, ran_rest, view) = steps cs middle (
        subst (λ v. All (IsPresent v) cs) (sym moved)
          (All-IsPresent-effect cs c (git.urls_of config) rest)) in
      (after, rw (ran) ran_rest, view ∙ ap (effects cs) moved)
