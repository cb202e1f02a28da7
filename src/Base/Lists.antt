-- ===== src/Base/Lists.antt =====
-- Lists measured by native numbers, Boolean quantifiers that run, and the lines of a text.
use Prim.Native.Nat.{ℕ, zero, suc, ◌+◌, ◌-◌, ◌≤◌}
use mathlib.Core.Path.{◌≡◌, refl, ap}
use mathlib.Core.Bool.{Bool, true, false, not, ◌&&◌, ◌||◌}
use mathlib.Core.Option.{Option, none, some}
use mathlib.Core.List.{List, [], ◌∷◌, ◌++◌, map}
use native.Mathlib.Omega.{arith}
use tunnel2tunnel.Base.Equality.{Text, ◌==◌, contains, if◌then◌else◌, nat_eq, list_eq}
use tunnel2tunnel.Base.Strings.{leb}

module _ {ℓ} {A : Type ℓ} where
  abbrev pub length : List A → ℕ
  length [] = 0
  length (x ∷ xs) = suc (length xs)

  abbrev pub take : ℕ → List A → List A
  take zero xs = []
  take (suc n) [] = []
  take (suc n) (x ∷ xs) = x ∷ take n xs

  abbrev pub drop : ℕ → List A → List A
  drop zero xs = xs
  drop (suc n) [] = []
  drop (suc n) (x ∷ xs) = drop n xs

  abbrev pub any : (A → Bool) → List A → Bool
  any p [] = false
  any p (x ∷ xs) = p x || any p xs

  abbrev pub all : (A → Bool) → List A → Bool
  all p [] = true
  all p (x ∷ xs) = p x && all p xs

  -- `[x for x in xs if p(x)]`
  abbrev pub keep_if : (A → Bool) → List A → List A
  keep_if p [] = []
  keep_if p (x ∷ xs) = let rest = keep_if p xs in if p x then x ∷ rest else rest

  abbrev pub last? : List A → Option A
  last? [] = none
  last? (x ∷ []) = some x
  last? (x ∷ y ∷ xs) = last? (y ∷ xs)

  abbrev pub All {κ} : (A → Type κ) → List A → Type κ
  All P [] = Unit
  All P (x ∷ xs) = P x × All P xs

  pub length-append : (xs ys : List A) → length (xs ++ ys) ≡ length xs + length ys
  length-append [] ys = omega arith
  length-append (x ∷ xs) ys = omega (arith, length-append xs ys)

  pub any-append : (p : A → Bool) (xs ys : List A) → any p (xs ++ ys) ≡ (any p xs || any p ys)
  any-append p [] ys = refl
  any-append p (x ∷ xs) ys = ground (arith, any-append p xs ys)

  pub any-not : (p : A → Bool) (xs : List A) → any (λ x. not (p x)) xs ≡ not (all p xs)
  any-not p [] = refl
  any-not p (x ∷ xs) = ground (arith, any-not p xs)

  pub all-not : (p : A → Bool) (xs : List A) → all (λ x. not (p x)) xs ≡ not (any p xs)
  all-not p [] = refl
  all-not p (x ∷ xs) = ground (arith, all-not p xs)

-- `xs.sort(key=…)`, for the comparison of the keys; equal keys keep their order.
unfoldable pub insert_by {ℓ} : {A : Type ℓ} → (A → A → Bool) → A → List A → List A
insert_by le x [] = x ∷ []
insert_by le x (y ∷ ys) = let rest = insert_by le x ys in if le x y then x ∷ y ∷ ys else y ∷ rest

unfoldable pub sort_by {ℓ} : {A : Type ℓ} → (A → A → Bool) → List A → List A
sort_by le [] = []
sort_by le (x ∷ xs) = insert_by le x (sort_by le xs)

-- A line boundary of `str.splitlines`.
unfoldable pub is_break : ℕ → Bool
is_break c = (leb 10 c && leb c 13) || (leb 28 c && leb c 30) || contains (133 ∷ 8232 ∷ 8233 ∷ []) c

abbrev pub cons_first : ℕ → List Text → List Text
cons_first c [] = (c ∷ []) ∷ []
cons_first c (l ∷ ls) = (c ∷ l) ∷ ls

-- `s.split(sep)` for a separator of one character.
unfoldable pub split_on : ℕ → Text → List Text
split_on sep [] = [] ∷ []
split_on sep (c ∷ s) =
    let rest = split_on sep s in if c == sep then [] ∷ rest else cons_first c rest

abbrev begins_with_newline : Text → Bool
begins_with_newline [] = false
begins_with_newline (c ∷ s) = c == 10

-- `s.splitlines(keepends=True)`; "\r\n" is one boundary.
unfoldable pub lines_keep : Text → List Text
lines_keep [] = []
lines_keep (c ∷ s) =
    let rest = lines_keep s in
    if is_break c && not (c == 13 && begins_with_newline s)
    then (c ∷ []) ∷ rest
    else cons_first c rest

unfoldable pub drop_break : Text → Text
drop_break [] = []
drop_break (c ∷ s) = let rest = drop_break s in if is_break c then [] else c ∷ rest

-- `s.splitlines()`
unfoldable pub splitlines : Text → List Text
splitlines s = map drop_break (lines_keep s)

-- `sep.join(parts)`
unfoldable pub join : Text → List Text → Text
join sep [] = []
join sep (p ∷ []) = p
join sep (p ∷ q ∷ ps) = p ++ (sep ++ join sep (q ∷ ps))

-- `"".join(parts)`
abbrev pub concat : List Text → Text
concat [] = []
concat (p ∷ ps) = p ++ concat ps

pub concat-cons_first : (c : ℕ) (ls : List Text) → concat (cons_first c ls) ≡ c ∷ concat ls
concat-cons_first c [] = refl
concat-cons_first c (l ∷ ls) = refl

-- Splitting with the line ends kept loses nothing.
pub concat-lines_keep : (s : Text) → concat (lines_keep s) ≡ s
unfolding lines_keep
concat-lines_keep [] = refl
concat-lines_keep (c ∷ s) = ground (arith, concat-lines_keep s, concat-cons_first c (lines_keep s))

-- No character of the text is the separator.
abbrev pub lacks : ℕ → Text → Bool
lacks sep [] = true
lacks sep (c ∷ s) = not (c == sep) && lacks sep s

pub split_on-lacks : (sep : ℕ) (s : Text) → lacks sep s ≡ true → split_on sep s ≡ s ∷ []
unfolding split_on
split_on-lacks sep [] h = refl
split_on-lacks sep (c ∷ s) h = ground (arith, split_on-lacks sep s)

pub split_on-append :
    (sep : ℕ) (p s : Text) → lacks sep p ≡ true → split_on sep (p ++ (sep ∷ s)) ≡ p ∷ split_on sep s
unfolding split_on
split_on-append sep [] s h = ground arith
split_on-append sep (c ∷ p) s h = ground (arith, split_on-append sep p s)

lacks-cons_first :
    (sep c : ℕ) (ls : List Text)
    → (c == sep) ≡ false
    → all (lacks sep) ls ≡ true
    → all (lacks sep) (cons_first c ls) ≡ true
lacks-cons_first sep c [] h k = ground arith
lacks-cons_first sep c (l ∷ ls) h k = ground arith

pub lacks-split_on : (sep : ℕ) (s : Text) → all (lacks sep) (split_on sep s) ≡ true
unfolding split_on
lacks-split_on sep [] = refl
lacks-split_on sep (c ∷ s) =
    ground (arith, lacks-split_on sep s, lacks-cons_first sep c (split_on sep s))

pub all-keep_if {ℓ} :
    {A : Type ℓ} (p q : A → Bool) (xs : List A) → all p xs ≡ true → all p (keep_if q xs) ≡ true
all-keep_if p q [] h = refl
all-keep_if p q (x ∷ xs) h = ground (arith, all-keep_if p q xs)

pub all-keep_if_same {ℓ} : {A : Type ℓ} (q : A → Bool) (xs : List A) → all q (keep_if q xs) ≡ true
all-keep_if_same q [] = refl
all-keep_if_same q (x ∷ xs) = ground (arith, all-keep_if_same q xs)

pub take-append {ℓ} : {A : Type ℓ} (xs ys : List A) → take (length xs) (xs ++ ys) ≡ xs
take-append [] ys = refl
take-append (x ∷ xs) ys = ap (λ zs. x ∷ zs) (take-append xs ys)

pub length-take {ℓ} : {A : Type ℓ} (n : ℕ) (xs : List A) → n ≤ length xs → length (take n xs) ≡ n
length-take zero xs h = refl
length-take (suc n) [] h = omega (arith, h)
length-take (suc n) (x ∷ xs) h = ap suc (length-take n xs (omega (arith, h)))

pub length-drop {ℓ} : {A : Type ℓ} (n : ℕ) (xs : List A) → length (drop n xs) ≡ length xs - n
length-drop zero xs = omega arith
length-drop (suc n) [] = omega arith
length-drop (suc n) (x ∷ xs) = omega (arith, length-drop n xs)
