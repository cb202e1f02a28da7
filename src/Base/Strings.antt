-- ===== src/Base/Strings.antt =====
-- The methods of Python's `str` that the program uses, over code points.
use Prim.Native.Nat.{ℕ, compare, Ordering}
use Prim.Native.Char.{code}
use Prim.Native.String.{String}
use mathlib.Core.Path.{◌≡◌, refl}
use mathlib.Core.Logic.{◌≢◌}
use mathlib.Core.Bool.{Bool, true, false, ◌&&◌, ◌||◌}
use mathlib.Core.Option.{Option, none, some}
use mathlib.Core.List.{[], ◌∷◌, ◌++◌, reverse}
use native.Mathlib.Omega.{arith}
use tunnel2tunnel.Base.Equality.{Text, ◌==◌, contains, if◌then◌else◌, nat_eq, list_eq}

-- A literal of the source.
unfoldable pub codes : String → Text
codes String.[] = []
codes (String.◌∷◌ c s) = code c ∷ codes s

abbrev pub leb : ℕ → ℕ → Bool
leb a b = elim (compare a b) [ Ordering.gt ↦ false | _ ↦ true ]

abbrev pub ltb : ℕ → ℕ → Bool
ltb a b = elim (compare a b) [ Ordering.lt ↦ true | _ ↦ false ]

abbrev pub newline : ℕ
newline = 10

-- `str.isspace` of one character, and `\s` of a pattern.
unfoldable pub is_space : ℕ → Bool
is_space c =
    (leb 9 c && leb c 13)
    || (leb 28 c && leb c 32)
    || (leb 8192 c && leb c 8202)
    || contains (133 ∷ 160 ∷ 5760 ∷ 8232 ∷ 8233 ∷ 8239 ∷ 8287 ∷ 12288 ∷ []) c

-- `s[len(p):]` if `s.startswith(p)`.
unfoldable pub after_prefix : Text → Text → Option Text
after_prefix [] s = some s
after_prefix (c ∷ p) [] = none
after_prefix (c ∷ p) (d ∷ s) = let rest = after_prefix p s in if c == d then rest else none

abbrev pub is_some {ℓ} : {A : Type ℓ} → Option A → Bool
is_some none = false
is_some (some a) = true

-- `s.startswith(p)`
unfoldable pub starts_with : Text → Text → Bool
unfolding after_prefix
starts_with s p = is_some (after_prefix p s)

-- `s.removeprefix(p)`
unfoldable pub remove_prefix : Text → Text → Text
unfolding after_prefix
remove_prefix s p = elim (after_prefix p s) [ none ↦ s | some rest ↦ rest ]

-- `s.endswith(p)`
unfoldable pub ends_with : Text → Text → Bool
unfolding starts_with
ends_with s p = starts_with (reverse s) (reverse p)

-- `s.lstrip()`
unfoldable pub lstrip : Text → Text
unfolding is_space
lstrip [] = []
lstrip (c ∷ s) = let rest = lstrip s in if is_space c then rest else c ∷ s

-- `s.rstrip()`
unfoldable pub rstrip : Text → Text
unfolding is_space
rstrip [] = []
rstrip (c ∷ s) = let rest = rstrip s in if rest == [] && is_space c then [] else c ∷ rest

-- `s.strip()`
unfoldable pub strip : Text → Text
unfolding lstrip rstrip
strip s = rstrip (lstrip s)

-- The characters before the first `c`, and what begins with it.
unfoldable pub break_at : ℕ → Text → Text × Text
break_at c [] = ([], [])
break_at c (d ∷ s) = let (a, b) = break_at c s in if d == c then ([], d ∷ s) else (d ∷ a, b)

-- No newline stands in the text: what `.*` of a pattern can run over.
abbrev pub IsLine : Text → Type 0
IsLine [] = Unit
IsLine (c ∷ s) = (c ≢ newline) × IsLine s

pub after_prefix-append : (p s : Text) → after_prefix p (p ++ s) ≡ some s
unfolding after_prefix
after_prefix-append [] s = refl
after_prefix-append (c ∷ p) s = ground (arith, after_prefix-append p s)

pub append_of_after_prefix :
    (p s : Text) {rest : Text} → after_prefix p s ≡ some rest → s ≡ p ++ rest
unfolding after_prefix
append_of_after_prefix [] s h = cc
append_of_after_prefix (c ∷ p) [] h = cc
append_of_after_prefix (c ∷ p) (d ∷ s) {rest} h =
    ground (arith, append_of_after_prefix p s {rest = rest})

pub break_at-line : (s : Text) → IsLine s → break_at newline s ≡ (s, [])
unfolding break_at
break_at-line [] h = refl
break_at-line (c ∷ s) h = ground (arith, break_at-line s h.1)

pub break_at-append : (c : ℕ) (s : Text) → (break_at c s).0 ++ (break_at c s).1 ≡ s
unfolding break_at
break_at-append c [] = refl
break_at-append c (d ∷ s) = ground (arith, break_at-append c s)

pub IsLine-append_right : (p s : Text) → IsLine (p ++ s) → IsLine s
IsLine-append_right [] s h = h
IsLine-append_right (c ∷ p) s h = IsLine-append_right p s h.1
