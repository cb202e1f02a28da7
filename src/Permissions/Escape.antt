-- ===== src/Permissions/Escape.antt =====
-- When unescaping takes back what escaping did.
use tunnel2tunnel.Base.{
  ◌≡◌, refl, Bool, true, false, ◌&&◌, ◌||◌, [], ◌∷◌, Text, arith, ◌==◌, list_eq, nat_eq,
}
use tunnel2tunnel.Permissions.{
  is_paren, escape_after, escape_command_parens, unescape_held, unescape_command_parens,
}

-- A parenthesis stands right behind a backslash, or at the start if one is there before it.
abbrev pub has_escaped : Bool → Text → Bool
has_escaped behind [] = false
has_escaped behind (c ∷ s) = let rest = has_escaped (c == b'\\') s in (behind && is_paren c) || rest

unescape-escape :
    (s : Text)
    → (has_escaped false s ≡ false → unescape_held false (escape_after false s) ≡ s)
      × (has_escaped true s ≡ false → unescape_held true (escape_after true s) ≡ b'\\' ∷ s)
unfolding escape_after unescape_held
unescape-escape [] = (λ h. refl, λ h. refl)
unescape-escape (c ∷ s) =
    let (open_rest, held_rest) = unescape-escape s in
    (λ h. ground (arith, open_rest, held_rest), λ h. ground (arith, open_rest, held_rest))

-- Unescaping gives back what was escaped, if no parenthesis of it stands behind a backslash.
pub unescape_command_parens-escape_command_parens :
    (content : Text)
    → has_escaped false content ≡ false
    → unescape_command_parens (escape_command_parens content) ≡ content
unfolding unescape_command_parens escape_command_parens
unescape_command_parens-escape_command_parens content h = (unescape-escape content).0 h
