-- ===== src/Encryption/Split.antt =====
-- `payload.split(':')`, and texts without a colon.
use Prim.Native.Char.{Char, code}
use Prim.Native.String.{String, [], ◌∷◌, ◌++◌}
use mathlib.Core.List.{List}
use mathlib.Core.Path.{◌≡◌, refl}
use mathlib.Core.Logic.{◌≢◌}
use native.Mathlib.Omega.{arith}
use text.Mathlib.TextLemmas.{nil-append, cons-append}
use code2cloud.Prelude.{nat_eq, if◌then◌else◌}

abbrev pub NoColon : String → Type 0
NoColon [] = Unit
NoColon (c ∷ s) = (code c ≢ b':') × NoColon s

-- The character belongs to the first part.
abbrev extend_first : Char → List String → List String
extend_first c List.[] = List.◌∷◌ (c ∷ []) List.[]
extend_first c (List.◌∷◌ w ws) = List.◌∷◌ (c ∷ w) ws

unfoldable pub split_colon : String → List String
split_colon [] = List.◌∷◌ [] List.[]
split_colon (c ∷ s) =
    let rest = split_colon s in
    if nat_eq (code c) b':' then List.◌∷◌ [] rest else extend_first c rest

-- The text before the first colon is the first part.
pub split_colon-append :
    (a s : String) → NoColon a → split_colon (a ++ (":" ++ s)) ≡ List.◌∷◌ a (split_colon s)
unfolding split_colon
split_colon-append [] s h = rw (nil-append, cons-append, nil-append)
split_colon-append (c ∷ a) s (p, h) = rw (cons-append, split_colon-append a s h) (ground arith)

pub split_colon_of_NoColon : (a : String) → NoColon a → split_colon a ≡ List.◌∷◌ a List.[]
unfolding split_colon
split_colon_of_NoColon [] h = refl
split_colon_of_NoColon (c ∷ a) (p, h) = rw (split_colon_of_NoColon a h) (ground arith)
