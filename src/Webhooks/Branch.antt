-- ===== src/Webhooks/Branch.antt =====
-- apps/api/src/webhooks/webhooks.service.ts: `payload.ref.replace("refs/heads/", "")`.
use Prim.Native.Char.{code}
use Prim.Native.String.{String, [], ◌∷◌, ◌++◌}
use code2cloud.Prelude.{◌≡◌, Option, none, some, nat_eq, if◌then◌else◌}
use text.Mathlib.TextLemmas.{nil-append, cons-append}
use native.Mathlib.Omega.{arith}

-- The rest of a text after a prefix.
pub after_prefix : String → String → Option String
after_prefix [] s = some s
after_prefix (p ∷ ps) [] = none
after_prefix (p ∷ ps) (c ∷ s) =
    let rest = after_prefix ps s in if nat_eq (code p) (code c) then rest else none

-- `s.replace(pattern, "")`: the first occurrence of the pattern is taken out.
pub replace_first : String → String → String
replace_first pattern [] = elim (after_prefix pattern []) [ some rest ↦ rest | none ↦ [] ]
replace_first pattern (c ∷ s) =
    let later = c ∷ replace_first pattern s in
    elim (after_prefix pattern (c ∷ s)) [ some rest ↦ rest | none ↦ later ]

after_prefix-append : (p s : String) → after_prefix p (p ++ s) ≡ some s
unfolding after_prefix
after_prefix-append [] s = rw (nil-append)
after_prefix-append (c ∷ p) s = rw (cons-append, after_prefix-append p s) (ground arith)

replace_first_of_prefix :
    (p s rest : String) → after_prefix p s ≡ some rest → replace_first p s ≡ rest
unfolding replace_first
replace_first_of_prefix p [] rest e = rw (e, replace_first)
replace_first_of_prefix p (c ∷ s) rest e = rw (e, replace_first)

-- A ref that begins with the pattern loses it, and keeps what follows, whatever it is.
pub replace_first-append : (p s : String) → replace_first p (p ++ s) ≡ s
replace_first-append p s = replace_first_of_prefix p (p ++ s) s (after_prefix-append p s)
