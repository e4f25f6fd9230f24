-- ===== src/Url.antt =====
-- apps/api/src/common/utils/url.utils.ts: UrlUtils, over the characters of a project's name.
-- Names have letters, digits and dashes only (apps/api/src/projects/dto/base-project.dto.ts), so
-- `toLowerCase` is that of the letters A to Z.
pub mod Slug
use Prim.Native.Char.{Char, code}
use Prim.Native.String.{String, [], ◌∷◌, ◌++◌}
use code2cloud.Prelude.{Bool, true, false, ◌&&◌, ◌||◌, leb, nat_eq, if◌then◌else◌}

-- The character at the place in the second text that the character has in the first.
abbrev pub swap_from : String → String → Char → Char
swap_from [] _ c = c
swap_from (u ∷ us) [] c = c
swap_from (u ∷ us) (l ∷ ls) c =
    let rest = swap_from us ls c in if nat_eq (code u) (code c) then l else rest

abbrev pub lower : Char → Char
lower c = swap_from "ABCDEFGHIJKLMNOPQRSTUVWXYZ" "abcdefghijklmnopqrstuvwxyz" c

abbrev pub dash : Char
dash = "-"

abbrev pub is_dash : Char → Bool
is_dash c = nat_eq (code c) b'-'

-- [a-z0-9-]
abbrev pub is_allowed : Char → Bool
is_allowed c =
    (leb b'a' (code c) && leb (code c) b'z')
    || ((leb b'0' (code c) && leb (code c) b'9') || is_dash c)

-- `.toLowerCase().replace(/[^a-z0-9-]/g, "-")`
unfoldable pub clean : String → String
clean [] = []
clean (c ∷ s) = (if is_allowed (lower c) then lower c else dash) ∷ clean s

abbrev pub starts_with_dash : String → Bool
starts_with_dash [] = false
starts_with_dash (c ∷ s) = is_dash c

-- `.replace(/-+/g, "-")`
unfoldable pub collapse : String → String
collapse [] = []
collapse (c ∷ s) =
    let rest = collapse s in if is_dash c && starts_with_dash rest then rest else c ∷ rest

-- `.replace(/^-|-$/g, "")`
unfoldable pub strip_leading : String → String
strip_leading [] = []
strip_leading (c ∷ s) = if is_dash c then s else c ∷ s

unfoldable pub strip_trailing : String → String
strip_trailing [] = []
strip_trailing (c ∷ []) = if is_dash c then [] else c ∷ []
strip_trailing (c ∷ d ∷ s) = c ∷ strip_trailing (d ∷ s)

unfoldable pub sanitize : String → String
sanitize input = strip_trailing (strip_leading (collapse (clean input)))

-- What a deployment's address takes from outside: DEPLOY_DOMAIN, and the random hexadecimal digits.
pub record UrlConfig : Type 0 where
  pub deploy_domain : String
  pub hash : String

unfoldable pub generate_deployment_url : ⦃config : UrlConfig⦄ → String → String
generate_deployment_url ⦃config⦄ project_name =
    "https://" ++ (sanitize project_name ++ ("-" ++ (config.hash ++ ("." ++ config.deploy_domain))))
