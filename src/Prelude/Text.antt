-- ===== src/Prelude/Text.antt =====
-- Texts, the truth of optional texts in JavaScript, and `Record<string, T>`.
use Prim.Native.Char.{Char, code}
use Prim.Native.String.{String, [] as nil, ◌∷◌ as cons}
use mathlib.Core.Bool.{Bool, true, false, not, ◌&&◌, ◌||◌}
use mathlib.Core.Option.{Option, none, some}
use mathlib.Core.List.{List, [], ◌∷◌}
use text.Mathlib.Text.{◌==◌}
use code2cloud.Prelude.Lists.{any}
use code2cloud.Prelude.Tests.{if◌then◌else◌, leb, nat_eq}

-- `s ? … : …` on a `string | null | undefined`.
abbrev pub truthy : Option String → Bool
truthy none = false
truthy (some s) = not (s == "")

-- `s || undefined`.
abbrev pub non_empty : Option String → Option String
non_empty none = none
non_empty (some s) = if s == "" then none else some s

-- `s || d`.
abbrev pub or_else : Option String → String → String
or_else none d = d
or_else (some s) d = if s == "" then d else s

abbrev pub Dict : Type 0 → Type 0
Dict V = List (String × V)

-- `o[k] = v`: a new key comes last, an old one keeps its place.
abbrev pub put : {V : Type 0} → String → V → Dict V → Dict V
put k v [] = (k, v) ∷ []
put k v ((j, w) ∷ m) = let rest = put k v m in if j == k then (k, v) ∷ m else (j, w) ∷ rest

abbrev pub lookup : {V : Type 0} → String → Dict V → Option V
lookup k [] = none
lookup k ((j, v) ∷ m) = let rest = lookup k m in if j == k then some v else rest

-- The white space of ECMAScript, line ends included, by the numbers of the characters.
abbrev pub is_space : Char → Bool
is_space c =
    let n = code c in
    (leb 9 n && leb n 13)
    || (nat_eq n 32
        || (nat_eq n 160
            || (nat_eq n 5760
                || ((leb 8192 n && leb n 8202)
                    || (nat_eq n 8232
                        || (nat_eq n 8233
                            || (nat_eq n 8239
                                || (nat_eq n 8287 || (nat_eq n 12288 || nat_eq n 65279)))))))))

-- `s.trim() === ""`.
abbrev pub is_blank : String → Bool
is_blank nil = true
is_blank (cons c s) = is_space c && is_blank s

-- Whether no text comes twice: a unique key.
abbrev pub are_distinct : List String → Bool
are_distinct [] = true
are_distinct (k ∷ ks) = not (any (λ j. j == k) ks) && are_distinct ks
