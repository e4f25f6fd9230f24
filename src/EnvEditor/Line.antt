-- ===== src/EnvEditor/Line.antt =====
-- apps/web/components/project/EnvVarsPanel.tsx, `parseEnvLine`: a line of a .env file.
use Prim.Native.Char.{Char, code}
use Prim.Native.String.{String, [] as nil, ◌∷◌ as cons}
use code2cloud.Prelude.{
  Bool, true, false, not, ◌&&◌, ◌||◌, Option, none, some, nat_eq, leb, if◌then◌else◌, is_space,
  is_blank, List, [], ◌∷◌,
}

-- [\w.-]
abbrev pub is_word : Char → Bool
is_word c =
    let n = code c in
    (leb b'a' n && leb n b'z')
    || ((leb b'A' n && leb n b'Z')
        || ((leb b'0' n && leb n b'9') || (nat_eq n b'_' || (nat_eq n b'.' || nat_eq n b'-'))))

abbrev pub is_quote : Char → Bool
is_quote c = nat_eq (code c) 39 || nat_eq (code c) 34

-- What `.` does not match.
abbrev pub ends_line : Char → Bool
ends_line c =
    nat_eq (code c) 10 || (nat_eq (code c) 13 || (nat_eq (code c) 8232 || nat_eq (code c) 8233))

-- The longest prefix of characters that pass the test, and what follows it.
abbrev pub span : (Char → Bool) → String → String × String
span p nil = (nil, nil)
span p (cons c s) =
    let rest = span p s in if p c then (cons c (rest.0), rest.1) else (nil, cons c s)

abbrev pub drop_spaces : String → String
drop_spaces nil = nil
drop_spaces (cons c s) = let rest = drop_spaces s in if is_space c then rest else cons c s

abbrev pub is_empty : String → Bool
is_empty nil = true
is_empty (cons c s) = false

abbrev pub drop_spaces_end : String → String
drop_spaces_end nil = nil
drop_spaces_end (cons c s) =
    let rest = drop_spaces_end s in if is_space c && is_empty rest then nil else cons c rest

-- `s.trim()`.
abbrev pub trim : String → String
trim s = drop_spaces_end (drop_spaces s)

-- `s.replace(/^['"]|['"]$/g, "")`.
abbrev pub drop_quote : String → String
drop_quote nil = nil
drop_quote (cons c s) = if is_quote c then s else cons c s

abbrev pub drop_quote_end : String → String
drop_quote_end nil = nil
drop_quote_end (cons c nil) = if is_quote c then nil else cons c nil
drop_quote_end (cons c (cons d s)) = cons c (drop_quote_end (cons d s))

abbrev pub unquote : String → String
unquote s = drop_quote_end (drop_quote s)

pub record Parsed : Type 0 where
  pub key : String
  pub value : String

-- What follows the `=`: a text on one line, and then only white space.
abbrev pub parse_value : String → String → Option Parsed
parse_value key s =
    let found = span (λ c. not (ends_line c)) (drop_spaces s) in
    if is_blank (found.1)
    then some (record { key = trim key; value = trim (unquote (found.0)) })
    else none

abbrev pub parse_after_key : String → String → Option Parsed
parse_after_key key nil = none
parse_after_key key (cons c s) = if nat_eq (code c) b'=' then parse_value key s else none

-- `line.match(/^\s*([\w.-]+)\s*=\s*(.*)?\s*$/)`, with what is made of its groups.
unfoldable pub parse_env_line : String → Option Parsed
parse_env_line line =
    let found = span is_word (drop_spaces line) in
    if is_empty (found.0) then none else parse_after_key (found.0) (drop_spaces (found.1))

-- `text.split("\n")`.
abbrev pub prepend : Char → List String → List String
prepend c [] = cons c nil ∷ []
prepend c (l ∷ ls) = cons c l ∷ ls

abbrev pub split_lines : String → List String
split_lines nil = nil ∷ []
split_lines (cons c s) =
    let rest = split_lines s in if nat_eq (code c) 10 then nil ∷ rest else prepend c rest

-- `.map(parseEnvLine).filter(Boolean)`.
abbrev pub parse_lines : List String → List Parsed
parse_lines [] = []
parse_lines (l ∷ ls) =
    let rest = parse_lines ls in elim (parse_env_line l) [ none ↦ rest | some v ↦ v ∷ rest ]
