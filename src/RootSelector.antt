-- ===== src/RootSelector.antt =====
-- apps/web/components/project/root-directory-selector.tsx: walking through a repository's directories.
use Prim.Native.Char.{Char, code}
use Prim.Native.String.{[] as nil, ◌∷◌ as cons, ◌++◌ as str_append}
use text.Mathlib.TextLemmas.{nil-append, cons-append}
use code2cloud.Prelude.{
  String, Bool, true, false, not, ◌==◌, ◌≡◌, refl, ap, ◌&&◌, Option, none, some, nat_eq,
  if◌then◌else◌, and_left, and_right,
}
use code2cloud.EnvEditor.Line.{is_empty}

pub record Selector : Type 0 where
  pub current_path : String
  pub selected_path : String

abbrev pub from_root : String → String
from_root root = if root == "./" then "" else root

abbrev pub open_at : String → Selector
open_at root = record { current_path = from_root root; selected_path = from_root root }

abbrev pub before_slash : Char → Option String → Option String
before_slash c none = if nat_eq (code c) b'/' then some nil else none
before_slash c (some p) = some (cons c p)

-- The text before the last `/`.
abbrev pub before_last_slash : String → Option String
before_last_slash nil = none
before_last_slash (cons c s) = before_slash c (before_last_slash s)

abbrev pub or_root : Option String → String
or_root none = ""
or_root (some p) = p

-- `currentPath.split("/").slice(0, -1).join("/")`
unfoldable pub parent_of : String → String
parent_of path = or_root (before_last_slash path)

abbrev pub handle_navigate : String → Selector → Selector
handle_navigate path s = record s { current_path = path }

unfoldable pub handle_up : Selector → Selector
unfolding parent_of
handle_up s =
    if is_empty s.current_path then s else record s { current_path = parent_of s.current_path }

abbrev pub select_current : Selector → Selector
select_current s = record s { selected_path = s.current_path }

-- `selectedPath || "./"`, what the dialog is told.
abbrev pub handle_confirm : Selector → String
handle_confirm s = if is_empty s.selected_path then "./" else s.selected_path

abbrev pub has_no_slash : String → Bool
has_no_slash nil = true
has_no_slash (cons c s) = not (nat_eq (code c) b'/') && has_no_slash s

-- The path of an item of the directory, as GitHub gives it.
abbrev pub path_in : String → String → String
path_in nil name = name
path_in (cons c p) name = str_append (cons c p) (cons "/" name)

no_slash : (name : String) → has_no_slash name ≡ true → before_last_slash name ≡ none
no_slash nil h = refl
no_slash (cons c s) h =
    rw (no_slash s (and_right (not (nat_eq (code c) b'/')) (has_no_slash s) h))
      (not_it (nat_eq (code c) b'/') (and_left (not (nat_eq (code c) b'/')) (has_no_slash s) h))
  where
    not_it : (b : Bool) → not b ≡ true → (if b then some nil else none) ≡ none
    not_it true h = cc
    not_it false h = refl

before_last_slash-append :
    (p name : String)
    → has_no_slash name ≡ true
    → before_last_slash (str_append p (cons "/" name)) ≡ some p
before_last_slash-append nil name h = rw (nil-append (cons "/" name), no_slash name h) refl
before_last_slash-append (cons c p) name h =
    rw (cons-append c p (cons "/" name)) (ap (before_slash c) (before_last_slash-append p name h))

append-given : (c : Char) (p t : String) → is_empty (str_append (cons c p) t) ≡ false
append-given c p t = rw (cons-append c p t) refl

-- From any directory, going into an item of it and up again leads back, and what is selected in
-- between stays selected.
pub handle_up-handle_navigate :
    (s : Selector) (name : String)
    → has_no_slash name ≡ true
    → is_empty name ≡ false
    → handle_up (handle_navigate (path_in s.current_path name) s) ≡ s
unfolding handle_up
handle_up-handle_navigate s name plain given = by_path s.current_path s.selected_path
  where
    by_path :
        (p selected : String)
        → handle_up (record { current_path = path_in p name; selected_path = selected })
          ≡ record { current_path = p; selected_path = selected }
    by_path nil selected = rw (given, no_slash name plain) refl
    by_path (cons c p) selected =
        rw (append-given c p (cons "/" name), before_last_slash-append (cons c p) name plain) refl
