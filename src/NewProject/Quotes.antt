-- ===== src/NewProject/Quotes.antt =====
-- A quoted value in a .env file, read by the dialog of a new project and by the editor.
use Prim.Native.Char.{Char, code}
use Prim.Native.String.{String, [] as nil, ◌∷◌ as cons, ◌++◌ as str_append}
use text.Mathlib.TextLemmas.{nil-append, cons-append}
use code2cloud.Prelude.{
  true, false, not, ◌≡◌, refl, ap, ◌∙◌, some, nat_eq, and_left, and_right, arith,
}
use code2cloud.EnvEditor.Line.{is_word, is_empty, trim, drop_spaces_end, parse_env_line}
use code2cloud.EnvEditor.RoundTrip.{
  every, is_key, on_one_line, quoted, env_line, parse_env_line_lem, not-false, span-append,
  drop_spaces_word,
}
use code2cloud.NewProject.EnvFile.{is_comment, is_not_equals, dialog_line}

abbrev quote : String
quote = cons "\"" nil

is_empty-append : (s t : String) → is_empty t ≡ false → is_empty (str_append s t) ≡ false
is_empty-append nil t h = rw (nil-append t) h
is_empty-append (cons c s) t h = rw (cons-append c s t) refl

drop_spaces_end-append :
    (s t : String)
    → is_empty t ≡ false
    → drop_spaces_end t ≡ t
    → drop_spaces_end (str_append s t) ≡ str_append s t
drop_spaces_end-append nil t n h = rw (nil-append t) h
drop_spaces_end-append (cons c s) t n h =
    rw (cons-append c s t) (by_rest (drop_spaces_end-append s t n h) (is_empty-append s t n))
  where
    by_rest :
        drop_spaces_end (str_append s t) ≡ str_append s t
        → is_empty (str_append s t) ≡ false
        → drop_spaces_end (cons c (str_append s t)) ≡ cons c (str_append s t)
    by_rest e n = rw (e, n) (ground arith)

word-not_comment : (c : Char) → is_word c ≡ true → nat_eq (code c) b'#' ≡ false
word-not_comment c h = ground arith

word-not_equals : (c : Char) → is_word c ≡ true → is_not_equals c ≡ true
word-not_equals c h = ground arith

every-not_equals : (k : String) → every is_word k ≡ true → every is_not_equals k ≡ true
every-not_equals nil h = refl
every-not_equals (cons c k) h =
    rw (word-not_equals c (and_left (is_word c) (every is_word k) h))
      (every-not_equals k (and_right (is_word c) (every is_word k) h))

line_end : (v : String) → drop_spaces_end (cons "=" (quoted v)) ≡ cons "=" (quoted v)
line_end v = rw (drop_spaces_end-append v quote refl refl) refl

is_comment-append :
    (k t : String)
    → is_empty k ≡ false
    → every is_word k ≡ true
    → is_comment (str_append k t) ≡ false
is_comment-append nil t n w = cc
is_comment-append (cons c k) t n w =
    rw (cons-append c k t) (word-not_comment c (and_left (is_word c) (every is_word k) w))

-- From a line `KEY="value"` the editor of variables reads the value without its quotes and trimmed,
-- the dialog of a new project the value with its quotes as it stands.
pub dialog_line-quoted :
    (k v : String)
    → is_key k ≡ true
    → every on_one_line v ≡ true
    → let line = env_line nil k nil nil v in
      (parse_env_line line ≡ some (record { key = k; value = trim v }))
      × (dialog_line line ≡ some (record { key = k; value = quoted v }))
dialog_line-quoted k v named line =
    let rest : String = cons "=" (quoted v) in
    let given = not-false (is_empty k) (and_left (not (is_empty k)) (every is_word k) named) in
    let word = and_right (not (is_empty k)) (every is_word k) named in
    let trimmed : trim (str_append k rest) ≡ str_append k rest =
      ap drop_spaces_end (drop_spaces_word k rest given word)
      ∙ drop_spaces_end-append k rest refl (line_end v) in
    (
      parse_env_line_lem nil k nil nil v refl named refl refl line,
      rw
          (
            nil-append (quoted v),
            nil-append rest,
            nil-append (str_append k rest),
            trimmed,
            is_empty-append k rest refl,
            is_comment-append k rest given word,
            span-append is_not_equals k rest (every-not_equals k word) refl,
          )
          refl,
    )
