-- ===== src/EnvEditor/RoundTrip.antt =====
-- apps/web/components/project/EnvVarsPanel.tsx, `parseEnvLine`: reading back a line that quotes
-- its value.
use Prim.Native.Char.{Char}
use Prim.Native.String.{String, [] as nil, ◌∷◌ as cons, ◌++◌ as str_append}
use text.Mathlib.TextLemmas.{nil-append, cons-append}
use code2cloud.Prelude.{
  Bool, true, false, not, ◌&&◌, ◌≡◌, refl, ap, ◌∙◌, subst, Bool-cases, inl, inr, some, is_space,
  and_left, and_right, arith,
}
use code2cloud.EnvEditor.Line.{
  is_word, ends_line, span, drop_spaces, is_empty, drop_spaces_end, trim, drop_quote_end,
  parse_value, parse_env_line,
}

abbrev pub every : (Char → Bool) → String → Bool
every p nil = true
every p (cons c s) = p c && every p s

pub word-not_space : (c : Char) → is_word c ≡ true → is_space c ≡ false
word-not_space c h = ground arith

pub span-append :
    (p : Char → Bool) (s t : String)
    → every p s ≡ true
    → span p t ≡ (nil, t)
    → span p (str_append s t) ≡ (s, t)
span-append p nil t h e = rw (nil-append t) e
span-append p (cons c s) t h e =
    rw
      (
        cons-append c s t,
        and_left (p c) (every p s) h,
        span-append p s t (and_right (p c) (every p s) h) e,
      )
      refl

drop_quote_end_lem : (s : String) → drop_quote_end (str_append s (cons "\"" nil)) ≡ s
drop_quote_end_lem nil = refl
drop_quote_end_lem (cons c nil) = rw (cons-append c nil (cons "\"" nil)) refl
drop_quote_end_lem (cons c (cons d s)) =
    rw (cons-append c (cons d s) (cons "\"" nil), cons-append d s (cons "\"" nil))
      (ap (cons c) (
        subst (λ r. drop_quote_end r ≡ cons d s) (cons-append d s (cons "\"" nil))
          (drop_quote_end_lem (cons d s))))

pub drop_spaces_word :
    (s t : String)
    → is_empty s ≡ false
    → every is_word s ≡ true
    → drop_spaces (str_append s t) ≡ str_append s t
drop_spaces_word nil t n h = cc
drop_spaces_word (cons c s) t n h =
    rw (cons-append c s t, word-not_space c (and_left (is_word c) (every is_word s) h)) refl

drop_spaces_end_word : (s : String) → every is_word s ≡ true → drop_spaces_end s ≡ s
drop_spaces_end_word nil h = refl
drop_spaces_end_word (cons c s) h =
    rw (word-not_space c (and_left (is_word c) (every is_word s) h))
      (ap (cons c) (drop_spaces_end_word s (and_right (is_word c) (every is_word s) h)))

drop_spaces_word_self : (s : String) → every is_word s ≡ true → drop_spaces s ≡ s
drop_spaces_word_self nil h = refl
drop_spaces_word_self (cons c s) h =
    rw (word-not_space c (and_left (is_word c) (every is_word s) h)) refl

trim_word : (s : String) → every is_word s ≡ true → trim s ≡ s
trim_word s h = ap drop_spaces_end (drop_spaces_word_self s h) ∙ drop_spaces_end_word s h

-- `KEY="value"`.
abbrev pub quoted : String → String
quoted v = cons "\"" (str_append v (cons "\"" nil))

abbrev pub on_one_line : Char → Bool
on_one_line c = not (ends_line c)

abbrev pub is_key : String → Bool
is_key k = not (is_empty k) && every is_word k

every-append :
    (p : Char → Bool) (s t : String)
    → every p s ≡ true
    → every p t ≡ true
    → every p (str_append s t) ≡ true
every-append p nil t h k = rw (nil-append t) k
every-append p (cons c s) t h k =
    rw (cons-append c s t, and_left (p c) (every p s) h)
      (every-append p s t (and_right (p c) (every p s) h) k)

span_all : (p : Char → Bool) (s : String) → every p s ≡ true → span p s ≡ (s, nil)
span_all p nil h = refl
span_all p (cons c s) h =
    rw (and_left (p c) (every p s) h, span_all p s (and_right (p c) (every p s) h)) refl

parse_value_lem :
    (key v : String)
    → every is_word key ≡ true
    → every on_one_line v ≡ true
    → parse_value key (quoted v) ≡ some (record { key = key; value = trim v })
parse_value_lem key v word line =
    rw
      (
        span_all on_one_line (str_append v (cons "\"" nil))
            (every-append on_one_line v (cons "\"" nil) line refl),
        drop_quote_end_lem v,
        trim_word key word,
      )
      refl

drop_spaces-append :
    (s t : String) → every is_space s ≡ true → drop_spaces (str_append s t) ≡ drop_spaces t
drop_spaces-append nil t h = rw (nil-append t) refl
drop_spaces-append (cons c s) t h =
    rw (cons-append c s t, and_left (is_space c) (every is_space s) h)
      (drop_spaces-append s t (and_right (is_space c) (every is_space s) h))

space-not_word : (c : Char) → is_space c ≡ true → is_word c ≡ false
space-not_word c h = elim (Bool-cases (is_word c)) [ inl w ↦ cc (word-not_space c w) | inr n ↦ n ]

-- A key ends before white space or `=`.
span_key :
    (s t : String)
    → every is_space s ≡ true
    → span is_word (str_append s (cons "=" t)) ≡ (nil, str_append s (cons "=" t))
span_key nil t h = rw (nil-append (cons "=" t)) refl
span_key (cons c s) t h =
    rw (cons-append c s (cons "=" t), space-not_word c (and_left (is_space c) (every is_space s) h))
      refl

-- The line's parts in their order.
abbrev pub env_line : String → String → String → String → String → String
env_line before key left right v =
    str_append before (str_append key (str_append left (cons "=" (str_append right (quoted v)))))

pub not-false : (b : Bool) → not b ≡ true → b ≡ false
not-false true h = cc
not-false false h = refl

-- A line `KEY="value"`, the key made of word characters, points and dashes and the value of
-- characters that do not end a line, is read as that key and the trimmed value, whatever quotes, `=`
-- or `#` the value has, and whatever white space stands before the key and round the `=`.
pub parse_env_line_lem :
    (before key left right v : String)
    → every is_space before ≡ true
    → is_key key ≡ true
    → every is_space left ≡ true
    → every is_space right ≡ true
    → every on_one_line v ≡ true
    → parse_env_line (env_line before key left right v)
      ≡ some (record { key = key; value = trim v })
unfolding parse_env_line
parse_env_line_lem before key left right v b k l r line =
    let named = not-false (is_empty key) (and_left (not (is_empty key)) (every is_word key) k) in
    let word = and_right (not (is_empty key)) (every is_word key) k in
    let rest : String = str_append left (cons "=" (str_append right (quoted v))) in
    rw
      (
        drop_spaces-append before (str_append key rest) b,
        drop_spaces_word key rest named word,
        span-append is_word key rest word (span_key left (str_append right (quoted v)) l),
        named,
        drop_spaces-append left (cons "=" (str_append right (quoted v))) l,
      )
      (after_key (drop_spaces-append right (quoted v) r))
  where
    after_key :
        drop_spaces (str_append right (quoted v)) ≡ quoted v
        → parse_value key (str_append right (quoted v))
          ≡ some (record { key = key; value = trim v })
    after_key e =
        rw e (parse_value_lem key v (and_right (not (is_empty key)) (every is_word key) k) line)
