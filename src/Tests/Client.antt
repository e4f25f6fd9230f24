-- ===== src/Tests/Client.antt =====
-- A client of lists, a cipher and a GitHub that meet what the development assumes of them.
use Prim.Native.Char.{Char, code}
use Prim.Native.String.{[] as nil, ◌∷◌ as cons, ◌++◌ as append_text}
use text.Mathlib.TextEquality.{Char-path}
use text.Mathlib.TextLemmas.{nil-append, cons-append}
use code2cloud.Prelude.{
  ℕ, suc, ◌+◌, ◌<◌, String, ◌≡◌, ◌≢◌, refl, ap, Bool, true, false, not, none, some, List, [], ◌∷◌,
  ◌++◌, filter, find?, In, inl, inr, arith, Bool-cases, if◌then◌else◌, nat_eq, ◌==◌, eq_iff,
}
use code2cloud.Prisma.{Prisma, change_where}
use code2cloud.Github.{GithubApi}
use code2cloud.Encryption.{Crypto}
use code2cloud.Encryption.Split.{NoColon}
use code2cloud.Webhooks.Signature.{Hmac}
use code2cloud.Auth.{AuthApi}
use code2cloud.Tests.Sorting.{
  sort_asc, sort_desc, sort_asc-IsAscending, sort_desc-IsDescending, In-sort_asc, In-sort_desc,
  length-sort_asc, length-filter-sort_asc,
}

module _ {Row : Type 0} (p : Row → Bool) where
  pub find?-some : (t : List Row) (r : Row) → find? p t ≡ some r → (p r ≡ true) × In r t
  find?-some [] r e = absurd (cc)
  find?-some (x ∷ t) r e = elim (Bool-cases (p x)) [
    | inl here ↦ ground arith
    | inr there ↦ ground (arith, find?-some t r)
  ]

  pub find?-none : (t : List Row) (r : Row) → find? p t ≡ none → In r t → p r ≡ false
  find?-none [] r e h = elim h [ ]
  find?-none (x ∷ t) r e (inl h) = ground arith
  find?-none (x ∷ t) r e (inr h) = ground (arith, find?-none t r)

abbrev size : String → ℕ
size nil = 0
size (cons c s) = suc (size s)

size-append : (s t : String) → size (append_text s t) ≡ size s + size t
size-append nil t = rw nil-append (omega arith)
size-append (cons c s) t = rw cons-append (omega (arith, size-append s t))

-- Longer than every id in the list.
unfoldable pub fresh : List String → String
fresh [] = "x"
fresh (i ∷ is) = append_text i (fresh is)

size-fresh : (i : String) (is : List String) → In i is → size i < size (fresh is)
unfolding fresh
size-fresh i [] h = elim h [ ]
size-fresh i (j ∷ is) (inl e) = rw (e, size-append j (fresh is)) (omega (arith, pos is))
  where
    pos : (is : List String) → 0 < size (fresh is)
    pos [] = omega arith
    pos (k ∷ ks) = rw (size-append k (fresh ks)) (omega (arith, pos ks))
size-fresh i (j ∷ is) (inr h) = rw (size-append j (fresh is)) (omega (arith, size-fresh i is h))

pub fresh_lem : (is : List String) → ¬ In (fresh is) is
fresh_lem is h = absurd (omega (arith, size-fresh (fresh is) is h))

-- A cipher that only escapes the colon.
abbrev percent : Char
percent = "%"

abbrev letter : Char
letter = "c"

abbrev colon : Char
colon = ":"

abbrev escape : String → String
escape nil = nil
escape (cons c s) =
    let rest = escape s in
    if nat_eq (code c) b':'
    then cons percent (cons letter rest)
    else if nat_eq (code c) b'%'
    then cons percent (cons percent rest)
    else cons c rest

abbrev unescape : String → String
unescape nil = nil
unescape (cons c nil) = cons c nil
unescape (cons c (cons d s)) =
    let later = unescape s in
    let plain = cons c (unescape (cons d s)) in
    if nat_eq (code c) b'%'
    then (if nat_eq (code d) b'c' then cons colon later else cons d later)
    else plain

unescape_plain :
    (c : Char) (s : String)
    → nat_eq (code c) b'%' ≡ false
    → unescape (cons c s) ≡ cons c (unescape s)
unescape_plain c nil h = refl
unescape_plain c (cons d s) h = rw h

pub unescape-escape : (s : String) → unescape (escape s) ≡ s
unescape-escape nil = refl
unescape-escape (cons c s) = elim (Bool-cases (nat_eq (code c) b':')) [
  | inl e ↦ rw (e, unescape-escape s) (ap (λ x. cons x s) (Char-path colon c (ground arith)))
  | inr other ↦ elim (Bool-cases (nat_eq (code c) b'%')) [
    | inl e ↦
        rw (other, e, unescape-escape s) (ap (λ x. cons x s) (Char-path percent c (ground arith)))
    | inr ordinary ↦ rw (other, ordinary, unescape_plain c (escape s) ordinary, unescape-escape s)
  ]
]

pub escape-NoColon : (s : String) → NoColon (escape s)
escape-NoColon nil = tt
escape-NoColon (cons c s) = ground (arith, escape-NoColon s)

size-escape_pos : (c : Char) (s : String) → 0 < size (escape (cons c s))
size-escape_pos c s = elim (Bool-cases (nat_eq (code c) b':')) [
  | inl e ↦ rw e (omega arith)
  | inr other ↦ elim (Bool-cases (nat_eq (code c) b'%')) [
    | inl e ↦ rw (other, e) (omega arith)
    | inr ordinary ↦ rw (other, ordinary) (omega arith)
  ]
]

pub escape_nonempty : (s : String) → s ≢ "" → escape s ≢ ""
escape_nonempty nil h e = h refl
escape_nonempty (cons c s) h e = absurd (omega (arith, size-escape_pos c s, ap size e))

pub nonempty : ◌≢◌ {A = String} "t" ""
nonempty e = absurd (omega (arith, ap size e))

pub NoColon-t : NoColon "t"
NoColon-t = ground arith

instance abbrev pub list_client : Prisma
list_client = record {
  find_first = find?;
  find_first_some = find?-some;
  find_first_none = find?-none;
  find_many = filter;
  find_many_lem = λ p t. refl;
  order_asc = sort_asc;
  order_asc_sorted = sort_asc-IsAscending;
  order_asc_same = λ key t r. In-sort_asc key r t;
  order_asc_length = length-sort_asc;
  order_asc_count = λ key p t. length-filter-sort_asc key p t;
  order_desc = sort_desc;
  order_desc_sorted = sort_desc-IsDescending;
  order_desc_same = λ key t r. In-sort_desc key r t;
  order_text = λ key t. t;
  order_text_same = λ key t r. (λ h. h, λ h. h);
  update = change_where;
  update_lem = λ p f t. refl;
  create = λ rows t. t ++ rows;
  create_lem = λ rows t. refl;
  delete_where = λ p t. filter (λ r. not (p r)) t;
  delete_where_lem = λ p t. refl;
  uuid = fresh;
  uuid_fresh = fresh_lem;
  rollback = λ before after. before;
  rollback_lem = λ before after. refl;
}

instance abbrev pub escape_cipher : Crypto
escape_cipher = record {
  draw = λ n. "t";
  draw_text = λ n. (NoColon-t, nonempty);
  seal = λ iv plain. ("t", escape plain);
  seal_text = λ iv plain. (NoColon-t, escape-NoColon plain);
  tag_nonempty = λ iv plain. nonempty;
  seal_nonempty = λ iv plain. escape_nonempty plain;
  seal_empty = λ iv. refl;
  open_sealed = λ iv tag encrypted. some (unescape encrypted);
  open-seal = λ iv plain. ap some (unescape-escape plain);
}

instance abbrev pub silent_github : GithubApi
silent_github = record { get_branch = λ installation owner repo branch. none }

-- Not a hash, but a text that is the body's and the secret's.
instance abbrev pub plain_hmac : Hmac
plain_hmac = record {
  hex_hmac = λ secret body. append_text secret body;
  timing_safe_equal = λ a b. some (a == b);
  timing_safe_equal_true =
      λ a b e. (eq_iff a b).0 (ap (λ o. elim o [ none ↦ false | some x ↦ x ]) e);
  timing_safe_equal_same = λ a. ap some ((eq_iff a a).1 refl);
}

-- Not bcrypt, and tokens that are the user's id.
instance abbrev pub plain_auth : AuthApi
plain_auth = record {
  hash = λ text. append_text "h" text;
  hash_password = λ text. append_text "h" text;
  compare = λ text hashed. append_text "h" text == hashed;
  sign_access = λ claims. claims.sub;
  sign_refresh = λ claims. claims.email;
}
