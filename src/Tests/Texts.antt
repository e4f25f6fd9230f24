-- ===== src/Tests/Texts.antt =====
-- Runs of the texts: addresses, secrets, signatures and pages of logs.
use mathlib.Core.Option
use code2cloud.Prelude.{
  String, Bool, ◌||◌, ◌==◌, All, if◌then◌else◌, ℕ, ◌≡◌, refl, ap, ◌⊎◌, inl, inr, In, true, none,
  some, List, [], ◌∷◌, arith,
}
use code2cloud.Schema.{LogEntry, ready}
use code2cloud.Encryption.{decrypt, encrypt}
use code2cloud.Encryption.RoundTrip.{decrypt-encrypt, decrypt-encrypt_empty}
use code2cloud.Url.{sanitize, clean, collapse, strip_leading, strip_trailing}
use code2cloud.Url.Slug.{IsSlug, sanitize-IsSlug}
use code2cloud.Deployments.{LogOptions, log_page, log_where}
use code2cloud.Deployments.Paging.{page_complete}
use code2cloud.Frameworks.{
  FrameworkEntry, node_frameworks, detect_node, detect_framework, detect_python,
}
use code2cloud.Frameworks.Order.{IsFirst, IsMissing, detect_node_lem}
use code2cloud.Tests.Client.{list_client, escape_cipher, nonempty, plain_hmac}
use code2cloud.Tests.Rows.{log_at}

decrypt-encrypt_example : decrypt (encrypt 3 "t") ≡ some "t"
decrypt-encrypt_example = decrypt-encrypt 3 "t" nonempty

decrypt-encrypt_empty_example : decrypt (encrypt 3 "") ≡ none
decrypt-encrypt_empty_example = decrypt-encrypt_empty 3

sanitize-IsSlug_example : IsSlug (sanitize "--My  App!")
sanitize-IsSlug_example = sanitize-IsSlug "--My  App!"

sanitize_run : sanitize "--My  App!" ≡ "my-app"
unfolding sanitize clean collapse strip_leading strip_trailing
sanitize_run = refl

-- The logs of two instants, asked for one by one.
abbrev two_logs : List LogEntry
two_logs = log_at "l1" 5 ∷ log_at "l2" 9 ∷ []

abbrev one_by_one : LogOptions
one_by_one = record { source = none; after = none; limit = some 1 }

alone :
    (s : LogEntry)
    → In s two_logs
    → log_where "d1" one_by_one s ≡ true
    → s.timestamp ≡ 9
    → s ≡ log_at "l2" 9
alone s (inl e) asked same = absurd (omega (arith, same, ap (λ (l : LogEntry). l.timestamp) e))
alone s (inr (inl e)) asked same = e
alone s (inr (inr none_left)) asked same = elim none_left [ ]

page_complete_example :
    In (log_at "l2" 9) (log_page two_logs ready "d1" one_by_one).logs
    ⊎ ((log_page two_logs ready "d1" one_by_one).has_more ≡ true)
      × ((c : ℕ) × ((log_page two_logs ready "d1" one_by_one).next_cursor ≡ some c)
          × (log_where "d1" (record one_by_one { after = some c }) (log_at "l2" 9) ≡ true))
page_complete_example =
    page_complete two_logs ready "d1" one_by_one (log_at "l2" 9) (inr (inl refl)) refl alone

-- A package that depends on koa and on vue.
abbrev koa_and_vue : String → Bool
koa_and_vue name = name == "koa" || name == "vue"

detect_node_lem_example :
    ((e : FrameworkEntry) × IsFirst koa_and_vue node_frameworks e
      × (detect_node koa_and_vue
          ≡ record { framework = e.framework; output_directory = e.output_directory }))
    ⊎ (All (IsMissing koa_and_vue) node_frameworks
        × (detect_node koa_and_vue ≡ (
            if koa_and_vue "koa"
            then record { framework = "node-server"; output_directory = "." }
            else record { framework = "node"; output_directory = "." })))
detect_node_lem_example = detect_node_lem koa_and_vue

detect_framework_run :
    detect_framework ⦃json = record { dependencies_of = λ text. none }⦄ (some "{") (some "Flask==3")
    ≡ record { framework = "flask"; output_directory = "." }
unfolding detect_framework detect_python Option.bind
detect_framework_run = refl
