-- ===== src/Prisma.antt =====
-- The Prisma client, which is not code of the repository: the queries that the services make, as
-- an interface. A table is the list of its rows, in the order in which the database yields them.
-- The laws state the documented meaning of the queries; they do not fix which row `findFirst`
-- takes without `orderBy`, nor how `orderBy` orders rows with the same key.
pub mod Laws
use code2cloud.Prelude.{
  ℕ, String, ◌≤◌, ◌≡◌, Bool, true, false, not, Option, none, some, List, [], ◌∷◌, ◌++◌, ◌↔◌, map,
  filter, In, if◌then◌else◌, ltb, length,
}

-- The list is in ascending (descending) order of the key.
abbrev pub IsAscending : {Row : Type 0} → (Row → ℕ) → List Row → Type 0
IsAscending key [] = Unit
IsAscending key (x ∷ []) = Unit
IsAscending key (x ∷ y ∷ ys) = (key x ≤ key y) × IsAscending key (y ∷ ys)

abbrev pub IsDescending : {Row : Type 0} → (Row → ℕ) → List Row → Type 0
IsDescending key [] = Unit
IsDescending key (x ∷ []) = Unit
IsDescending key (x ∷ y ∷ ys) = (key y ≤ key x) × IsDescending key (y ∷ ys)

-- The rows for which the test holds, changed by a function; the others stay.
abbrev pub change_where : {Row : Type 0} → (Row → Bool) → (Row → Row) → List Row → List Row
change_where p f [] = []
change_where p f (r ∷ rs) = (if p r then f r else r) ∷ change_where p f rs

pub record Prisma : Type 1 where
  -- findUnique, findFirst
  pub find_first : {Row : Type 0} → (Row → Bool) → List Row → Option Row
  pub find_first_some :
      {Row : Type 0} (p : Row → Bool) (t : List Row) (r : Row)
      → find_first p t ≡ some r
      → (p r ≡ true) × In r t
  pub find_first_none :
      {Row : Type 0} (p : Row → Bool) (t : List Row) (r : Row)
      → find_first p t ≡ none
      → In r t
      → p r ≡ false
  -- findMany, count
  pub find_many : {Row : Type 0} → (Row → Bool) → List Row → List Row
  pub find_many_lem : {Row : Type 0} (p : Row → Bool) (t : List Row) → find_many p t ≡ filter p t
  -- orderBy
  pub order_asc : {Row : Type 0} → (Row → ℕ) → List Row → List Row
  pub order_asc_sorted :
      {Row : Type 0} (key : Row → ℕ) (t : List Row) → IsAscending key (order_asc key t)
  pub order_asc_same :
      {Row : Type 0} (key : Row → ℕ) (t : List Row) (r : Row) → In r (order_asc key t) ↔ In r t
  pub order_asc_length :
      {Row : Type 0} (key : Row → ℕ) (t : List Row) → length (order_asc key t) ≡ length t
  -- each row as often as before
  pub order_asc_count :
      {Row : Type 0} (key : Row → ℕ) (p : Row → Bool) (t : List Row)
      → length (filter p (order_asc key t)) ≡ length (filter p t)
  pub order_desc : {Row : Type 0} → (Row → ℕ) → List Row → List Row
  pub order_desc_sorted :
      {Row : Type 0} (key : Row → ℕ) (t : List Row) → IsDescending key (order_desc key t)
  pub order_desc_same :
      {Row : Type 0} (key : Row → ℕ) (t : List Row) (r : Row) → In r (order_desc key t) ↔ In r t
  -- orderBy a text; which order of texts it is, is left open
  pub order_text : {Row : Type 0} → (Row → String) → List Row → List Row
  pub order_text_same :
      {Row : Type 0} (key : Row → String) (t : List Row) (r : Row)
      → In r (order_text key t) ↔ In r t
  -- update, updateMany
  pub update : {Row : Type 0} → (Row → Bool) → (Row → Row) → List Row → List Row
  pub update_lem :
      {Row : Type 0} (p : Row → Bool) (f : Row → Row) (t : List Row)
      → update p f t ≡ change_where p f t
  -- create, createMany
  pub create : {Row : Type 0} → List Row → List Row → List Row
  pub create_lem : {Row : Type 0} (rows t : List Row) → create rows t ≡ t ++ rows
  -- delete, deleteMany
  pub delete_where : {Row : Type 0} → (Row → Bool) → List Row → List Row
  pub delete_where_lem :
      {Row : Type 0} (p : Row → Bool) (t : List Row) → delete_where p t ≡ filter (λ r. not (p r)) t
  -- @default(uuid()): an id that no row in the list has; `uuids` gives one for each of n new rows.
  pub uuid : List String → String
  pub uuid_fresh : (ids : List String) → ¬ In (uuid ids) ids
  -- $transaction: of the writes of a function that throws nothing stays.
  pub rollback : {Db : Type 0} → (before after : Db) → Db
  pub rollback_lem : {Db : Type 0} (before after : Db) → rollback before after ≡ before
