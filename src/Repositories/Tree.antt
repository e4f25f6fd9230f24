-- ===== src/Repositories/Tree.antt =====
-- apps/api/src/git/git.service.ts, `getRepoContents`: the order of the items.
use code2cloud.Prelude.{
  String, suc, Bool, true, false, ◌≡◌, refl, ap, ◌∙◌, some, length, List, [], ◌∷◌, ◌⊎◌, inl, inr,
  ◌↔◌, ◌||◌, ◌&&◌, if◌then◌else◌, All, In, Bool-cases, arith,
}
use code2cloud.World.{World, done}
use code2cloud.Repositories.Service.{
  directory, get_repo_contents, GithubFiles, TreeItem, is_dir, is_file, goes_first, insert_item,
  sort_items, ItemKind, dir, file, symlink, submodule,
}
use mathlib.Core.Bool.{false≢true}

abbrev pub is_plain : TreeItem → Bool
is_plain a = is_dir a.kind || is_file a.kind

abbrev pub ArePlain : List TreeItem → Type 0
ArePlain items = All (λ a. is_plain a ≡ true) items

module _ ⦃github : GithubFiles⦄ where
  -- By the test of the code, each item goes before all that follow it.
  abbrev IsOrdered : List TreeItem → Type 0
  IsOrdered [] = Unit
  IsOrdered (a ∷ items) = All (λ b. goes_first a b ≡ true) items × IsOrdered items

  -- A file is not followed by a directory, and two of a kind are in the order of their names.
  abbrev MayPrecede : ItemKind → ItemKind → Bool → Type 0
  MayPrecede dir dir in_order = in_order ≡ true
  MayPrecede file file in_order = in_order ≡ true
  MayPrecede file dir in_order = ⊥
  MayPrecede _ _ in_order = Unit

  -- Every item may precede all that follow it.
  abbrev pub IsListing : List TreeItem → Type 0
  IsListing [] = Unit
  IsListing (a ∷ items) =
      All (λ b. MayPrecede a.kind b.kind (github.locale_le a.name b.name)) items × IsListing items

  goes_first-MayPrecede :
      (a b : TreeItem)
      → goes_first a b ≡ true
      → MayPrecede a.kind b.kind (github.locale_le a.name b.name)
  goes_first-MayPrecede a b h = by_kinds a.kind b.kind (github.locale_le a.name b.name) h
    where
      by_kinds :
          (k l : ItemKind) (le : Bool)
          → (if is_dir k && is_file l then true else if is_file k && is_dir l then false else le)
            ≡ true
          → MayPrecede k l le
      by_kinds dir dir le h = h
      by_kinds dir file le h = tt
      by_kinds dir symlink le h = tt
      by_kinds dir submodule le h = tt
      by_kinds file dir le h = absurd (false≢true h)
      by_kinds file file le h = h
      by_kinds file symlink le h = tt
      by_kinds file submodule le h = tt
      by_kinds symlink dir le h = tt
      by_kinds symlink file le h = tt
      by_kinds symlink symlink le h = tt
      by_kinds symlink submodule le h = tt
      by_kinds submodule dir le h = tt
      by_kinds submodule file le h = tt
      by_kinds submodule symlink le h = tt
      by_kinds submodule submodule le h = tt

  IsOrdered-IsListing : (items : List TreeItem) → IsOrdered items → IsListing items
  IsOrdered-IsListing [] o = tt
  IsOrdered-IsListing (a ∷ items) (before, o) = (by_item items before, IsOrdered-IsListing items o)
    where
      by_item :
          (items : List TreeItem)
          → All (λ b. goes_first a b ≡ true) items
          → All (λ b. MayPrecede a.kind b.kind (github.locale_le a.name b.name)) items
      by_item [] h = tt
      by_item (b ∷ rest) (h, t) = (goes_first-MayPrecede a b h, by_item rest t)

  goes_first_trans :
      (a b c : TreeItem)
      → is_plain a ≡ true
      → is_plain b ≡ true
      → is_plain c ≡ true
      → goes_first a b ≡ true
      → goes_first b c ≡ true
      → goes_first a c ≡ true
  goes_first_trans a b c p q r h k = ground (arith, github.locale_le_trans a.name b.name c.name)

  goes_first_total : (a b : TreeItem) → goes_first a b ≡ false → goes_first b a ≡ true
  goes_first_total a b h = ground (arith, github.locale_le_total a.name b.name)

  insert_item-All :
      (P : TreeItem → Type 0) (a : TreeItem) (items : List TreeItem)
      → P a
      → All P items
      → All P (insert_item a items)
  insert_item-All P a [] p h = (p, tt)
  insert_item-All P a (b ∷ items) p (q, h) = elim (Bool-cases (goes_first a b)) [
    | inl first ↦ rw first (p, (q, h))
    | inr later ↦ rw later (q, insert_item-All P a items p h)
  ]

  insert_item-IsOrdered :
      (a : TreeItem) (items : List TreeItem)
      → is_plain a ≡ true
      → ArePlain items
      → IsOrdered items
      → IsOrdered (insert_item a items)
  insert_item-IsOrdered a [] p h o = (tt, tt)
  insert_item-IsOrdered a (b ∷ items) p (q, h) (before, o) = elim (Bool-cases (goes_first a b)) [
    | inl first ↦ rw first ((first, All-trans a b items p q h first before), (before, o))
    | inr later ↦ rw later (
      insert_item-All (λ c. goes_first b c ≡ true) a items (goes_first_total a b later) before,
      insert_item-IsOrdered a items p h o,
    )
  ]
    where
      All-trans :
          (a b : TreeItem) (items : List TreeItem)
          → is_plain a ≡ true
          → is_plain b ≡ true
          → ArePlain items
          → goes_first a b ≡ true
          → All (λ c. goes_first b c ≡ true) items
          → All (λ c. goes_first a c ≡ true) items
      All-trans a b [] p q h first before = tt
      All-trans a b (c ∷ rest) p q (r, h) first (here, before) =
          (goes_first_trans a b c p q r first here, All-trans a b rest p q h first before)

  sort_items-ArePlain : (items : List TreeItem) → ArePlain items → ArePlain (sort_items items)
  sort_items-ArePlain [] h = tt
  sort_items-ArePlain (a ∷ items) (p, h) =
      insert_item-All (λ c. is_plain c ≡ true) a (sort_items items) p (sort_items-ArePlain items h)

  sort_items-IsOrdered : (items : List TreeItem) → ArePlain items → IsOrdered (sort_items items)
  sort_items-IsOrdered [] h = tt
  sort_items-IsOrdered (a ∷ items) (p, h) =
      insert_item-IsOrdered a (sort_items items) p (sort_items-ArePlain items h)
        (sort_items-IsOrdered items h)

  insert_item-In :
      (x a : TreeItem) (items : List TreeItem) → In x (insert_item a items) ↔ ((x ≡ a) ⊎ In x items)
  insert_item-In x a [] = (λ h. h, λ h. h)
  insert_item-In x a (b ∷ items) = elim (Bool-cases (goes_first a b)) [
    | inl first ↦ rw first (λ h. h, λ h. h)
    | inr later ↦ rw later (swap_in x a b items (insert_item-In x a items))
  ]
    where
      swap_in :
          (x a b : TreeItem) (items : List TreeItem)
          → In x (insert_item a items) ↔ ((x ≡ a) ⊎ In x items)
          → ((x ≡ b) ⊎ In x (insert_item a items)) ↔ ((x ≡ a) ⊎ ((x ≡ b) ⊎ In x items))
      swap_in x a b items (there, back) = (
        λ h. elim h [
          | inl e ↦ inr (inl e)
          | inr k ↦ elim (there k) [ inl e ↦ inl e | inr m ↦ inr (inr m) ]
        ],
        λ h. elim h [
          | inl e ↦ inr (back (inl e))
          | inr k ↦ elim k [ inl e ↦ inl e | inr m ↦ inr (back (inr m)) ]
        ],
      )

  sort_items-In : (x : TreeItem) (items : List TreeItem) → In x (sort_items items) ↔ In x items
  sort_items-In x [] = (λ h. h, λ h. h)
  sort_items-In x (a ∷ items) =
      let (there, back) = insert_item-In x a (sort_items items) in
      let (down, up) = sort_items-In x items in
      (
        λ h. elim (there h) [ inl e ↦ inl e | inr k ↦ inr (down k) ],
        λ h. back (elim h [ inl e ↦ inl e | inr k ↦ inr (up k) ]),
      )

  length-insert_item :
      (a : TreeItem) (items : List TreeItem) → length (insert_item a items) ≡ suc (length items)
  length-insert_item a [] = refl
  length-insert_item a (b ∷ items) = ground (arith, length-insert_item a items)

  length-sort_items : (items : List TreeItem) → length (sort_items items) ≡ length items
  length-sort_items [] = refl
  length-sort_items (a ∷ items) =
      length-insert_item a (sort_items items) ∙ ap suc (length-sort_items items)

  -- For a path at which GitHub has a directory of files and directories alone, the answer has exactly
  -- its items, no file before a directory and each kind in the order of the names.
  pub get_repo_contents_lem :
      (installation owner repo path : String) (items : List TreeItem) (w : World)
      → github.has_client installation ≡ true
      → github.get_content installation owner repo path ≡ some (directory items)
      → ArePlain items
      → (tree : List TreeItem) × (get_repo_contents installation owner repo path w ≡ done tree w)
        × IsListing tree
        × (length tree ≡ length items)
        × ((x : TreeItem) → In x tree ↔ In x items)
  unfolding get_repo_contents
  get_repo_contents_lem installation owner repo path items w known found plain = (
    sort_items items,
    rw (known, found) refl,
    IsOrdered-IsListing _ (sort_items-IsOrdered items plain),
    length-sort_items items,
    λ x. sort_items-In x items,
  )
