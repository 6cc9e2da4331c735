-- ===== src/Migrations/Catalog.antt =====
-- daemon/src/core/migrations.ts: which migrations a run takes, and in which order.
use kithkit.Base.{
  ℕ, ◌<◌, Bool, true, false, not, List, [], ◌∷◌, filter, All, ◌==◌, ◌||◌, map, inl, inr, Bool-cases,
  ◌≡◌, refl, sym, ap, ◌∙◌, arith,
}
use kithkit.Base.Sort
use kithkit.Migrations.{
  includes, File, Migration, Db, discover_migrations, unique, by_version, is_applied, pending,
}

-- All migrations of a directory: one for each version, in their order.
unfoldable pub catalog : List File → List Migration
unfolding unique Sort.sort discover_migrations
catalog files = unique [] (Sort.sort by_version (discover_migrations files))

-- Each version is above the ones before it.
abbrev pub Ascending : List Migration → Type 0
Ascending [] = Unit
Ascending (m ∷ ms) = All (λ n. m.version < n.version) ms × Ascending ms

by_version_trans :
    (l m n : Migration) → by_version l m ≡ true → by_version m n ≡ true → by_version l n ≡ true
by_version_trans l m n h k = ground (arith, h, k)

by_version_total : (m n : Migration) → by_version m n ≡ false → by_version n m ≡ true
by_version_total m n h = ground (arith, h)

module _ (p : Migration → Bool) (same : (m n : Migration) → m.version ≡ n.version → p m ≡ p n) where
  includes-same :
      (m n : Migration) (seen : List ℕ)
      → p m ≡ true
      → p n ≡ false
      → includes (n.version ∷ seen) m.version ≡ includes seen m.version
  includes-same m n seen h k = ground (arith, h, k, same m n)

  -- Filtering by version and dropping duplicates commute.
  unique-filter :
      (seen seen2 : List ℕ) (l : List Migration)
      → ((m : Migration) → p m ≡ true → includes seen m.version ≡ includes seen2 m.version)
      → unique seen2 (filter p l) ≡ filter p (unique seen l)
  unfolding unique
  unique-filter seen seen2 [] h = refl
  unique-filter seen seen2 (m ∷ l) h = elim (Bool-cases (p m)) [
    | inl e ↦ ground (
      arith,
      e,
      h m e,
      unique-filter seen seen2 l h,
      unique-filter (m.version ∷ seen) (m.version ∷ seen2) l
          (λ n k. ap (λ b. (m.version == n.version) || b) (h n k)),
    )
    | inr e ↦ ground (
      arith,
      e,
      unique-filter seen seen2 l h,
      unique-filter (m.version ∷ seen) seen2 l (λ n k. includes-same n m seen k e ∙ h n k),
    )
  ]

-- The migrations that a run takes are those of the directory that the database does not have: it is the
-- same to drop the applied ones before sorting and dropping duplicates, as the code does, and after it.
pub pending_of_catalog :
    {D : Type 0} (files : List File) (db : Db D)
    → pending files db ≡ filter (λ m. not (is_applied db m)) (catalog files)
unfolding pending catalog
pending_of_catalog files db =
    let p = λ (m : Migration). not (is_applied db m) in
    ap (unique []) (
      sym (
        Sort.filter-sort by_version by_version_trans by_version_total p
          (discover_migrations files)))
    ∙ unique-filter p (λ m n e. ap (λ v. not (includes (map (λ r. r.0) db.applied) v)) e) [] []
        (Sort.sort by_version (discover_migrations files)) (λ m e. refl)

module _ (m : Migration) where
  All-unique :
      (seen : List ℕ) (l : List Migration)
      → All (λ n. by_version m n ≡ true) l
      → includes seen m.version ≡ true
      → All (λ n. m.version < n.version) (unique seen l)
  unfolding unique
  All-unique seen [] h k = tt
  All-unique seen (n ∷ l) h k =
      ground (arith, h, k, All-unique seen l h.1 k, All-unique (n.version ∷ seen) l h.1)

unique-Ascending :
    (seen : List ℕ) (l : List Migration) → Sort.Sorted by_version l → Ascending (unique seen l)
unfolding unique
unique-Ascending seen [] h = tt
unique-Ascending seen (m ∷ l) h = ground (
  arith,
  h,
  unique-Ascending seen l h.1,
  unique-Ascending (m.version ∷ seen) l h.1,
  All-unique m (m.version ∷ seen) l h.0,
)

-- In a directory's migrations each version stands once, in ascending order.
pub catalog-Ascending : (files : List File) → Ascending (catalog files)
unfolding catalog
catalog-Ascending files =
    unique-Ascending [] (Sort.sort by_version (discover_migrations files))
      (Sort.sort-Sorted by_version by_version_trans by_version_total (discover_migrations files))
