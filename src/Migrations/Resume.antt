-- ===== src/Migrations/Resume.antt =====
-- daemon/src/core/migrations.ts: runs that fail, and runs after them.
use kithkit.Base.{
  ℕ, suc, ◌<◌, String, Bool, true, false, not, ◌||◌, List, [], ◌∷◌, ◌++◌, map, filter, All, ◌==◌,
  ◌≡◌, refl, sym, ap, ◌∙◌, ◌⊎◌, inl, inr, arith, Bool-cases,
}
use kithkit.Migrations.{
  includes, File, Migration, Db, Exec, done, raised, run_script, migrate, record_version,
  is_applied, apply_each, run_migrations,
}
use kithkit.Migrations.Catalog.{catalog, Ascending, catalog-Ascending, pending_of_catalog}

abbrev pub row : Migration → ℕ × List ℕ
row m = (m.version, m.name)

includes-append :
    (rows : List (ℕ × List ℕ)) (r : ℕ × List ℕ) (v : ℕ)
    → includes (map (λ r. r.0) (rows ++ r ∷ [])) v ≡ (includes (map (λ r. r.0) rows) v || r.0 == v)
includes-append [] r v = ground arith
includes-append (s ∷ rows) r v = ground (arith, includes-append rows r v)

pub Exec-cases :
    {D : Type 0} (r : Exec D)
    → ((message : String) × (r ≡ raised message)) ⊎ ((d : D) × (r ≡ done d))
Exec-cases (raised message) = inl (message, refl)
Exec-cases (done d) = inr (d, refl)

module _ {D : Type 0} (exec : List ℕ → D → Exec D) (is_duplicate : String → Bool) where
  pub migrate-applied :
      (m : Migration) (db after : Db D)
      → migrate exec is_duplicate m db ≡ done after
      → after.applied ≡ db.applied ++ row m ∷ []
  unfolding migrate
  migrate-applied m db after e = by_script (run_script exec is_duplicate m.sql db.content) e
    where
      by_script :
          (r : Exec D)
          → record_version exec is_duplicate m db r ≡ done after
          → after.applied ≡ db.applied ++ row m ∷ []
      by_script (raised message) e = ground (arith, e)
      by_script (done d) e = ground (arith, e)

  migrated-is_applied :
      (m : Migration) (db after : Db D) (n : Migration)
      → migrate exec is_duplicate m db ≡ done after
      → is_applied after n ≡ (is_applied db n || m.version == n.version)
  migrated-is_applied m db after n e =
      ap (λ rows. includes (map (λ r. r.0) rows) n.version) (migrate-applied m db after e)
      ∙ includes-append db.applied (row m) n.version

  -- A run over all migrations that skips the applied ones as it meets them.
  unfoldable pub walk : List Migration → Db D → Db D
  walk [] db = db
  walk (m ∷ ms) db = elim (is_applied db m) [
    | true ↦ walk ms db
    | false ↦ elim (migrate exec is_duplicate m db) [
      | raised message ↦ db
      | done after ↦ walk ms after
    ]
  ]

  later-same :
      (p : Migration → Bool) (m : Migration) (db after : Db D) (l : List Migration)
      → migrate exec is_duplicate m db ≡ done after
      → All (λ n. m.version < n.version) l
      → All (λ n. p n ≡ not (is_applied db n)) l
      → All (λ n. p n ≡ not (is_applied after n)) l
  later-same p m db after [] e a h = tt
  later-same p m db after (n ∷ l) e a h = (
    ground (arith, h, a, migrated-is_applied m db after n e),
    later-same p m db after l e a.1 h.1,
  )

  apply_each-walk :
      (p : Migration → Bool) (l : List Migration) (count : ℕ) (db : Db D)
      → Ascending l
      → All (λ n. p n ≡ not (is_applied db n)) l
      → (apply_each exec is_duplicate (filter p l) count db).0 ≡ walk l db
  unfolding apply_each walk
  apply_each-walk p [] count db a h = refl
  apply_each-walk p (m ∷ l) count db a h = elim (Bool-cases (is_applied db m)) [
    | inl e ↦ ground (arith, e, h, apply_each-walk p l count db a.1 h.1)
    | inr e ↦ elim (Exec-cases (migrate exec is_duplicate m db)) [
      | inl (message, k) ↦ ground (arith, h, k, e)
      | inr (after, k) ↦ ground (
        arith,
        h,
        k,
        e,
        apply_each-walk p l (suc count) after a.1 (later-same p m db after l k a.0 h.1),
      )
    ]
  ]

  All-self : (q : Migration → Bool) (l : List Migration) → All (λ n. q n ≡ q n) l
  All-self q [] = tt
  All-self q (n ∷ l) = (refl, All-self q l)

  run-walk :
      (files : List File) (db : Db D)
      → (run_migrations exec is_duplicate files db).0 ≡ walk (catalog files) db
  unfolding run_migrations
  run-walk files db =
      ap (λ l. (apply_each exec is_duplicate l 0 db).0) (pending_of_catalog files db)
      ∙ apply_each-walk (λ m. not (is_applied db m)) (catalog files) 0 db (catalog-Ascending files)
          (All-self (λ m. not (is_applied db m)) (catalog files))

  walk-keeps :
      (l : List Migration) (n : Migration) (db : Db D)
      → is_applied db n ≡ true
      → is_applied (walk l db) n ≡ true
  unfolding walk
  walk-keeps [] n db h = h
  walk-keeps (m ∷ l) n db h = elim (Bool-cases (is_applied db m)) [
    | inl e ↦ ground (arith, e, walk-keeps l n db h)
    | inr e ↦ elim (Exec-cases (migrate exec is_duplicate m db)) [
      | inl (message, k) ↦ ground (arith, h, k, e)
      | inr (after, k) ↦
          ground (arith, h, k, e, walk-keeps l n after, migrated-is_applied m db after n k)
    ]
  ]

  walk-skips :
      (m : Migration) (l : List Migration) (db : Db D)
      → is_applied db m ≡ true
      → walk (m ∷ l) db ≡ walk l db
  unfolding walk
  walk-skips m l db h = ground (arith, h)

module _ {D : Type 0} (exec exec_later : List ℕ → D → Exec D) (is_duplicate : String → Bool)
    (still : (sql : List ℕ) (d e : D)
      → run_script exec is_duplicate sql d ≡ done e
      → run_script exec_later is_duplicate sql d ≡ done e) where
  migrate-still :
      (m : Migration) (db after : Db D)
      → migrate exec is_duplicate m db ≡ done after
      → migrate exec_later is_duplicate m db ≡ done after
  unfolding migrate
  migrate-still m db after h = elim (Exec-cases (run_script exec is_duplicate m.sql db.content)) [
    | inl (message, k) ↦ ground (arith, h, k)
    | inr (d, k) ↦ ground (arith, h, k, still m.sql db.content d k)
  ]

  walk-again :
      (l : List Migration) (db : Db D)
      → walk exec_later is_duplicate l (walk exec is_duplicate l db)
        ≡ walk exec_later is_duplicate l db
  unfolding walk
  walk-again [] db = refl
  walk-again (m ∷ l) db = elim (Bool-cases (is_applied db m)) [
    | inl e ↦ ground (arith, e, walk-again l db, walk-keeps exec is_duplicate l m db e)
    | inr e ↦ elim (Exec-cases (migrate exec is_duplicate m db)) [
      | inl (message, k) ↦ ground (arith, k, e)
      | inr (after, k) ↦ ground (
        arith,
        k,
        e,
        walk-again l after,
        migrate-still m db after k,
        walk-keeps exec is_duplicate l m after,
        migrated-is_applied exec is_duplicate m db after m k,
      )
    ]
  ]

  -- However a run of the migrations ends, a run after it leaves the database that it would leave without
  -- the first, where the scripts that succeeded in the first run do the same in the second.
  pub resumed :
      (files : List File) (db : Db D)
      → (run_migrations exec_later is_duplicate files
          (run_migrations exec is_duplicate files db).0).0
        ≡ (run_migrations exec_later is_duplicate files db).0
  resumed files db =
      ap (λ b. (run_migrations exec_later is_duplicate files b).0)
        (run-walk exec is_duplicate files db)
      ∙ run-walk exec_later is_duplicate files (walk exec is_duplicate (catalog files) db)
      ∙ walk-again (catalog files) db
      ∙ sym (run-walk exec_later is_duplicate files db)
