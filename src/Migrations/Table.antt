-- ===== src/Migrations/Table.antt =====
-- daemon/src/core/migrations.ts: what a run leaves in the table `migrations`.
use kithkit.Base.{
  ℕ, suc, ◌+◌, String, Bool, List, [], ◌∷◌, ◌++◌, map, length, ◌≡◌, refl, sym, ap, ◌∙◌, subst, inl,
  inr, arith,
}
use kithkit.Migrations.{
  File, Migration, Db, Exec, done, raised, migrate, pending, apply_each, run_migrations,
}
use kithkit.Migrations.Resume.{row, Exec-cases, migrate-applied}
use mathlib.Core.List.{append-nil, append_assoc}

module _ {D : Type 0} (exec : List ℕ → D → Exec D) (is_duplicate : String → Bool) where
  -- A complete run leaves no migration, and gives how many there were with the `count` before. Else
  -- the first that is left has failed, in the state that the run leaves.
  abbrev pub Ended : ℕ → (ran left : List Migration) → Db D → Exec ℕ → Type 0
  Ended count ran left db (done n) = (left ≡ []) × (n ≡ count + length ran)
  Ended count ran left db (raised message) =
      (m : Migration) × ((rest : List Migration) × ((left ≡ m ∷ rest)
          × (migrate exec is_duplicate m db ≡ raised message)))

  -- Of the migrations to do, some first ones were run and recorded.
  abbrev pub Ran : ℕ → (todo : List Migration) → Db D → Db D × Exec ℕ → Type 0
  Ran count todo db (after, result) =
      (ran : List Migration) × ((left : List Migration) × ((todo ≡ ran ++ left)
          × ((after.applied ≡ db.applied ++ map row ran) × Ended count ran left after result)))

  one_more :
      (count : ℕ) (m : Migration) (ran left : List Migration) (db : Db D) (r : Exec ℕ)
      → Ended (suc count) ran left db r
      → Ended count (m ∷ ran) left db r
  one_more count m ran left db (done n) h = (h.0, omega (arith, h.1))
  one_more count m ran left db (raised message) h = h

  stopped :
      (m : Migration) (todo : List Migration) (count : ℕ) (db : Db D) (message : String)
      → migrate exec is_duplicate m db ≡ raised message
      → apply_each exec is_duplicate (m ∷ todo) count db ≡ (db, raised message)
  unfolding apply_each
  stopped m todo count db message e = ground (arith, e)

  continued :
      (m : Migration) (todo : List Migration) (count : ℕ) (db after : Db D)
      → migrate exec is_duplicate m db ≡ done after
      → apply_each exec is_duplicate (m ∷ todo) count db
        ≡ apply_each exec is_duplicate todo (suc count) after
  unfolding apply_each
  continued m todo count db after e = ground (arith, e)

  apply_each-Ran :
      (todo : List Migration) (count : ℕ) (db : Db D)
      → Ran count todo db (apply_each exec is_duplicate todo count db)
  unfolding apply_each
  apply_each-Ran [] count db =
      ([], ([], (refl, (sym (append-nil db.applied), (refl, omega arith)))))
  apply_each-Ran (m ∷ todo) count db = elim (Exec-cases (migrate exec is_duplicate m db)) [
    | inl (message, e) ↦
        subst (Ran count (m ∷ todo) db) (sym (stopped m todo count db message e))
          ([], (m ∷ todo, (refl, (sym (append-nil db.applied), (m, (todo, (refl, e)))))))
    | inr (after, e) ↦
        let (ran, (left, (split, (rows, ended)))) = apply_each-Ran todo (suc count) after in
        let end = apply_each exec is_duplicate todo (suc count) after in
        subst (Ran count (m ∷ todo) db) (sym (continued m todo count db after e)) (
          m ∷ ran,
          (
            left,
            (
              ap (λ l. m ∷ l) split,
              (
                rows
                    ∙ ap (λ l. l ++ map row ran) (migrate-applied exec is_duplicate m db after e)
                    ∙ append_assoc db.applied (row m ∷ []) (map row ran),
                one_more count m ran left end.0 end.1 ended,
              ),
            ),
          ),
        )
  ]

  -- A run records the migrations that it takes in their order, up to the first that fails, and each with
  -- its version and name: a complete run records all of them and gives their number, a failed one gives
  -- the error with which the first that it has not recorded fails in the database that it leaves.
  pub run_migrations-Ran :
      (files : List File) (db : Db D)
      → Ran 0 (pending files db) db (run_migrations exec is_duplicate files db)
  unfolding run_migrations
  run_migrations-Ran files db = apply_each-Ran (pending files db) 0 db
