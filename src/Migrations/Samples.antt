-- ===== src/Migrations/Samples.antt =====
-- daemon/src/core/migrations.ts on a directory of three files.
use kithkit.Base.{ℕ, String, Bool, false, List, [], ◌∷◌, ◌+◌, none, some, ◌≡◌, refl}
use kithkit.Base.Js.{codes_le, codes, same_codes, strip_prefix, strip_suffix}
use kithkit.Base.Sort
use kithkit.Migrations.{
  File, Db, Exec, done, parse_migration_file, parse_digits, safe_match, drop_spaces, trim_end,
  ends_line, discover_migrations, parsed, pending, unique, run_migrations, apply_each, migrate,
  run_script, sort_lines, split_lines, join_lines, trim, run_alters,
}
use kithkit.Migrations.Resume.{resumed}
use kithkit.Migrations.Table.{Ran, run_migrations-Ran}

abbrev file : String → String → File
file filename sql = record { filename = codes filename; sql = codes sql }

abbrev files : List File
files =
    file "002-b.sql" "B" ∷ file "readme.md" "x" ∷ file "001-a.sql" "A" ∷ file "002-c.sql" "C" ∷ []

-- A database that counts the statements it was given, and has no column twice.
abbrev count_statement : List ℕ → ℕ → Exec ℕ
count_statement statement n = done (n + 1)

abbrev never : String → Bool
never message = false

abbrev empty_db : Db ℕ
empty_db = record { content = 0; applied = [] }

parse_name : parse_migration_file (codes "042-add-index.sql") ≡ some (42, codes "add-index")
unfolding parse_migration_file parse_digits strip_suffix codes same_codes
parse_name = refl

safe_directive : safe_match (codes "--safe-alter:  t ADD c ") ≡ some (codes "t ADD c")
unfolding safe_match strip_prefix drop_spaces trim_end ends_line codes
safe_directive = refl

-- The carriage return of a file with Windows line ends.
safe_directive_crlf : safe_match (codes "--safe-alter: t ADD c\r") ≡ none
unfolding safe_match strip_prefix drop_spaces trim_end ends_line codes
safe_directive_crlf = refl

run_three :
    run_migrations count_statement never files empty_db
    ≡ (record { content = 2; applied = (1, codes "a") ∷ (2, codes "b") ∷ [] }, done 2)
unfolding run_migrations pending apply_each migrate run_script sort_lines split_lines join_lines
    trim run_alters discover_migrations parsed codes_le Sort.sort Sort.insert unique
    parse_migration_file parse_digits strip_suffix codes same_codes safe_match strip_prefix
    drop_spaces trim_end ends_line
run_three = refl

resumed_example :
    (run_migrations count_statement never files
      (run_migrations count_statement never files empty_db).0).0
    ≡ (run_migrations count_statement never files empty_db).0
resumed_example = resumed count_statement count_statement never (λ sql d e h. h) files empty_db

run_migrations-Ran_example :
    Ran count_statement never 0
      (pending files empty_db)
      empty_db
      (run_migrations count_statement never files empty_db)
run_migrations-Ran_example = run_migrations-Ran count_statement never files empty_db
