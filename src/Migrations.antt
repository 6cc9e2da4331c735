-- ===== src/Migrations.antt =====
-- daemon/src/core/migrations.ts: the `.sql` files of a directory, applied in the order of their versions
-- to a database that records which versions it has.
-- A text is its list of code points. Versions have any number of digits: a JavaScript number rounds
-- from 2 ^ 53 on.
mod Catalog
pub mod Resume
pub mod Table
mod Samples
use kithkit.Base.{
  ℕ, suc, ◌+◌, ◌*◌, ◌-◌, String, Bool, true, false, not, ◌&&◌, ◌||◌, List, [], ◌∷◌, ◌++◌, map,
  Option, none, some, filter, any, length, leb, ltb, ◌==◌, if◌then◌else◌,
}
use kithkit.Base.Sort
use kithkit.Base.Js.{codes_le, codes, strip_prefix, strip_suffix}

abbrev pub includes : List ℕ → ℕ → Bool
includes l n = any (λ m. m == n) l

abbrev is_digit : ℕ → Bool
is_digit c = leb b'0' c && leb c b'9'

-- What `.` does not match.
abbrev is_line_end : ℕ → Bool
is_line_end c = includes (10 ∷ 13 ∷ 8232 ∷ 8233 ∷ []) c

-- What `\s` matches and `trim` drops.
abbrev is_space : ℕ → Bool
is_space c =
    leb 9 c && leb c 13
    || leb 8192 c && leb c 8202
    || includes (32 ∷ 160 ∷ 5760 ∷ 8232 ∷ 8233 ∷ 8239 ∷ 8287 ∷ 12288 ∷ 65279 ∷ []) c

unfoldable pub drop_spaces : List ℕ → List ℕ
drop_spaces [] = []
drop_spaces (c ∷ cs) = elim (is_space c) [ true ↦ drop_spaces cs | false ↦ c ∷ cs ]

-- Drops the white space at the end.
unfoldable pub trim_end : List ℕ → List ℕ
trim_end [] = []
trim_end (c ∷ cs) = elim (trim_end cs) [
  | [] ↦ if is_space c then [] else c ∷ []
  | d ∷ ds ↦ c ∷ d ∷ ds
]

unfoldable pub trim : List ℕ → List ℕ
unfolding drop_spaces trim_end
trim s = trim_end (drop_spaces s)

-- A file of the directory.
pub record File : Type 0 where
  pub filename : List ℕ
  pub sql : List ℕ

pub record Migration : Type 0 where
  pub version : ℕ
  pub name : List ℕ
  pub sql : List ℕ

abbrev named : ℕ → Option (List ℕ) → Option (ℕ × List ℕ)
named version none = none
named version (some []) = none
named version (some (c ∷ cs)) = if any is_line_end (c ∷ cs) then none else some (version, c ∷ cs)

-- After the first digit: more digits, a dash, a name and `.sql`.
unfoldable pub parse_digits : ℕ → List ℕ → Option (ℕ × List ℕ)
unfolding strip_suffix
parse_digits version [] = none
parse_digits version (c ∷ cs) =
    let more = parse_digits (version * 10 + (c - b'0')) cs in
    if is_digit c
    then more
    else if c == b'-'
    then named version (strip_suffix (codes ".sql") cs)
    else none

unfoldable pub parse_migration_file : List ℕ → Option (ℕ × List ℕ)
unfolding parse_digits
parse_migration_file [] = none
parse_migration_file (c ∷ cs) = if is_digit c then parse_digits (c - b'0') cs else none

abbrev migration_of : File → Option (ℕ × List ℕ) → List Migration
migration_of f none = []
migration_of f (some (version, name)) = record { version = version; name = name; sql = f.sql } ∷ []

unfoldable pub parsed : List File → List Migration
unfolding parse_migration_file
parsed [] = []
parsed (f ∷ fs) = migration_of f (parse_migration_file f.filename) ++ parsed fs

abbrev is_some : Option (List ℕ) → Bool
is_some none = false
is_some (some _) = true

unfoldable pub discover_migrations : List File → List Migration
unfolding parsed codes_le Sort.sort strip_suffix
discover_migrations files = parsed (
    Sort.sort (λ f g. codes_le f.filename g.filename)
      (filter (λ f. is_some (strip_suffix (codes ".sql") f.filename)) files))

-- `sql.split('\n')`
unfoldable pub split_lines : List ℕ → List (List ℕ)
split_lines [] = [] ∷ []
split_lines (c ∷ cs) =
    let rest = split_lines cs in
    if c == 10 then [] ∷ rest else elim rest [ [] ↦ (c ∷ []) ∷ [] | l ∷ ls ↦ (c ∷ l) ∷ ls ]

unfoldable pub join_lines : List (List ℕ) → List ℕ
join_lines [] = []
join_lines (l ∷ []) = l
join_lines (l ∷ m ∷ ls) = l ++ (10 ∷ join_lines (m ∷ ls))

unfoldable pub ends_line : List ℕ → Bool
ends_line [] = false
ends_line (c ∷ []) = is_line_end c
ends_line (c ∷ d ∷ cs) = ends_line (d ∷ cs)

-- `\s*(.+)$`, trimmed. White space alone matches by its last character.
abbrev directive : (rest unspaced : List ℕ) → Option (List ℕ)
directive [] [] = none
directive (c ∷ cs) [] = if ends_line (c ∷ cs) then none else some []
directive rest (d ∷ ds) = if any is_line_end (d ∷ ds) then none else some (trim_end (d ∷ ds))

unfoldable pub safe_match : List ℕ → Option (List ℕ)
unfolding codes strip_prefix drop_spaces trim_end ends_line
safe_match line = elim (strip_prefix (codes "--safe-alter:") line) [
  | none ↦ none
  | some rest ↦ directive rest (drop_spaces rest)
]

abbrev put_line :
    List ℕ → Option (List ℕ) → List (List ℕ) × List (List ℕ) → List (List ℕ) × List (List ℕ)
put_line line none (safe_alter_lines, regular_sql) = (safe_alter_lines, line ∷ regular_sql)
put_line line (some alter) (safe_alter_lines, regular_sql) = (alter ∷ safe_alter_lines, regular_sql)

-- The directives, and the other lines.
unfoldable pub sort_lines : List (List ℕ) → List (List ℕ) × List (List ℕ)
unfolding safe_match
sort_lines [] = ([], [])
sort_lines (l ∷ ls) = put_line l (safe_match l) (sort_lines ls)

-- What `db.exec` does: the new content, or an error with its message.
pub data Exec (D : Type 0) : Type 0 where
  done : D → Exec D
  raised : (message : String) → Exec D

-- The content of the database, and its table `migrations`, of which no script takes rows.
pub record Db (D : Type 0) : Type 0 where
  pub content : D
  pub applied : List (ℕ × List ℕ)

unfoldable pub unique : List ℕ → List Migration → List Migration
unique seen [] = []
unique seen (m ∷ ms) = elim (includes seen m.version) [
  | true ↦ unique seen ms
  | false ↦ m ∷ unique (m.version ∷ seen) ms
]

abbrev pub by_version : Migration → Migration → Bool
by_version m n = leb m.version n.version

module _ {D : Type 0} where
  abbrev pub is_applied : Db D → Migration → Bool
  is_applied db m = includes (map (λ r. r.0) db.applied) m.version

  -- The migrations to run, in their order.
  unfoldable pub pending : List File → Db D → List Migration
  unfolding discover_migrations unique Sort.sort
  pending files db =
      unique []
        (Sort.sort by_version (filter (λ m. not (is_applied db m)) (discover_migrations files)))

-- `exec` is SQLite. `is_duplicate` says whether a message includes 'duplicate column name'.
module _ {D : Type 0} (exec : List ℕ → D → Exec D) (is_duplicate : String → Bool) where
  abbrev skip_duplicate : D → Exec D → Exec D
  skip_duplicate d (done e) = done e
  skip_duplicate d (raised message) = if is_duplicate message then done d else raised message

  unfoldable pub run_alters : List (List ℕ) → Exec D → Exec D
  unfolding codes
  run_alters [] r = r
  run_alters (alter ∷ alters) (raised message) = raised message
  run_alters (alter ∷ alters) (done d) =
      run_alters alters (skip_duplicate d (exec (codes "ALTER TABLE " ++ alter) d))

  abbrev run_regular : List ℕ → D → Exec D
  run_regular [] d = done d
  run_regular (c ∷ cs) d = exec (c ∷ cs) d

  -- The statements of a migration's transaction.
  unfoldable pub run_script : List ℕ → D → Exec D
  unfolding sort_lines split_lines join_lines trim run_alters
  run_script sql d =
      let (safe_alter_lines, regular_sql) = sort_lines (split_lines sql) in
      run_alters safe_alter_lines (run_regular (trim (join_lines regular_sql)) d)

  abbrev pub record_version : Migration → Db D → Exec D → Exec (Db D)
  record_version m db (raised message) = raised message
  record_version m db (done d) =
      if is_applied db m
      then raised "UNIQUE constraint failed: migrations.version"
      else done (record { content = d; applied = db.applied ++ (m.version, m.name) ∷ [] })

  -- One transaction. An error rolls it back.
  unfoldable pub migrate : Migration → Db D → Exec (Db D)
  unfolding run_script
  migrate m db = record_version m db (run_script m.sql db.content)

  -- How many were applied, or the error that ended the run.
  unfoldable pub apply_each : List Migration → ℕ → Db D → Db D × Exec ℕ
  unfolding migrate
  apply_each [] count db = (db, done count)
  apply_each (m ∷ ms) count db = elim (migrate m db) [
    | raised message ↦ (db, raised message)
    | done after ↦ apply_each ms (suc count) after
  ]

  unfoldable pub run_migrations : List File → Db D → Db D × Exec ℕ
  unfolding pending apply_each
  run_migrations files db = apply_each (pending files db) 0 db
