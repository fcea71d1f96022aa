-- ===== src/Engine/Faculty.antt =====
-- src/faculty/mod.rs: the configuration of a faculty, and the registry. What the file system answers
-- and the TOML parser are arguments.
use animus_rs.Prelude.{
  ℕ, Bool, Option, none, some, List, [], ◌∷◌, ◌++◌, Text, lit, text_eq, Result, ok, err,
  if◌then◌else◌,
}
use animus_rs.Db.Session.{Error}

pub record HookConfig : Type 0 where
  pub command : Text

pub record RecoverConfig : Type 0 where
  pub command : Text
  pub max_attempts : ℕ

pub record FacultyMeta : Type 0 where
  pub name : Text
  pub concurrent : Bool
  pub isolation : Option Text
  pub orient : Option HookConfig
  pub engage : HookConfig
  pub consolidate : Option HookConfig
  pub recover : RecoverConfig

-- A `HashMap<String, FacultyMeta>`: the entries inserted, the last one first.
abbrev pub FacultyRegistry : Type 0
FacultyRegistry = List (Text × FacultyMeta)

pub empty : FacultyRegistry
empty = []

-- `insert` under the faculty's own name.
pub insert : FacultyMeta → FacultyRegistry → FacultyRegistry
insert f faculties = (f.name, f) ∷ faculties

-- `HashMap::get`
unfoldable pub get : FacultyRegistry → Text → Option FacultyMeta
get [] name = none
get ((k, f) ∷ faculties) name = if text_eq k name then some f else get faculties name

-- One entry of the directory.
pub record DirEntry : Type 0 where
  pub path : Text
  pub is_toml : Bool
  pub content : Result Text Text

-- The loop of `load_from_dir`, where `from_str` is the TOML parser on a `FacultyConfig`.
pub load_entries :
    (from_str : Text → Result Text FacultyMeta)
    → FacultyRegistry
    → List (Result Text DirEntry)
    → Result Error FacultyRegistry
load_entries from_str faculties [] = ok faculties
load_entries from_str faculties (err e ∷ entries) = err (Error.io e)
load_entries from_str faculties (ok entry ∷ entries) =
    let skipped = load_entries from_str faculties entries in
    if entry.is_toml
    then elim entry.content [
      | err e ↦ err (Error.io e)
      | ok content ↦ elim (from_str content) [
        | err e ↦ err (Error.config (lit "bad faculty config " ++ entry.path ++ lit ": " ++ e))
        | ok f ↦ load_entries from_str (insert f faculties) entries
      ]
    ]
    else skipped

-- `dir` with what reading it answers.
pub load_from_dir :
    (from_str : Text → Result Text FacultyMeta) (dir : Text)
    → Result Text (List (Result Text DirEntry))
    → Result Error FacultyRegistry
load_from_dir from_str dir (err e) =
    err (Error.config (lit "cannot read faculty dir " ++ dir ++ lit ": " ++ e))
load_from_dir from_str dir (ok entries) = load_entries from_str empty entries
