-- ===== src/Tests/Focus.antt =====
-- A run of a focus on a host whose hooks succeed.
use animus_rs.Prelude.{pos, true, false, none, some, List, [], ◌∷◌, ◌++◌, Text, lit, ok, decimal}
use animus_rs.Json.{JsonLib}
use animus_rs.Json.Model as Values
use animus_rs.Work.State.{State}
use animus_rs.Db.Rows.{item_of, new_row}
use animus_rs.Engine.Host.{Host}
use animus_rs.Engine.Faculty.{FacultyMeta}
use animus_rs.Engine.Focus.{Focus, run}
use animus_rs.Engine.Focus.Pipeline.{Explains, run-Explains}

abbrev pub json : JsonLib
json = Values.model (λ s. ok (Values.string s)) (λ v. [])

-- A machine is the list of the commands that it has run.
abbrev pub host : Host
host = record {
  Machine = List Text;
  create_dir_all = λ dir m. (ok tt, m);
  write = λ path content m. (ok tt, m);
  read_to_string = λ path m. ok path;
  exists = λ path m. false;
  remove_dir_all = λ path m. (ok tt, m);
  current_dir = λ m. ok (lit "/work");
  is_relative = λ path. false;
  join = λ dir path. dir ++ lit "/" ++ path;
  status =
      λ command dir env m. (ok (record { success = true; code = some (pos 0) }), m ++ command ∷ []);
  elapsed = λ m. 3;
}

abbrev pub faculty : FacultyMeta
faculty = record {
  name = lit "transform";
  concurrent = false;
  isolation = none;
  orient = some (record { command = lit "/bin/orient" });
  engage = record { command = lit "/bin/engage" };
  consolidate = none;
  recover = record { command = lit "/bin/recover"; max_attempts = 3 };
}

abbrev focus : Focus Values.Value
focus = record {
  id = 1;
  dir = lit "/tmp/1";
  work_item =
      item_of
        (new_row 7 4 (record {
          faculty = lit "transform";
          skill = none;
          dedup_key = none;
          provenance = record { source = lit "cli"; trigger = none };
          params = Values.null;
          priority = pos 0;
          parent_id = none;
          max_attempts = none;
        }))
        State.running;
}

run-Explains_example :
    Explains json host decimal focus faculty [] (run json host decimal focus faculty [])
run-Explains_example = run-Explains json host decimal focus faculty []
