-- ===== src/Cli/Work.antt =====
-- src/bin/animus.rs: the commands `work submit` and `work list`. What a command prints is
-- the list of the texts that it passes to `println!`.
use animus_rs.Prelude.{
  newline, ℕ, zero, suc, ◌-◌, ltb, leb, ℤ, Bool, true, not, ◌&&◌, Option, none, some, List, [], ◌∷◌,
  ◌++◌, take, drop, length, Text, lit, is_empty, decimal, Result, ok, err, unwrap_or, if◌then◌else◌,
}
use animus_rs.Json.{JsonLib}
use animus_rs.Work.State
use animus_rs.Work.State.{State}
use animus_rs.Work.Item.{
  Uuid, Time, WorkId, WorkItem, NewWorkItem, new_item, with_skill, with_dedup_key, with_trigger,
  with_params, with_priority,
}
use animus_rs.Db.Pgmq.{Pgmq}
use animus_rs.Db.Session.{Error, World}
use animus_rs.Db.Work.{SubmitResult, created, merged, submit_work}
use animus_rs.Db.Work.Listing.{list_work_items}
use animus_rs.Engine.Focus.{show_int}
use animus_rs.Cli.Failure.{Failure}
use animus_rs.Cli.Prompt.{passed_on}

-- What a command does: its result, what it printed, and the database behind it.
pub record Run {V : Type 0} (P : Pgmq V) : Type 0 where
  pub result : Result Failure (Unit {0})
  pub printed : List Text
  pub world : World P

module _ {V : Type 0} {P : Pgmq V} where
  -- An error of the database or in front of it ends the command, before anything is printed.
  abbrev pub fails : Failure → World P → Run P
  fails e w = record { result = err e; printed = []; world = w }

  abbrev pub prints : List Text → World P → Run P
  prints lines w = record { result = ok tt; printed = lines; world = w }

  abbrev pub after_db : {A : Type 0} → Result Error A × World P → (A → World P → Run P) → Run P
  after_db (ok a, w) next = next a w
  after_db (err e, w) next = fails (Failure.engine e) w

  abbrev pub after : {A : Type 0} → Result Failure A → World P → (A → World P → Run P) → Run P
  after (ok a) w next = next a w
  after (err e) w next = fails e w

-- `→` in UTF-8.
abbrev arrow : Text
arrow = 226 ∷ 134 ∷ 146 ∷ []

-- `WorkId::fmt`
abbrev pub show_id : (Uuid → Text) → WorkId → Text
show_id show_uuid id = take 8 (show_uuid id.uuid)

-- The setters that are called only for an option that is given.
pub with_option :
    {V : Type 0}
    → (Text → NewWorkItem V → NewWorkItem V)
    → Option Text
    → NewWorkItem V
    → NewWorkItem V
with_option setter none item = item
with_option setter (some s) item = setter s item

module _ (j : JsonLib) (P : Pgmq j.Value) (show_uuid : Uuid → Text) where
  open j use {Value, null, object, from_str, to_string_pretty}

  pub submit_line : SubmitResult Value → Text
  submit_line (created item) =
      lit "Created: "
      ++ (show_id show_uuid item.id ++ (lit " (state: " ++ (State.show item.state ++ lit ")")))
  submit_line (merged new_id canonical_id) =
      lit "Merged: "
      ++ (show_id show_uuid new_id
          ++ (lit " " ++ (arrow ++ (lit " canonical " ++ show_id show_uuid canonical_id))))

  pub params_of : Option Text → Result Text Value
  params_of none = ok (object [])
  params_of (some json) = from_str json

  -- `id`, `now` and `db_now` are those of `submit_work`.
  pub cmd_work_submit :
      Uuid
      → Time
      → Time
      → (faculty source : Text) (skill dedup_key trigger params : Option Text) → ℤ
      → World P
      → Run P
  cmd_work_submit id now db_now faculty source skill dedup_key trigger params priority w =
      after (passed_on (params_of params)) w (λ value w1.
        let base = with_priority priority (with_params value (new_item null faculty source)) in
        let new =
          with_option with_trigger trigger
            (with_option with_dedup_key dedup_key (with_option with_skill skill base)) in
        after_db (submit_work j P show_uuid id now db_now new w1)
          (λ result w2. prints (submit_line result ∷ []) w2))

  -- `{:<n}` on a text: spaces up to a number of characters. A character is one byte and its
  -- continuation bytes.
  abbrev pub is_continuation : ℕ → Bool
  is_continuation c = leb 128 c && ltb c 192

  pub characters : Text → ℕ
  characters [] = 0
  characters (c ∷ s) = let n = characters s in if is_continuation c then n else suc n

  abbrev pub spaces : ℕ → Text
  spaces zero = []
  spaces (suc n) = 32 ∷ spaces n

  pub pad : ℕ → Text → Text
  pad n s = s ++ spaces (n - characters s)

  abbrev pub at_boundary : Text → Bool
  at_boundary [] = true
  at_boundary (c ∷ s) = not (is_continuation c)

  -- A skill of more than 20 bytes is cut there, which panics within a character.
  pub skill_display : Option Text → Result Failure Text
  skill_display skill =
      let s = unwrap_or (lit "-") skill in
      if ltb 20 (length s)
      then (if at_boundary (drop 20 s) then ok (take 20 s) else err (Failure.panic s))
      else ok s

  -- The times are shown by a library.
  module _ (show_minute show_time : Time → Text) where
    -- The state is not padded: its `Display` writes without a width.
    abbrev item_line : WorkItem Value → Text → Text
    item_line item skill =
        pad 8 (show_id show_uuid item.id)
        ++ (lit "  "
            ++ (pad 12 item.faculty
                ++ (lit "  "
                    ++ (pad 20 skill
                        ++ (lit "  "
                            ++ (State.show item.state
                                ++ (lit "  "
                                    ++ (pad 4 (show_int item.priority)
                                        ++ (lit "  " ++ show_minute item.created_at)))))))))

    -- The loop, behind the texts printed so far.
    pub print_items : List (WorkItem Value) → List Text → Result Failure (Unit {0}) × List Text
    print_items [] printed = (ok tt, printed)
    print_items (item ∷ items) printed = elim (skill_display item.skill) [
      | err e ↦ (err e, printed)
      | ok skill ↦ print_items items (printed ++ item_line item skill ∷ [])
    ]

    abbrev header_lines : List Text
    header_lines =
        (pad 8 (lit "ID")
          ++ (lit "  "
              ++ (pad 12 (lit "FACULTY")
                  ++ (lit "  "
                      ++ (pad 20 (lit "SKILL")
                          ++ (lit "  "
                              ++ (pad 10 (lit "STATE")
                                  ++ (lit "  " ++ (pad 4 (lit "PRI") ++ lit "  CREATED")))))))))
        ∷ dashes 90
        ∷ []
      where
        dashes : ℕ → Text
        dashes zero = []
        dashes (suc n) = 45 ∷ dashes n

    -- The text with the number of items starts with an empty line.
    pub counted : List (WorkItem Value) → Result Failure (Unit {0}) × List Text → World P → Run P
    counted items (err e, printed) w = record { result = err e; printed = printed; world = w }
    counted items (ok _, printed) w =
        prints (printed ++ (newline ∷ decimal (length items) ++ lit " item(s)") ∷ []) w

    pub list_lines : List (WorkItem Value) → World P → Run P
    list_lines items w =
        if is_empty items
        then prints (lit "No work items found." ∷ []) w
        else counted items (print_items items header_lines) w

    pub state_filter : Option Text → Result Failure (Option State)
    state_filter none = ok none
    state_filter (some s) = elim (State.parse s) [
      | ok state ↦ ok (some state)
      | err e ↦ err (Failure.bail (lit "invalid state: " ++ s))
    ]

    pub cmd_work_list : Option Text → Option Text → ℤ → World P → Run P
    cmd_work_list state faculty limit w = after (state_filter state) w (λ filter w1.
        after_db (list_work_items j P filter faculty limit w1) (λ items w2. list_lines items w2))
