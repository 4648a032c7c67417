-- ===== src/Core/Upid.antt =====
-- src/core/tasks.ts: the identifier of a worker task, and what its exit status means.
pub mod RoundTrip
use pve_agent.Base.{
  ltb, leb, ◌==◌, if◌then◌else◌, in_range, length, take, drop, all, Text, codes, text_eq, split,
  is_space, is_digit, is_alpha, is_alnum, Outcome, ok, throw, ℕ, ◌+◌, ◌-◌, ◌*◌, ◌≡◌, refl, Bool,
  true, false, not, ◌&&◌, ◌||◌, Option, none, some, List, [], ◌∷◌,
}
use pve_agent.Core.Values.{
  JsValue, string, Decimal, JsNumber, to_optional_string, to_optional_number,
}

pub record ParsedUpid : Type 0 where
  pub node : Text
  pub pid : ℕ
  pub pstart : ℕ
  pub start_time : ℕ
  pub type : Text
  pub id : Text
  pub user : Text
  pub upid : Text

unfoldable pub is_hex : ℕ → Bool
unfolding is_digit
is_hex c = is_digit c || (in_range b'A' b'F' c || in_range b'a' b'f' c)

-- `Number.parseInt(s, 16)` of hexadecimal digits.
unfoldable pub hex_value : ℕ → Text → ℕ
hex_value n [] = n
hex_value n (c ∷ s) =
    hex_value
      (n * 16
        + (if leb c b'9' then c - b'0' else if leb c b'F' then c - b'A' + 10 else c - b'a' + 10))
      s

-- `[a-zA-Z0-9](?:[a-zA-Z0-9-]*[a-zA-Z0-9])?`: letters, digits and dashes, with no dash at an end.
unfoldable pub node_rest : Text → Bool
node_rest [] = true
node_rest (c ∷ []) = is_alnum c
node_rest (c ∷ d ∷ s) = (is_alnum c || c == b'-') && node_rest (d ∷ s)

unfoldable pub is_node_name : Text → Bool
unfolding node_rest is_alnum is_alpha is_digit
is_node_name [] = false
is_node_name (c ∷ s) = is_alnum c && node_rest s

-- `{lo,hi}` hexadecimal digits.
unfoldable pub is_hex_field : ℕ → ℕ → Text → Bool
unfolding is_hex
is_hex_field lo hi s = in_range lo hi (length s) && all is_hex s

-- `[^:\s/]*`; the colon is the separator of the fields.
unfoldable pub is_name_field : Text → Bool
unfolding is_space
is_name_field s = all (λ c. not (c == b':' || (is_space c || c == b'/'))) s

abbrev pub is_name_field1 : Text → Bool
is_name_field1 [] = false
is_name_field1 (c ∷ s) = is_name_field (c ∷ s)

-- UPID_RE, whose groups hold no colon, against the nine fields between colons.
abbrev pub fields_ok : (tag node pid pstart start type id user end : Text) → Bool
fields_ok tag node pid pstart start type id user end =
    text_eq tag (codes "UPID")
    && (is_node_name node
        && (is_hex_field 8 8 pid
            && (is_hex_field 8 9 pstart
                && (is_hex_field 8 8 start
                    && (is_name_field1 type
                        && (is_name_field id && (is_name_field1 user && length end == 0)))))))

unfoldable pub upid_of : Text → List Text → Option ParsedUpid
upid_of text (tag ∷ node ∷ pid ∷ pstart ∷ start ∷ type ∷ id ∷ user ∷ end ∷ []) =
    if fields_ok tag node pid pstart start type id user end
    then some (record {
      node = node;
      pid = hex_value 0 pid;
      pstart = hex_value 0 pstart;
      start_time = hex_value 0 start;
      type = type;
      id = id;
      user = user;
      upid = text;
    })
    else none
upid_of text _ = none

-- The error is the text that is no UPID.
abbrev pub or_throw : Text → Option ParsedUpid → Outcome Text ParsedUpid
or_throw text none = throw text
or_throw text (some parsed) = ok parsed

unfoldable pub parse_upid : Text → Outcome Text ParsedUpid
unfolding upid_of is_node_name is_hex_field is_name_field split text_eq hex_value
parse_upid text = or_throw text (upid_of text (split b':' text))

abbrev is_ok : {E A : Type 0} → Outcome E A → Bool
is_ok (ok a) = true
is_ok (throw e) = false

unfoldable pub is_upid : JsValue → Bool
unfolding parse_upid
is_upid (string s) = is_ok (parse_upid s)
is_upid _ = false

pub data TaskOutcome : Type 0 where
  succeeded warning error unknown : TaskOutcome

-- `/^WARNINGS: \d+$/`.
unfoldable pub is_warnings : Text → Bool
unfolding text_eq is_digit
is_warnings s =
    text_eq (take 10 s) (codes "WARNINGS: ") && (ltb 10 (length s) && all is_digit (drop 10 s))

unfoldable pub task_outcome : Option Text → TaskOutcome
unfolding text_eq is_warnings
task_outcome none = unknown
task_outcome (some status) =
    if length status == 0
    then unknown
    else if text_eq status (codes "OK")
    then succeeded
    else if is_warnings status
    then warning
    else if text_eq status (codes "unexpected status")
    then unknown
    else error

pub data TaskRunState : Type 0 where
  running stopped : TaskRunState

-- The test of waitForTask on a task that has stopped.
unfoldable pub is_failed : TaskOutcome → Bool → Bool
is_failed error fail_on_warnings = true
is_failed unknown fail_on_warnings = true
is_failed warning fail_on_warnings = fail_on_warnings
is_failed succeeded fail_on_warnings = false

-- A row of a task list, by its fields.
pub record TaskRow : Type 0 where
  pub upid : JsValue
  pub node : JsValue
  pub type : JsValue
  pub id : JsValue
  pub user : JsValue
  pub status : JsValue
  pub pid : JsValue
  pub starttime : JsValue
  pub endtime : JsValue

pub record TaskListEntry : Type 0 where
  pub upid : Text
  pub node : Text
  pub type : Text
  pub id : Text
  pub user : Text
  pub pid : Option Decimal
  pub start_time : Decimal
  pub end_time : Option Decimal
  pub status : TaskRunState
  pub exit_status : Option Text
  pub outcome : TaskOutcome

abbrev or_empty : Option Text → Text
or_empty none = []
or_empty (some s) = s

abbrev or_zero : Option Decimal → Decimal
or_zero none = record { is_negative = false; digits = 0; scale = 0 }
or_zero (some d) = d

abbrev run_state : Option Decimal → Option Text → TaskRunState
run_state none none = running
run_state _ _ = stopped

module _ (print_number : JsNumber → Text) where
  abbrev text_of : JsValue → Option Text
  text_of = to_optional_string print_number

  unfoldable pub normalize_task_list_entry : TaskRow → TaskListEntry
  normalize_task_list_entry row =
      let exit_status = text_of row.status in
      let end_time = to_optional_number row.endtime in
      record {
        upid = or_empty (text_of row.upid);
        node = or_empty (text_of row.node);
        type = or_empty (text_of row.type);
        id = or_empty (text_of row.id);
        user = or_empty (text_of row.user);
        pid = to_optional_number row.pid;
        start_time = or_zero (to_optional_number row.starttime);
        end_time = end_time;
        status = run_state end_time exit_status;
        exit_status = exit_status;
        outcome = task_outcome exit_status;
      }

upid_tests :
    (parse_upid (codes "UPID:pve-1:0000C350:0012D687:65A1B2C3:qmstart:100:root@pam:")
      ≡ ok (record {
        node = codes "pve-1";
        pid = 0xc350;
        pstart = 0x12d687;
        start_time = 0x65a1b2c3;
        type = codes "qmstart";
        id = codes "100";
        user = codes "root@pam";
        upid = codes "UPID:pve-1:0000C350:0012D687:65A1B2C3:qmstart:100:root@pam:";
      }))
    × (is_upid (string (codes "UPID:-x:0000C350:0012D687:65A1B2C3:qmstart::root@pam:")) ≡ false)
    × (task_outcome (some (codes "WARNINGS: 3")) ≡ warning)
unfolding parse_upid is_upid task_outcome
upid_tests = (refl, refl, refl)
