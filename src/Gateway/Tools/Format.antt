-- ===== src/Gateway/Tools/Format.antt =====
-- tools.go: `formatToolText`, the text that a tool shows of a device's answer.
pub mod Switch
use zshell_gateway.Base.{
  String, Bool, true, false, List, [], ◌∷◌, Option, none, some, str_beq, ◌||◌, if◌then◌else◌,
}
use zshell_gateway.Text.Decimal.{concat}
use zshell_gateway.Gateway.Tools.Json.{
  Json, Items, no_items, item, Object, object_of, as_boolean, or_zero, value_at, string_field,
  bool_field, number_field, number_or_zero, map_field, string_array_field, items_field,
}

-- `strconv.Quote` and `json.Marshal`
pub record Printing : Type 0 where
  pub quote : String → String
  pub marshal : Object → String

-- the texts, one after the other
unfoldable pub join : List String → String
join [] = ""
join (s ∷ rest) = concat s (join rest)

-- `%t`
abbrev pub bool_text : Bool → String
bool_text true = "true"
bool_text false = "false"

-- `if value != "" { … }`
abbrev pub unless_empty : String → String → String → String
unless_empty before value after =
    if str_beq value "" then "" else concat before (concat value after)

module _ (x : Printing) where
  unfoldable pub quote_all : List String → String
  quote_all [] = ""
  quote_all (s ∷ []) = x.quote s
  quote_all (s ∷ t ∷ rest) = concat (x.quote s) (concat " " (quote_all (t ∷ rest)))

  -- `%q` of a `[]string`
  abbrev pub quoted_list : List String → String
  quoted_list l = join ("[" ∷ quote_all l ∷ "]" ∷ [])

  unfoldable pub invocation_arguments : List String → String
  invocation_arguments [] = ""
  invocation_arguments (s ∷ rest) = join (" " ∷ x.quote s ∷ invocation_arguments rest ∷ [])

  -- `jobInvocationSummary`
  abbrev pub job_invocation_summary : Object → String
  job_invocation_summary value =
      concat (string_field value "program") (invocation_arguments (string_array_field value "args"))

-- two streams with their encodings
abbrev pub streams : Object → String
streams value =
    let stdout = map_field value "stdout" in
    let stderr = map_field value "stderr" in
    join (
      "\n\nstdout ("
      ∷ string_field stdout "encoding"
      ∷ "):\n"
      ∷ string_field stdout "data"
      ∷ "\n\nstderr ("
      ∷ string_field stderr "encoding"
      ∷ "):\n"
      ∷ string_field stderr "data"
      ∷ [])

abbrev pub next_offsets : Object → String
next_offsets value = join (
    "\nstdoutNextOffset: "
    ∷ number_or_zero (map_field value "stdout") "nextOffset"
    ∷ "\nstderrNextOffset: "
    ∷ number_or_zero (map_field value "stderr") "nextOffset"
    ∷ [])

abbrev pub environment_text : Object → String
environment_text value = join (
    "OS: "
    ∷ string_field value "os"
    ∷ "\nArch: "
    ∷ string_field value "arch"
    ∷ "\nZig: "
    ∷ string_field value "zigVersion"
    ∷ "\nWorkspace: "
    ∷ string_field value "workspace"
    ∷ [])

abbrev pub exec_text : Object → String
exec_text value = join (
    "execution: "
    ∷ number_or_zero value "executionId"
    ∷ "\nshell: "
    ∷ string_field value "shell"
    ∷ "\ntermination: "
    ∷ string_field value "termination"
    ∷ "\nterminationSource: "
    ∷ string_field value "terminationSource"
    ∷ "\ntimedOut: "
    ∷ bool_text (bool_field value "timedOut")
    ∷ "\nexitCode: "
    ∷ or_zero "unavailable" (number_field value "exitCode")
    ∷ streams value
    ∷ [])

abbrev pub job_text : Printing → Object → String
job_text x value = join (
    "job: "
    ∷ number_or_zero value "jobId"
    ∷ "\nstatus: "
    ∷ string_field value "status"
    ∷ "\nprogram: "
    ∷ string_field value "program"
    ∷ "\nargs: "
    ∷ quoted_list x (string_array_field value "args")
    ∷ "\n"
    ∷ unless_empty "cwd: " (string_field value "cwd") "\n"
    ∷ "exitCode: "
    ∷ or_zero "unavailable" (number_field value "exitCode")
    ∷ "\n"
    ∷ unless_empty "termination: " (string_field value "termination") "\n"
    ∷ unless_empty "terminationSource: " (string_field value "terminationSource") "\n"
    ∷ unless_empty "workerError: " (string_field value "workerError") "\n"
    ∷ "stdoutBytes: "
    ∷ number_or_zero value "stdoutBytes"
    ∷ "\nstderrBytes: "
    ∷ number_or_zero value "stderrBytes"
    ∷ "\n"
    ∷ [])

unfoldable pub job_rows : Printing → Items → String
job_rows x no_items = ""
job_rows x (item raw rest) =
    let value = object_of raw in
    join (
      "["
      ∷ number_or_zero value "job_id"
      ∷ "] "
      ∷ string_field value "status"
      ∷ " - "
      ∷ job_invocation_summary x value
      ∷ "\n"
      ∷ job_rows x rest
      ∷ [])

abbrev pub shell_size : Object → String
shell_size value = join (number_or_zero value "cols" ∷ "x" ∷ number_or_zero value "rows" ∷ [])

abbrev pub shell_start_text : Printing → Object → String
shell_start_text x value = join (
    "shell "
    ∷ number_or_zero value "shellId"
    ∷ " started\nstatus: "
    ∷ string_field value "status"
    ∷ "\nbackend: "
    ∷ string_field value "backend"
    ∷ "\nprogram: "
    ∷ string_field value "shell"
    ∷ "\nargs: "
    ∷ quoted_list x (string_array_field value "args")
    ∷ "\nsize: "
    ∷ shell_size value
    ∷ unless_empty "\ninitialCwd: " (string_field value "initialCwd") ""
    ∷ [])

abbrev pub shell_read_text : Object → String
shell_read_text value = join (
    "shell: "
    ∷ number_or_zero value "shellId"
    ∷ "\nstatus: "
    ∷ string_field value "status"
    ∷ "\nbackend: "
    ∷ string_field value "backend"
    ∷ "\nprogram: "
    ∷ string_field value "shell"
    ∷ "\nsize: "
    ∷ shell_size value
    ∷ unless_empty "\nterminationSource: " (string_field value "terminationSource") ""
    ∷ next_offsets value
    ∷ streams value
    ∷ [])

unfoldable pub shell_rows : Printing → Items → String
shell_rows x no_items = ""
shell_rows x (item raw rest) =
    let value = object_of raw in
    join (
      "["
      ∷ number_or_zero value "shellId"
      ∷ "] "
      ∷ string_field value "status"
      ∷ " - "
      ∷ x.quote (string_field value "shell")
      ∷ " "
      ∷ quoted_list x (string_array_field value "args")
      ∷ " ("
      ∷ shell_size value
      ∷ ")"
      ∷ unless_empty " - " (string_field value "initialCwd") ""
      ∷ "\n"
      ∷ shell_rows x rest
      ∷ [])

unfoldable pub entry_rows : Items → String
entry_rows no_items = ""
entry_rows (item raw rest) =
    let value = object_of raw in
    let size : String = elim (number_field value "size") [
      | none ↦ ""
      | some n ↦ join ("\t" ∷ n ∷ " bytes" ∷ [])
    ] in
    join (
      string_field value "kind"
      ∷ "\t"
      ∷ string_field value "name"
      ∷ size
      ∷ "\n"
      ∷ entry_rows rest
      ∷ [])

unfoldable pub match_rows : Items → String
match_rows no_items = ""
match_rows (item raw rest) =
    let value = object_of raw in
    join (
      string_field value "path"
      ∷ ":"
      ∷ number_or_zero value "line"
      ∷ ":"
      ∷ number_or_zero value "column"
      ∷ ": "
      ∷ string_field value "text"
      ∷ "\n"
      ∷ match_rows rest
      ∷ [])

-- `formatBrowserStatus`
unfoldable pub format_browser_status : Object → String
format_browser_status value =
    let enabled = or_zero true (as_boolean (value_at value "enabled")) in
    join (
      "enabled: "
      ∷ bool_text enabled
      ∷ "\navailable: "
      ∷ bool_text (bool_field value "available")
      ∷ "\nactive: "
      ∷ bool_text (bool_field value "active")
      ∷ (if enabled
          then ""
          else "\nBrowser functionality was not enabled when this ShellCore started.")
      ∷ unless_empty "\nmode: " (string_field value "mode") ""
      ∷ "\nvisible: "
      ∷ bool_text (bool_field value "visible")
      ∷ unless_empty "\nowner: " (string_field value "owner") ""
      ∷ unless_empty "\nprofile: " (string_field value "profile") ""
      ∷ unless_empty "\nagent-browser: " (string_field value "agentBrowserExecutable") ""
      ∷ unless_empty "\nbrowser: " (string_field value "browserExecutable") ""
      ∷ [])
