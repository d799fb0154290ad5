-- ===== src/Gateway/Tools/Format/Switch.antt =====
-- tools.go: the `switch` of `formatToolText` over the tool's name.
use zshell_gateway.Base.{String, ◌||◌, [], ◌∷◌, str_beq, if◌then◌else◌}
use zshell_gateway.Gateway.Tools.Json.{
  Items, no_items, item, Object, string_field, bool_field, number_or_zero, map_field, items_field,
}
use zshell_gateway.Gateway.Tools.Format.{
  Printing, join, bool_text, unless_empty, next_offsets, streams, environment_text, exec_text,
  job_text, job_rows, shell_size, shell_start_text, shell_read_text, shell_rows, entry_rows,
  match_rows, format_browser_status,
}

-- a list of rows, or what stands for an empty one
abbrev rows_or : String → (Items → String) → Items → String
rows_or message rows no_items = message
rows_or message rows (item v rest) = rows (item v rest)

abbrev pub control_text : Object → String
control_text value =
    if bool_field value "canExecute"
    then "Agent has execution control."
    else "Human control is active; new Agent mutations are blocked."

abbrev pub job_logs_text : Object → String
job_logs_text value =
    join ("job: " ∷ number_or_zero value "jobId" ∷ next_offsets value ∷ streams value ∷ [])

abbrev pub shell_kill_text : Object → String
shell_kill_text value = join (
    "shell: "
    ∷ number_or_zero value "shellId"
    ∷ "\nstatus: "
    ∷ string_field value "status"
    ∷ unless_empty "\ntermination: " (string_field value "termination") ""
    ∷ unless_empty "\nterminationSource: " (string_field value "terminationSource") ""
    ∷ [])

abbrev pub file_stat_text : Object → String
file_stat_text value = join (
    "path: "
    ∷ string_field value "path"
    ∷ "\nkind: "
    ∷ string_field value "kind"
    ∷ "\nsize: "
    ∷ number_or_zero value "size"
    ∷ " bytes\nmtimeMs: "
    ∷ number_or_zero value "mtimeMs"
    ∷ [])

abbrev pub file_list_text : Object → String
file_list_text value = join (
    "path: "
    ∷ string_field value "path"
    ∷ "\nnextOffset: "
    ∷ number_or_zero value "nextOffset"
    ∷ "\neof: "
    ∷ bool_text (bool_field value "eof")
    ∷ "\n"
    ∷ entry_rows (items_field value "entries")
    ∷ [])

abbrev pub file_read_text : Object → String
file_read_text value =
    let content = map_field value "content" in
    join (
      "path: "
      ∷ string_field value "path"
      ∷ "\nsize: "
      ∷ number_or_zero value "size"
      ∷ "\noffset: "
      ∷ number_or_zero value "offset"
      ∷ "\nnextOffset: "
      ∷ number_or_zero value "nextOffset"
      ∷ "\neof: "
      ∷ bool_text (bool_field value "eof")
      ∷ "\nencoding: "
      ∷ string_field content "encoding"
      ∷ "\n\n"
      ∷ string_field content "data"
      ∷ [])

abbrev pub file_search_text : Object → String
file_search_text value = join (
    "path: "
    ∷ string_field value "path"
    ∷ "\nquery: "
    ∷ string_field value "query"
    ∷ "\ntruncated: "
    ∷ bool_text (bool_field value "truncated")
    ∷ "\n"
    ∷ match_rows (items_field value "matches")
    ∷ [])

abbrev pub file_write_text : Object → String
file_write_text value = join (
    "path: "
    ∷ string_field value "path"
    ∷ "\nbytesWritten: "
    ∷ number_or_zero value "bytesWritten"
    ∷ "\nsize: "
    ∷ number_or_zero value "size"
    ∷ "\nappended: "
    ∷ bool_text (bool_field value "appended")
    ∷ [])

abbrev pub file_patch_text : Object → String
file_patch_text value = join (
    "path: "
    ∷ string_field value "path"
    ∷ "\nhunksApplied: "
    ∷ number_or_zero value "hunksApplied"
    ∷ "\nsize: "
    ∷ number_or_zero value "size"
    ∷ [])

-- the first of two texts that is not empty, or the whole object as JSON
abbrev first_text : String → String → String → String
first_text a b whole = if str_beq a "" then (if str_beq b "" then whole else b) else a

abbrev pub takeover_text : Object → String
takeover_text value = join (
    format_browser_status (map_field value "browser")
    ∷ (if bool_field value "snapshotRequired"
        then "\nFresh browser_snapshot required before ref-based actions."
        else "")
    ∷ [])

-- the cases of the browser's tools, and the default
unfoldable pub format_browser_text : Printing → String → Object → String
unfolding format_browser_status
format_browser_text x name value =
    let data' = map_field value "data" in
    if str_beq name "browser_status"
    then format_browser_status value
    else if str_beq name "browser_snapshot"
    then first_text (string_field data' "snapshot") "" (x.marshal value)
    else if str_beq name "browser_get"
    then first_text (string_field data' "title") (string_field data' "url") (x.marshal value)
    else if str_beq name "browser_takeover"
    then takeover_text value
    else x.marshal value

-- the cases of the files' tools, and the rest
unfoldable pub format_file_text : Printing → String → Object → String
unfolding format_browser_text entry_rows match_rows
format_file_text x name value =
    if str_beq name "file_stat"
    then file_stat_text value
    else if str_beq name "file_list"
    then file_list_text value
    else if str_beq name "file_read"
    then file_read_text value
    else if str_beq name "file_search"
    then file_search_text value
    else if str_beq name "file_write"
    then file_write_text value
    else if str_beq name "file_patch"
    then file_patch_text value
    else if str_beq name "file_mkdir"
    then join (
        "path: "
        ∷ string_field value "path"
        ∷ "\nrecursive: "
        ∷ bool_text (bool_field value "recursive")
        ∷ [])
    else format_browser_text x name value

-- the cases of the shells' tools, and the rest
unfoldable pub format_shell_text : Printing → String → Object → String
unfolding format_file_text shell_rows
format_shell_text x name value =
    if str_beq name "shell_start"
    then shell_start_text x value
    else if str_beq name "shell_write"
    then join (
        "shell: "
        ∷ number_or_zero value "shellId"
        ∷ "\nsentBytes: "
        ∷ number_or_zero value "sentBytes"
        ∷ "\nenter: "
        ∷ bool_text (bool_field value "enter")
        ∷ [])
    else if str_beq name "shell_resize"
    then join ("shell: " ∷ number_or_zero value "shellId" ∷ "\nsize: " ∷ shell_size value ∷ [])
    else if str_beq name "shell_read"
    then shell_read_text value
    else if str_beq name "shell_kill"
    then shell_kill_text value
    else if str_beq name "shell_list"
    then rows_or "No shells." (shell_rows x) (items_field value "shells")
    else format_file_text x name value

-- `formatToolText`
unfoldable pub format_tool_text : Printing → String → Object → String
unfolding format_shell_text job_rows
format_tool_text x name value =
    if str_beq name "environment_info"
    then environment_text value
    else if str_beq name "control_status"
    then control_text value
    else if str_beq name "exec"
    then exec_text value
    else if str_beq name "job_start"
    then join (
        "job "
        ∷ number_or_zero value "jobId"
        ∷ " started\nstatus: "
        ∷ string_field value "status"
        ∷ [])
    else if str_beq name "job_status" || str_beq name "job_stop"
    then job_text x value
    else if str_beq name "job_logs"
    then job_logs_text value
    else if str_beq name "job_list"
    then rows_or "No jobs." (job_rows x) (items_field value "jobs")
    else format_shell_text x name value
