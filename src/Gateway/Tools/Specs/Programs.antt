-- ===== src/Gateway/Tools/Specs/Programs.antt =====
-- tools.go: `toolSpecs`, commands, jobs and terminals.
use zshell_gateway.Base.{true, false, [], ◌∷◌}
use zshell_gateway.Gateway.Tools.Json.{text, number, object, field, no_fields}
use zshell_gateway.Gateway.Tools.Schema.{
  ToolSpec, command_property, empty_schema, id_property, job_id_schema, object_schema,
  shell_id_schema, stream_read_schema, string_array_property, terminal_dimension_property,
}

abbrev pub environment_info_spec : ToolSpec
environment_info_spec = record {
  name = "environment_info";
  description = "Return information about the local execution environment.";
  input_schema = empty_schema;
  read_only = true;
}

abbrev pub control_status_spec : ToolSpec
control_status_spec = record {
  name = "control_status";
  description = "Report whether the agent currently owns zshell execution control.";
  input_schema = empty_schema;
  read_only = true;
}

abbrev pub exec_spec : ToolSpec
exec_spec = record {
  name = "exec";
  description =
      "Execute a shell command and wait for it to finish. Uses Bash on Linux and PowerShell on Windows. Intended for short-lived commands.";
  input_schema =
      object_schema
        (field "command" (object (command_property "Shell command to execute.")) (
          field "cwd"
            (object (
              field "type" (text "string") (
                field "description"
                  (text
                    "Optional working directory. May be any path accessible to the current OS user.")
                  no_fields)))
            (field "timeoutMs"
              (object (
                field "type" (text "integer") (
                  field "description" (text "Command timeout in milliseconds.")
                    (field "minimum" (number "1") (field "maximum" (number "3600000") no_fields)))))
              no_fields)))
        ("command" ∷ []);
  read_only = false;
}

abbrev pub job_start_spec : ToolSpec
job_start_spec = record {
  name = "job_start";
  description =
      "Start a long-running program directly in the background and return immediately with a job ID. Arguments are passed as argv without shell parsing. To run a shell command, explicitly use a shell executable as program (for example /bin/bash with -c).";
  input_schema =
      object_schema
        (field "program" (object (command_property "Executable to start directly.")) (
          field "args"
            (object (string_array_property "Optional argv entries passed verbatim to program."))
            (field "cwd"
              (object (
                field "type" (text "string") (
                  field "description"
                    (text
                      "Optional working directory. May be any path accessible to the current OS user.")
                    no_fields)))
              no_fields)))
        ("program" ∷ []);
  read_only = false;
}

abbrev pub job_status_spec : ToolSpec
job_status_spec = record {
  name = "job_status";
  description = "Return the current status of a background job.";
  input_schema = job_id_schema "ID of the background job.";
  read_only = true;
}

abbrev pub job_logs_spec : ToolSpec
job_logs_spec = record {
  name = "job_logs";
  description =
      "Return captured stdout and stderr from a background job. Optional stdoutAfter/stderrAfter cursors request only output newer than the previous read.";
  input_schema = stream_read_schema "jobId" "ID of the background job.";
  read_only = true;
}

abbrev pub job_stop_spec : ToolSpec
job_stop_spec = record {
  name = "job_stop";
  description = "Stop a running background job and wait for it to terminate.";
  input_schema = job_id_schema "ID of the background job to stop.";
  read_only = false;
}

abbrev pub job_list_spec : ToolSpec
job_list_spec = record {
  name = "job_list";
  description = "List background jobs managed by zshell.";
  input_schema = empty_schema;
  read_only = true;
}

abbrev pub shell_start_spec : ToolSpec
shell_start_spec = record {
  name = "shell_start";
  description =
      "Start a real interactive terminal session backed by PTY on Linux or ConPTY on Windows. The default is the user's SHELL on Linux and PowerShell on Windows; shell and args may select another interactive shell.";
  input_schema =
      object_schema
        (field "shell"
          (object (
            command_property
              "Optional shell executable, such as zsh, bash, powershell.exe, pwsh.exe, or cmd.exe."))
          (field "args"
            (object (string_array_property "Optional arguments passed to the shell executable."))
            (field "cwd"
              (object (
                field "type" (text "string") (
                  field "description"
                    (text
                      "Optional initial working directory. May be any path accessible to the current OS user.")
                    no_fields)))
              (field "cols"
                (object (
                  terminal_dimension_property
                    "Initial terminal width in columns. Defaults to 120."))
                (field "rows"
                  (object (
                    terminal_dimension_property "Initial terminal height in rows. Defaults to 30."))
                  no_fields)))))
        [];
  read_only = false;
}

abbrev pub shell_write_spec : ToolSpec
shell_write_spec = record {
  name = "shell_write";
  description =
      "Write raw input to an interactive terminal session. By default a terminal Enter key is sent after the input.";
  input_schema =
      object_schema
        (field "shellId" (object (id_property "ID of the persistent shell session.")) (
          field "input"
            (object (
              field "type" (text "string") (
                field "description" (text "Text to write to the shell standard input.") no_fields)))
            (field "enter"
              (object (
                field "type" (text "boolean") (
                  field "description"
                    (text "Whether to send a terminal Enter key after the input. Defaults to true.")
                    no_fields)))
              no_fields)))
        ("shellId" ∷ "input" ∷ []);
  read_only = false;
}

abbrev pub shell_read_spec : ToolSpec
shell_read_spec = record {
  name = "shell_read";
  description =
      "Read terminal output from an interactive shell session. PTY/ConPTY merges terminal output into stdout; stderr is retained as an empty compatibility stream. Optional cursors request only newer retained output.";
  input_schema = stream_read_schema "shellId" "ID of the persistent shell session.";
  read_only = true;
}

abbrev pub shell_resize_spec : ToolSpec
shell_resize_spec = record {
  name = "shell_resize";
  description = "Resize a running PTY/ConPTY terminal session.";
  input_schema =
      object_schema
        (field "shellId" (object (id_property "ID of the persistent shell session.")) (
          field "cols" (object (terminal_dimension_property "Terminal width in columns.")) (
            field "rows" (object (terminal_dimension_property "Terminal height in rows."))
              no_fields)))
        ("shellId" ∷ "cols" ∷ "rows" ∷ []);
  read_only = false;
}

abbrev pub shell_kill_spec : ToolSpec
shell_kill_spec = record {
  name = "shell_kill";
  description = "Terminate a persistent shell session and wait for it to stop.";
  input_schema = shell_id_schema "ID of the persistent shell session to terminate.";
  read_only = false;
}

abbrev pub shell_list_spec : ToolSpec
shell_list_spec = record {
  name = "shell_list";
  description = "List persistent shell sessions managed by zshell.";
  input_schema = empty_schema;
  read_only = true;
}
