-- ===== src/Gateway/Tools/Specs/Files.antt =====
-- tools.go: `toolSpecs`, files.
use zshell_gateway.Base.{true, false, [], ◌∷◌}
use zshell_gateway.Gateway.Tools.Json.{text, number, object, field, no_fields}
use zshell_gateway.Gateway.Tools.Schema.{
  ToolSpec, non_negative_integer_property, object_schema, path_property, texts_json,
}

abbrev pub file_stat_spec : ToolSpec
file_stat_spec = record {
  name = "file_stat";
  description = "Return metadata for a file-system path without reading its contents.";
  input_schema =
      object_schema
        (field "path"
          (object (
            path_property
              "File or directory path. Relative paths are resolved from the zshell workspace."))
          no_fields)
        ("path" ∷ []);
  read_only = true;
}

abbrev pub file_list_spec : ToolSpec
file_list_spec = record {
  name = "file_list";
  description = "List entries in a directory. Supports bounded pagination by entry offset.";
  input_schema =
      object_schema
        (field "path" (object (path_property "Directory path. Defaults to the zshell workspace.")) (
          field "offset"
            (object (
              non_negative_integer_property "Entry offset to start from. Defaults to 0."
                "9223372036854775807"))
            (field "maxEntries"
              (object (
                field "type" (text "integer") (
                  field "description" (text "Maximum entries to return. Defaults to 200.")
                    (field "minimum" (number "1") (field "maximum" (number "1000") no_fields)))))
              no_fields)))
        [];
  read_only = true;
}

abbrev pub file_read_spec : ToolSpec
file_read_spec = record {
  name = "file_read";
  description =
      "Read a bounded byte range from a file. UTF-8 is returned directly; arbitrary binary data is returned as base64.";
  input_schema =
      object_schema
        (field "path" (object (path_property "File path to read.")) (
          field "offset"
            (object (
              non_negative_integer_property
                "Absolute byte offset to start reading from. Defaults to 0." "9223372036854775807"))
            (field "maxBytes"
              (object (
                field "type" (text "integer") (
                  field "description"
                    (text "Maximum bytes to read. Defaults to 262144 and is capped at 1048576.")
                    (field "minimum" (number "1") (field "maximum" (number "1048576") no_fields)))))
              no_fields)))
        ("path" ∷ []);
  read_only = true;
}

abbrev pub file_search_spec : ToolSpec
file_search_spec = record {
  name = "file_search";
  description =
      "Recursively search UTF-8 text files for a literal string. Optionally filter file paths with a simple * and ? glob. Files larger than 4 MiB are skipped.";
  input_schema =
      object_schema
        (field "path"
          (object
            (path_property "Directory to search recursively. Defaults to the zshell workspace."))
          (field "query"
            (object (
              field "type" (text "string") (
                field "description" (text "Literal UTF-8 text to find.")
                  (field "minLength" (number "1") no_fields))))
            (field "glob"
              (object (
                field "type" (text "string") (
                  field "description"
                    (text
                      "Optional simple glob using * and ?. A pattern without path separators matches basenames.")
                    (field "minLength" (number "1") no_fields))))
              (field "maxResults"
                (object (
                  field "type" (text "integer") (
                    field "description" (text "Maximum matching lines to return. Defaults to 100.")
                      (field "minimum" (number "1") (field "maximum" (number "1000") no_fields)))))
                no_fields))))
        ("query" ∷ []);
  read_only = true;
}

abbrev pub file_write_spec : ToolSpec
file_write_spec = record {
  name = "file_write";
  description =
      "Write or append data to a file. Data may be UTF-8 text or base64-encoded binary, with a decoded limit of 4 MiB per call.";
  input_schema =
      object_schema
        (field "path" (object (path_property "File path to create or modify.")) (
          field "data"
            (object (
              field "type" (text "string") (
                field "description" (text "Text data or base64 data according to encoding.")
                  no_fields)))
            (field "encoding"
              (object (
                field "type" (text "string") (
                  field "description" (text "Input encoding. Defaults to utf8.")
                    (field "enum" (texts_json ("utf8" ∷ "base64" ∷ [])) no_fields))))
              (field "append"
                (object (
                  field "type" (text "boolean") (
                    field "description"
                      (text "Append instead of replacing the file. Defaults to false.") no_fields)))
                no_fields))))
        ("path" ∷ "data" ∷ []);
  read_only = false;
}

abbrev pub file_patch_spec : ToolSpec
file_patch_spec = record {
  name = "file_patch";
  description =
      "Apply a unified diff to one existing UTF-8 text file. Every hunk is context-checked and the operation fails if the current file does not match the patch.";
  input_schema =
      object_schema
        (field "path" (object (path_property "Existing text file to modify.")) (
          field "patch"
            (object (
              field "type" (text "string") (
                field "description"
                  (text
                    "Unified diff containing one or more @@ hunks. ---/+++ headers are optional.")
                  (field "minLength" (number "1") no_fields))))
            no_fields))
        ("path" ∷ "patch" ∷ []);
  read_only = false;
}

abbrev pub file_mkdir_spec : ToolSpec
file_mkdir_spec = record {
  name = "file_mkdir";
  description = "Create a directory. Recursive parent creation is enabled by default.";
  input_schema =
      object_schema
        (field "path" (object (path_property "Directory path to create.")) (
          field "recursive"
            (object (
              field "type" (text "boolean") (
                field "description" (text "Create missing parent directories. Defaults to true.")
                  no_fields)))
            no_fields))
        ("path" ∷ []);
  read_only = false;
}
