-- ===== src/Gateway/Tools/Specs/Browser.antt =====
-- tools.go: `toolSpecs`, the browser.
use zshell_gateway.Base.{true, false, [], ◌∷◌}
use zshell_gateway.Gateway.Tools.Json.{text, number, object, field, no_fields}
use zshell_gateway.Gateway.Tools.Schema.{
  ToolSpec, bool_property, browser_ref_property, command_property, empty_schema,
  enum_string_property, object_schema, path_property, string_property,
}

abbrev pub browser_status_spec : ToolSpec
browser_status_spec = record {
  name = "browser_status";
  description =
      "Return whether browser functionality was enabled for this ShellCore, plus runtime availability, active session state, ownership, profile mode, and discovered executables.";
  input_schema = empty_schema;
  read_only = true;
}

abbrev pub browser_start_spec : ToolSpec
browser_start_spec = record {
  name = "browser_start";
  description =
      "Start the zshell-managed browser session. The selected ShellCore must have been started with --browser. temporary mode is isolated and disposable; persistent mode stores zshell-managed profile state; chrome_profile reuses a named installed Chrome profile. Set visible=true when the user may take over the browser.";
  input_schema =
      object_schema
        (field "mode"
          (object (
            enum_string_property "Browser session mode. Defaults to temporary."
              ("temporary" ∷ "persistent" ∷ "chrome_profile" ∷ [])))
          (field "visible"
            (object (
              bool_property
                "Show the browser window. Defaults to false. Required for human takeover."))
            (field "profile"
              (object (
                string_property
                  "Optional profile name. persistent defaults to default; chrome_profile requires a Chrome profile name."))
              no_fields)))
        [];
  read_only = false;
}

abbrev pub browser_open_spec : ToolSpec
browser_open_spec = record {
  name = "browser_open";
  description = "Navigate the active zshell browser tab to a URL.";
  input_schema =
      object_schema (field "url" (object (command_property "URL to open.")) no_fields) ("url" ∷ []);
  read_only = false;
}

abbrev pub browser_snapshot_spec : ToolSpec
browser_snapshot_spec = record {
  name = "browser_snapshot";
  description =
      "Return the accessibility snapshot and stable element refs for the active page. Use refs from this result with browser_click, browser_fill, browser_select, browser_check, browser_upload, and browser_download.";
  input_schema =
      object_schema
        (field "interactiveOnly"
          (object (bool_property "Return only interactive elements. Defaults to true.")) no_fields)
        [];
  read_only = true;
}

abbrev pub browser_click_spec : ToolSpec
browser_click_spec = record {
  name = "browser_click";
  description = "Click an element ref from browser_snapshot.";
  input_schema =
      object_schema
        (field "ref" (object (browser_ref_property "Element to click.")) (
          field "newTab"
            (object (
              bool_property
                "Open the click target in a new tab when supported. Defaults to false."))
            no_fields))
        ("ref" ∷ []);
  read_only = false;
}

abbrev pub browser_fill_spec : ToolSpec
browser_fill_spec = record {
  name = "browser_fill";
  description = "Clear and fill an input element identified by a browser_snapshot ref.";
  input_schema =
      object_schema
        (field "ref" (object (browser_ref_property "Input element to fill."))
          (field "text" (object (string_property "Text to enter.")) no_fields))
        ("ref" ∷ "text" ∷ []);
  read_only = false;
}

abbrev pub browser_select_spec : ToolSpec
browser_select_spec = record {
  name = "browser_select";
  description = "Select a value in a select element identified by a browser_snapshot ref.";
  input_schema =
      object_schema
        (field "ref" (object (browser_ref_property "Select element."))
          (field "value" (object (string_property "Option value or label to select.")) no_fields))
        ("ref" ∷ "value" ∷ []);
  read_only = false;
}

abbrev pub browser_check_spec : ToolSpec
browser_check_spec = record {
  name = "browser_check";
  description =
      "Check or uncheck a checkbox/radio-like element identified by a browser_snapshot ref.";
  input_schema =
      object_schema
        (field "ref" (object (browser_ref_property "Element to check or uncheck.")) (
          field "checked" (object (bool_property "Desired checked state. Defaults to true."))
            no_fields))
        ("ref" ∷ []);
  read_only = false;
}

abbrev pub browser_press_spec : ToolSpec
browser_press_spec = record {
  name = "browser_press";
  description =
      "Press a keyboard key in the active browser page, such as Enter, Tab, Escape, or Control+a.";
  input_schema =
      object_schema (field "key" (object (command_property "Key or key chord to press.")) no_fields)
        ("key" ∷ []);
  read_only = false;
}

abbrev pub browser_upload_spec : ToolSpec
browser_upload_spec = record {
  name = "browser_upload";
  description =
      "Upload one or more local device files through a file-input element identified by a browser_snapshot ref.";
  input_schema =
      object_schema
        (field "ref" (object (browser_ref_property "File input element.")) (
          field "files"
            (object (
              field "type" (text "array") (
                field "description" (text "Local file paths on the selected ShellCore device.") (
                  field "minItems" (number "1") (
                    field "maxItems" (number "16") (
                      field "items" (object (path_property "Local file path to upload."))
                        no_fields))))))
            no_fields))
        ("ref" ∷ "files" ∷ []);
  read_only = false;
}

abbrev pub browser_download_spec : ToolSpec
browser_download_spec = record {
  name = "browser_download";
  description =
      "Click a downloadable element ref and save the result to a local path on the selected ShellCore device.";
  input_schema =
      object_schema
        (field "ref" (object (browser_ref_property "Download element.")) (
          field "path" (object (path_property "Destination path on the selected ShellCore device."))
            no_fields))
        ("ref" ∷ "path" ∷ []);
  read_only = false;
}

abbrev pub browser_tabs_spec : ToolSpec
browser_tabs_spec = record {
  name = "browser_tabs";
  description =
      "List, create, switch, or close browser tabs. Tab IDs such as t1 are returned by the list action.";
  input_schema =
      object_schema
        (field "action"
          (object (
            enum_string_property "Tab action. Defaults to list."
              ("list" ∷ "new" ∷ "switch" ∷ "close" ∷ [])))
          (field "tab" (object (string_property "Tab ID, label, or target ID for switch/close.")) (
            field "url" (object (string_property "Optional URL for a new tab.")) (
              field "label" (object (string_property "Optional stable label for a new tab."))
                no_fields))))
        [];
  read_only = false;
}

abbrev pub browser_wait_spec : ToolSpec
browser_wait_spec = record {
  name = "browser_wait";
  description = "Wait for the active page to reach a load state.";
  input_schema =
      object_schema
        (field "state"
          (object (
            enum_string_property "Page load state to wait for."
              ("load" ∷ "domcontentloaded" ∷ "networkidle" ∷ [])))
          no_fields)
        ("state" ∷ []);
  read_only = true;
}

abbrev pub browser_get_spec : ToolSpec
browser_get_spec = record {
  name = "browser_get";
  description = "Return the current browser page URL or title.";
  input_schema =
      object_schema
        (field "what"
          (object (enum_string_property "Page information to return." ("url" ∷ "title" ∷ [])))
          no_fields)
        ("what" ∷ []);
  read_only = true;
}

abbrev pub browser_screenshot_spec : ToolSpec
browser_screenshot_spec = record {
  name = "browser_screenshot";
  description =
      "Capture the active browser page to an image file on the selected ShellCore device. Use file_read afterwards if the image bytes are needed.";
  input_schema =
      object_schema
        (field "path"
          (object (
            path_property
              "Optional output path. If omitted, agent-browser chooses a temporary screenshot path."))
          (field "full"
            (object
              (bool_property "Capture the full page instead of the viewport. Defaults to false."))
            no_fields))
        [];
  read_only = false;
}

abbrev pub browser_takeover_spec : ToolSpec
browser_takeover_spec = record {
  name = "browser_takeover";
  description =
      "Transfer browser ownership between agent and human. Human takeover requires a visible browser. After control returns to agent, take a fresh browser_snapshot before reusing refs.";
  input_schema =
      object_schema
        (field "owner" (object (enum_string_property "New browser owner." ("human" ∷ "agent" ∷ [])))
          no_fields)
        ("owner" ∷ []);
  read_only = false;
}

abbrev pub browser_close_spec : ToolSpec
browser_close_spec = record {
  name = "browser_close";
  description = "Close the active zshell-managed browser session.";
  input_schema = empty_schema;
  read_only = false;
}
