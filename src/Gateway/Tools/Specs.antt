-- ===== src/Gateway/Tools/Specs.antt =====
-- tools.go: `toolSpecs`.
pub mod Programs
pub mod Files
pub mod Browser
pub mod Forwarded
use zshell_gateway.Base.{List, [], ◌∷◌}
use zshell_gateway.Gateway.Tools.Schema.{ToolSpec}
use zshell_gateway.Gateway.Tools.Specs.Programs.{
  environment_info_spec, control_status_spec, exec_spec, job_start_spec, job_status_spec,
  job_logs_spec, job_stop_spec, job_list_spec, shell_start_spec, shell_write_spec, shell_read_spec,
  shell_resize_spec, shell_kill_spec, shell_list_spec,
}
use zshell_gateway.Gateway.Tools.Specs.Files.{
  file_stat_spec, file_list_spec, file_read_spec, file_search_spec, file_write_spec,
  file_patch_spec, file_mkdir_spec,
}
use zshell_gateway.Gateway.Tools.Specs.Browser.{
  browser_status_spec, browser_start_spec, browser_open_spec, browser_snapshot_spec,
  browser_click_spec, browser_fill_spec, browser_select_spec, browser_check_spec,
  browser_press_spec, browser_upload_spec, browser_download_spec, browser_tabs_spec,
  browser_wait_spec, browser_get_spec, browser_screenshot_spec, browser_takeover_spec,
  browser_close_spec,
}

-- `toolSpecs`
unfoldable pub tool_specs : List ToolSpec
tool_specs =
    environment_info_spec ∷ control_status_spec ∷ exec_spec ∷ job_start_spec ∷ job_status_spec
    ∷ job_logs_spec ∷ job_stop_spec ∷ job_list_spec ∷ shell_start_spec ∷ shell_write_spec
    ∷ shell_read_spec ∷ shell_resize_spec ∷ shell_kill_spec ∷ shell_list_spec ∷ file_stat_spec
    ∷ file_list_spec ∷ file_read_spec ∷ file_search_spec ∷ file_write_spec ∷ file_patch_spec
    ∷ file_mkdir_spec ∷ browser_status_spec ∷ browser_start_spec ∷ browser_open_spec
    ∷ browser_snapshot_spec ∷ browser_click_spec ∷ browser_fill_spec ∷ browser_select_spec
    ∷ browser_check_spec ∷ browser_press_spec ∷ browser_upload_spec ∷ browser_download_spec
    ∷ browser_tabs_spec ∷ browser_wait_spec ∷ browser_get_spec ∷ browser_screenshot_spec
    ∷ browser_takeover_spec ∷ browser_close_spec ∷ []
