-- ===== src/Config.antt =====
-- configuration.go: the settings and the built-in defaults.
use web_based_jobs_worker_se.Base.{ℕ, Bool, true, false, [], ℤ, pos, Text, codes}

pub record Configuration : Type 0 where
  pub https_server_host : Text
  pub https_server_port : Text
  pub https_server_certs : Text
  pub https_server_key : Text
  pub https_server_certs_path : Text
  pub https_server_certs_email : Text
  pub worker_pid_file_path : Text
  pub worker_log_file_path : Text
  pub log_folders_location : Text
  pub web_requests_log_file : Text
  pub api_requests_log_file : Text
  pub jobs_process_log_file : Text
  pub jobs_deletion_log_file : Text
  pub default_linux_shell : Text
  pub jobs_outputs_folder : Text
  pub worker_working_directory : Text
  pub jobs_cleanup_max_fetch : ℤ
  pub jobs_cleanup_run_interval : ℤ
  pub jobs_cleanup_max_age : ℤ
  pub wait_time_before_exit : ℤ
  pub short_job_timeout : ℤ
  pub long_job_timeout : ℤ
  pub max_jobs_queue_buffer : ℤ
  pub pid_file_watch_interval : ℤ
  pub enable_web_access : Bool
  pub enable_api_gateway : Bool
  pub max_number_of_jobs : ℤ
  pub organization_name_for_certs : Text
  pub country_code_for_certs : Text
  pub province_name_for_certs : Text
  pub city_name_for_certs : Text
  pub street_address_for_certs : Text
  pub postal_code_for_certs : Text
  pub memory_limit_max_megabytes : ℤ
  pub memory_limit_default_megabytes : ℤ
  pub cpu_limit_default_percentage : ℤ
  pub cpu_limit_max_percentage : ℤ
  pub stream_page_default_foreground_color : Text
  pub stream_page_default_background_color : Text
  pub stream_page_default_font_size : ℤ
  pub jobs_outputs_backups_folder : Text
  pub enable_logs_timestamp_in_utc : Bool
  pub default_jobs_infos_timezone : Text
  pub linux_worker_max_open_files : ℕ
  pub enable_ondemand_diagnostics : Bool
  pub diagnostics_folders_location : Text
  pub cpu_profiling_duration : ℤ

abbrev pub default_config : Configuration
default_config = record {
  https_server_host = codes "127.0.0.1";
  https_server_port = codes "8080";
  https_server_certs = codes "server.crt";
  https_server_key = codes "server.key";
  https_server_certs_path = codes "./certs";
  https_server_certs_email = [];
  worker_pid_file_path = codes "worker.service.pid";
  worker_log_file_path = codes "worker.log";
  log_folders_location = codes "./logs";
  web_requests_log_file = codes "web.log";
  api_requests_log_file = codes "api.log";
  jobs_process_log_file = codes "jobs.log";
  jobs_deletion_log_file = codes "deleted.log";
  default_linux_shell = codes "/bin/sh";
  jobs_outputs_folder = codes "./outputs";
  worker_working_directory = codes "./";
  jobs_cleanup_max_fetch = pos 10;
  jobs_cleanup_run_interval = pos 12;
  jobs_cleanup_max_age = pos 24;
  wait_time_before_exit = pos 3;
  short_job_timeout = pos 3600;
  long_job_timeout = pos 1440;
  max_jobs_queue_buffer = pos 10;
  pid_file_watch_interval = pos 60;
  enable_web_access = true;
  enable_api_gateway = true;
  max_number_of_jobs = pos 10000;
  organization_name_for_certs = [];
  country_code_for_certs = [];
  province_name_for_certs = [];
  city_name_for_certs = [];
  street_address_for_certs = [];
  postal_code_for_certs = [];
  memory_limit_max_megabytes = pos 1000;
  memory_limit_default_megabytes = pos 100;
  cpu_limit_default_percentage = pos 10;
  cpu_limit_max_percentage = pos 25;
  stream_page_default_foreground_color = codes "white";
  stream_page_default_background_color = codes "black";
  stream_page_default_font_size = pos 18;
  jobs_outputs_backups_folder = codes "./backups";
  enable_logs_timestamp_in_utc = false;
  default_jobs_infos_timezone = codes "UTC";
  linux_worker_max_open_files = 1000000;
  enable_ondemand_diagnostics = true;
  diagnostics_folders_location = codes "./diagnostics";
  cpu_profiling_duration = pos 30;
}
