-- ===== src/Collector/Calls.antt =====
-- The calls of the log-collector that leave the program: to the API server and to the file system.
-- Text that is written is given with the path of its file.
use tvk_plugins.Prelude.{String, Bool}

pub data Call : Type 0 where
  list_namespaces : Call
  server_preferred_resources : Call
  server_resources : String → Call
  get_list : String → Call
  get_pod : String → String → Call
  stream_logs : String → String → String → Bool → Call
  stat : String → Call
  mkdir_all : String → Call
  create : String → Call
  write : String → String → Call
  walk : String → Call
  open_file : String → Call
  zip_create : String → Call
  zip_copy : String → Call
  remove_all : String → Call
