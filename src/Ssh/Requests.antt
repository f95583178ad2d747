-- ===== src/Ssh/Requests.antt =====
-- pkg/proxy/ssh/proxy.go: HandleRequest with its four actions. What a session or an SFTP client
-- gives is a parameter; encoding/base64 too.
use forager.Prelude.{
  ℕ, zero, suc, Bool, String, Option, none, some, List, [], ◌∷◌, ◌==◌, nat_eq, string_eq,
  if◌then◌else◌, Map, lookup, length, Result, ok, err,
}
use forager.Prelude.Int.{ℤ, pos, negsuc, lt_ℤ}
use forager.Prelude.Bytes.{Bytes}
use forager.Ssh.{Client, Proxy, SshLib, Remote, SshError}
use forager.Ssh.Pool.{Param, text_param, positive_param, get_client, get_sftp}

-- How a command ends: `exited` with its status, another error of `Wait`, or the deadline.
pub data Ending : Type 0 where
  exited : ℕ → Ending
  broken timed_out : Ending

-- A session that started a command: all that it writes, and its end.
pub record Session : Type 0 where
  pub stdout : Bytes
  pub stderr : Bytes
  pub ending : Ending

pub record DirEntry : Type 0 where
  pub name : String
  pub size : ℕ
  pub mode : String
  pub mod_time : String
  pub is_dir : Bool

-- What the client libraries do on a connection. `start` has the deadline, in milliseconds, and is
-- `none` where a step before the command fails; `write` has the content, and gives the count written.
pub record Sessions : Type 0 where
  pub start : Client → ℤ → String → Option Session
  pub write : Client → String → Bytes → Option ℕ
  pub read_file : Client → String → Option Bytes
  pub read_dir : Client → String → Option (List DirEntry)
  pub decode : String → Option Bytes

pub data Reply : Type 0 where
  command_output : (stdout stderr : Bytes) (exit_code : ℕ) → Reply
  uploaded : (bytes_written : ℕ) (remote_path : String) (mode : ℤ) → Reply
  downloaded : (content : Bytes) (size : ℕ) (remote_path : String) → Reply
  listing : List DirEntry → Reply

pub data Failure : Type 0 where
  unknown_action : String → Failure
  command_required path_required content_required invalid_content : Failure
  no_client : SshError → Failure
  start_failed wait_failed deadline_passed write_failed read_failed read_dir_failed : Failure

-- io.ReadAll(io.LimitReader(r, n)): nothing for a limit that is not positive.
unfoldable pub read_up_to : ℕ → Bytes → Bytes
read_up_to zero s = []
read_up_to (suc n) [] = []
read_up_to (suc n) (c ∷ s) = c ∷ read_up_to n s

abbrev pub limited : ℤ → Bytes → Bytes
limited (pos n) s = read_up_to n s
limited (negsuc _) s = []

abbrev pub max_timeout_ms : ℤ
max_timeout_ms = pos 120_000

unfoldable pub exec_timeout : Map Param → ℤ
exec_timeout params =
    let ms = positive_param (pos 30_000) (lookup "timeout_ms" params) in
    if lt_ℤ max_timeout_ms ms then max_timeout_ms else ms

abbrev pub ended : ℤ → Session → Result Failure Reply
ended cap s = elim s.ending [
  | timed_out ↦ err deadline_passed
  | broken ↦ err wait_failed
  | exited code ↦ ok (command_output (limited cap s.stdout) (limited cap s.stderr) code)
]

abbrev pub exec_on :
    Sessions → ℤ → String → Proxy × Result SshError Client → Proxy × Result Failure Reply
exec_on io timeout command (p, err e) = (p, err (no_client e))
exec_on io timeout command (p, ok c) = (
  p,
  elim (io.start c timeout command) [
    | none ↦ err start_failed
    | some s ↦ ended p.config.max_output_bytes s
  ],
)

abbrev pub upload_on :
    Sessions → String → Bytes → ℤ → Proxy × Result SshError Client → Proxy × Result Failure Reply
upload_on io path content mode (p, err e) = (p, err (no_client e))
upload_on io path content mode (p, ok c) = (
  p,
  elim (io.write c path content) [ none ↦ err write_failed | some n ↦ ok (uploaded n path mode) ],
)

abbrev pub download_on :
    Sessions → ℤ → String → Proxy × Result SshError Client → Proxy × Result Failure Reply
download_on io cap path (p, err e) = (p, err (no_client e))
download_on io cap path (p, ok c) = (
  p,
  elim (io.read_file c path) [
    | none ↦ err read_failed
    | some s ↦ ok (downloaded (limited cap s) (length (limited cap s)) path)
  ],
)

abbrev pub list_on :
    Sessions → String → Proxy × Result SshError Client → Proxy × Result Failure Reply
list_on io path (p, err e) = (p, err (no_client e))
list_on io path (p, ok c) = (
  p,
  elim (io.read_dir c path) [ none ↦ err read_dir_failed | some entries ↦ ok (listing entries) ],
)

module _ (lib : SshLib) (remote : Remote) (io : Sessions) where
  unfoldable pub handle_exec : Map Param → Proxy → Proxy × Result Failure Reply
  unfolding exec_timeout
  handle_exec params p =
      let command = text_param (lookup "command" params) in
      if command == ""
      then (p, err command_required)
      else exec_on io (exec_timeout params) command (get_client lib remote params p)

  unfoldable pub handle_upload : Map Param → Proxy → Proxy × Result Failure Reply
  handle_upload params p =
      let path = text_param (lookup "remote_path" params) in
      let content = text_param (lookup "content" params) in
      if path == ""
      then (p, err path_required)
      else if content == ""
      then (p, err content_required)
      else elim (io.decode content) [
        | none ↦ (p, err invalid_content)
        | some decoded ↦
            upload_on io path decoded (positive_param (pos 420) (lookup "mode" params))
              (get_sftp lib remote params p)
      ]

  unfoldable pub handle_download : Map Param → Proxy → Proxy × Result Failure Reply
  handle_download params p =
      let path = text_param (lookup "remote_path" params) in
      if path == ""
      then (p, err path_required)
      else download_on io p.config.max_output_bytes path (get_sftp lib remote params p)

  unfoldable pub handle_list_dir : Map Param → Proxy → Proxy × Result Failure Reply
  handle_list_dir params p =
      let path = text_param (lookup "remote_path" params) in
      if path == "" then (p, err path_required) else list_on io path (get_sftp lib remote params p)

  unfoldable pub handle_request : String → Map Param → Proxy → Proxy × Result Failure Reply
  unfolding handle_exec handle_upload handle_download handle_list_dir
  handle_request action params p =
      if action == "ssh_command"
      then handle_exec params p
      else if action == "ssh_upload"
      then handle_upload params p
      else if action == "ssh_download"
      then handle_download params p
      else if action == "ssh_list_dir"
      then handle_list_dir params p
      else (p, err (unknown_action action))
