-- ===== src/External.antt =====
-- `BaseClient` of framework/services/base_client.py: the clients that are programs of the client's
-- node. Processes, queues and files are parameters.
pub mod Curl
pub mod Wrk
use tempesta_test.Base.{
  ℕ, Bool, true, false, List, [], ◌∷◌, ◌++◌, Option, none, some, if◌then◌else◌, Result, ok, raise,
  ◌>>=◌, runtime_error, ◌==◌, is_empty, ◌||◌,
}
use tempesta_test.Text.{Text, codes, join, last, same, starts_with}

-- `rate`: -1, a number that the program printed, or requests over seconds.
pub data Rate : Type 0 where
  unknown : Rate
  printed : ℕ → Rate
  per_second : ℕ → ℕ → Rate

-- The fields that do not depend on the program. `running` is that there is a process.
pub record BaseClient : Type 0 where
  pub bin : Text
  pub connections : ℕ
  pub duration : ℕ
  pub workdir : Text
  pub ssl : Bool
  pub server_addr : Text
  pub uri : Text
  pub cmd : Text
  pub options : List Text
  pub files : List (Text × Text)
  pub cleanup_files : List Text
  pub running : Bool
  pub returncode : ℕ
  pub requests : ℕ
  pub errors : ℕ
  pub rate : Rate

unfoldable pub set_uri : Option Text → BaseClient → BaseClient
set_uri none c = record c { uri = [] }
set_uri (some []) c = record c { uri = [] }
set_uri (some (d ∷ s)) c = record c {
  uri = (if c.ssl then codes "https://" else codes "http://") ++ (c.server_addr ++ d ∷ s);
}

-- Also the statuses are emptied, which each kind of client keeps in its own form.
unfoldable pub clear_stats : BaseClient → BaseClient
clear_stats c = record c {
  running = false;
  returncode = 0;
  requests = 0;
  rate = unknown;
  errors = 0;
}

unfoldable pub form_command : BaseClient → Text
form_command c = join (codes " ") (c.bin ∷ (c.options ++ c.uri ∷ []))

-- `prepare` with the command that the client forms, before the files are copied.
unfoldable pub prepare : Text → BaseClient → BaseClient
unfolding clear_stats
prepare cmd c = clear_stats (record c { cmd = cmd })

-- `run_start` starts a process for the prepared client.
unfoldable pub run_start : Text → BaseClient → BaseClient
unfolding prepare
run_start cmd c = record (prepare cmd c) { running = true }

-- `results`, where a duration of 0 raises a `ZeroDivisionError`, here `runtime_error`.
unfoldable pub results : BaseClient → Result BaseClient
results c = elim c.rate [
  | unknown ↦
      if c.duration == 0
      then raise runtime_error
      else ok (record c { rate = per_second c.requests c.duration })
  | printed n ↦ ok c
  | per_second n d ↦ ok c
]

-- `os.path.join` of two paths.
unfoldable pub path_join : Text → Text → Text
path_join dir name =
    if starts_with name (codes "/")
    then name
    else if is_empty dir || same (last 1 dir) (codes "/")
    then dir ++ name
    else dir ++ codes "/" ++ name

unfoldable pub add_option_file : Text → Text → Text → BaseClient → BaseClient
unfolding path_join
add_option_file option filename content c =
    let full_name = path_join c.workdir filename in
    record c {
      files = c.files ++ (filename, content) ∷ [];
      options = c.options ++ (option ++ codes " " ++ full_name) ∷ [];
      cleanup_files = c.cleanup_files ++ full_name ∷ [];
    }

unfoldable pub set_user_agent : Text → BaseClient → BaseClient
set_user_agent ua c = record c {
  options = c.options ++ (codes "-H 'User-Agent: " ++ ua ++ codes "'") ∷ [];
}

-- `__on_finish`: what the queue gives within the duration, which is `none` if it is empty and the
-- process is killed, goes to `parse_out`.
unfoldable pub on_finish {ℓ} :
    {C : Type ℓ}
    → (C → Bool)
    → (C → C)
    → (Text → Text → C → Result C)
    → Option (Text × Text)
    → C
    → Result C
on_finish is_running drop_process parse_out results_ c =
    if is_running c
    then (elim results_ [
      | none ↦ ok (drop_process c)
      | some (stdout, stderr) ↦ parse_out stdout stderr (drop_process c)
    ])
    else ok c
