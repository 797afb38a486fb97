-- ===== src/External/Curl/Command.antt =====
-- The arguments and the command line of `CurlClient` in framework/services/curl_client.py. The paths of
-- the files, which hold the object's identity, are parameters.
use tempesta_test.Base.{
  ℕ, Bool, ◌&&◌, ◌||◌, List, [], ◌∷◌, ◌++◌, map, Option, none, some, if◌then◌else◌, is_empty, ◌==◌,
}
use tempesta_test.Text.{Text, codes, join, to_base}
use tempesta_test.Headers.{Header}

-- `CurlArguments`, without the two that only name the client. `none` stands for `None`.
pub record CurlArguments : Type 0 where
  pub addr : Text
  pub uri : Text
  pub cmd_args : Text
  pub data_ : Text
  pub headers : List Header
  pub dump_headers : Bool
  pub disable_output : Bool
  pub save_cookies : Bool
  pub load_cookies : Bool
  pub ssl : Bool
  pub http2 : Bool
  pub curl_iface : Option Text
  pub insecure : Bool
  pub parallel : Option ℕ
  pub method : Text

-- `cookie_jar_path`, `output_path` and `headers_dump_path`.
pub record Paths : Type 0 where
  pub cookie_jar : Text
  pub output : Text
  pub headers_dump : Text

abbrev quoted : Text → Text
quoted s = codes "'" ++ s ++ codes "'"

abbrev option_if : Bool → List Text → List Text
option_if b l = if b then l else []

abbrev pub output_options : CurlArguments → Paths → List Text
output_options a p =
    if a.disable_output
    then codes "--silent --show-error --output /dev/null" ∷ []
    else codes "--write-out '%{json}-===curl-transfer===-'"
      ∷ (codes "--output " ++ quoted p.output)
      ∷ []

abbrev header_option : Header → Text
header_option (name, value) = codes "--header " ++ quoted (name ++ codes ": " ++ value)

abbrev iface_options : Option Text → List Text
iface_options none = []
iface_options (some []) = []
iface_options (some (c ∷ s)) = (codes "--interface " ++ c ∷ s) ∷ []

abbrev pub parallel_options : Option ℕ → List Text
parallel_options none = []
parallel_options (some n) =
    if n == 0
    then []
    else codes "--parallel"
      ∷ codes "--parallel-immediate"
      ∷ (codes "--parallel-max " ++ to_base 10 n)
      ∷ []

unfoldable pub curl_options : CurlArguments → Paths → List Text
curl_options a p =
    codes "--no-progress-meter"
    ∷ codes "--create-dirs"
    ∷ (option_if a.dump_headers ((codes "--dump-header " ++ quoted p.headers_dump) ∷ [])
        ++ (output_options a p
            ++ (option_if a.save_cookies ((codes "--cookie-jar " ++ quoted p.cookie_jar) ∷ [])
                ++ (option_if a.load_cookies ((codes "--cookie " ++ quoted p.cookie_jar) ∷ [])
                    ++ (map header_option a.headers
                        ++ ((if is_empty a.data_
                              then []
                              else (codes "--data " ++ quoted a.data_) ∷ [])
                            ++ ((if a.http2
                                  then codes "--http2-prior-knowledge"
                                  else codes "--http1.1")
                                ∷ [])
                            ++ (iface_options a.curl_iface
                                ++ (option_if (a.ssl && a.insecure) (codes "--insecure" ∷ [])
                                    ++ (parallel_options a.parallel
                                        ++ (if is_empty a.method
                                            then []
                                            else (codes "--request " ++ a.method) ∷ []))))))))))

-- `form_command`, with the URI that `set_uri` made, and `cmd_args` among the client's options.
unfoldable pub form_curl_command : Text → List Text → Text → CurlArguments → Paths → Text
unfolding curl_options
form_curl_command bin options uri a p =
    join (codes " ") (bin ∷ (curl_options a p ++ (options ++ quoted uri ∷ [])))

-- The options that `__init__` starts with.
abbrev pub first_options : CurlArguments → List Text
first_options a = if is_empty a.cmd_args then [] else a.cmd_args ∷ []

-- The URI is of https for HTTP/2 too.
abbrev pub curl_ssl : CurlArguments → Bool
curl_ssl a = a.ssl || a.http2
