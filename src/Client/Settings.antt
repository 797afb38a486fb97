-- ===== src/Client/Settings.antt =====
-- `__generate_new_settings` of the HTTP/2 client in framework/deproxy/deproxy_client.py.
use tempesta_test.Base.{ℕ, ◌≡◌, refl, List, [], ◌∷◌, ◌++◌, Option, none, some}

-- The codes of `h2.settings.SettingCodes` that the client sets.
pub data SettingCode : Type 0 where
  header_table_size enable_push max_concurrent_streams initial_window_size : SettingCode
  max_frame_size max_header_list_size : SettingCode

-- `if value is not None: new_settings[code] = ...`
abbrev setting {ℓ} :
    {A : Type ℓ} → Option A → SettingCode → Option ℕ → List (SettingCode × Option ℕ)
setting none code n = []
setting (some a) code n = (code, n) ∷ []

-- The dict that is built, as the pairs in their order. The value of `ENABLE_PUSH` is the one of
-- `header_table_size`, as the code has it, which is `None` if that is not given.
unfoldable pub generate_new_settings :
    Option ℕ → Option ℕ → Option ℕ → Option ℕ → Option ℕ → Option ℕ → List (SettingCode × Option ℕ)
generate_new_settings table push streams window frame headers =
    setting table header_table_size table
    ++ (setting push enable_push table
        ++ (setting streams max_concurrent_streams streams
            ++ (setting window initial_window_size window
                ++ (setting frame max_frame_size frame
                    ++ setting headers max_header_list_size headers))))

-- The settings that the HTTP/2 client builds are the same for any two values of `enable_push`
-- that are given.
pub generate_new_settings-enable_push :
    (table streams window frame headers : Option ℕ) (m n : ℕ)
    → generate_new_settings table (some m) streams window frame headers
      ≡ generate_new_settings table (some n) streams window frame headers
unfolding generate_new_settings
generate_new_settings-enable_push table streams window frame headers m n = refl
