-- ===== src/Client/H2/Initial.antt =====
-- The SETTINGS frames of the HTTP/2 client in framework/deproxy/deproxy_client.py.
use tempesta_test.Base.{ℕ, false, Option, if◌then◌else◌, is_empty, Result, ok, ◌>>=◌}
use tempesta_test.AutoParser.{Surroundings}
use tempesta_test.Client.Settings.{generate_new_settings}
use tempesta_test.Client.H2.{H2Library, H2Client, send_pending}

module _ {C : Type 0} (h2 : H2Library C) where
  -- `update_initial_settings`; the settings stay if none is given.
  unfoldable pub update_initial_settings :
      Option ℕ
      → Option ℕ
      → Option ℕ
      → Option ℕ
      → Option ℕ
      → Option ℕ
      → H2Client C
      → Result (H2Client C)
  update_initial_settings table push streams window frame headers s = do
    let new_settings = generate_new_settings table push streams window frame headers
    let fresh = h2.put_encoder h2.new_connection
    set ← (if is_empty new_settings then ok fresh else h2.put_settings new_settings fresh)
    initiated ← h2.initiate_connection set
    ok (record s { connection = initiated })

  -- `send_settings_frame`
  unfoldable pub send_settings_frame :
      Surroundings
      → Option ℕ
      → Option ℕ
      → Option ℕ
      → Option ℕ
      → Option ℕ
      → Option ℕ
      → H2Client C
      → Result (H2Client C)
  send_settings_frame w table push streams window frame headers s = do
    updated ←
        h2.update_settings (generate_new_settings table push streams window frame headers)
          s.connection
    send_pending h2 w (record s { connection = updated; ack_settings = false })

  -- `reinit_hpack_encoder`
  unfoldable pub reinit_hpack_encoder : H2Client C → H2Client C
  reinit_hpack_encoder s = record s { connection = h2.put_encoder s.connection }
