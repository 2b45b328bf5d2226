-- ===== src/LoginWindow/Connects.antt =====
-- What the connect button does, and the settings.
use qt_linux_im_project.Base.{
  ℕ, ◌≤◌, ◌≡◌, refl, ap, ◌∙◌, false, [], Bytes, Option, some, codes, is_empty, bytes_eq,
  bytes_eq_refl,
}
use qt_linux_im_project.Base.NameMap.{NameMap, find, put, find-put}
use qt_linux_im_project.TcpClient.{Qt, Client}
use qt_linux_im_project.TcpClient.Request.{set_identity}
use qt_linux_im_project.TcpClient.Lifecycle.{connect_to_server}
use qt_linux_im_project.ChatWindow.{Format}
use qt_linux_im_project.LoginWindow.{
  ℤ, pos, LoginWindow, show_box, save_config, load_config, new_login_window, or_else,
}

module _ (qt : Qt) (f : Format) (to_int : Bytes → Option ℤ) where
  -- One box, and nothing else.
  pub record Warned (w : LoginWindow) (c : Client) (x : LoginWindow × Client) : Type 0 where
    pub text : Bytes
    pub window : x.0 ≡ show_box text w
    pub client : x.1 ≡ c

  -- The client connects to a port in range, under a nickname that is not empty, and the button is
  -- off.
  pub record Connects (w : LoginWindow) (c : Client) (x : LoginWindow × Client) : Type 0 where
    pub port : ℕ
    pub low : 1 ≤ port
    pub high : port ≤ 65_535
    pub parsed : to_int (qt.trimmed w.edit_port) ≡ some (pos port)
    pub named : is_empty (qt.trimmed w.edit_nickname) ≡ false
    pub client :
        x.1
        ≡ connect_to_server
            (qt.trimmed w.edit_ip)
            port
            (set_identity qt (qt.trimmed w.edit_client_id) (qt.trimmed w.edit_nickname) c)
    pub button : x.0.connect_enabled ≡ false
    pub boxes : x.0.boxes ≡ w.boxes

put_same : (k v : Bytes) (m : NameMap Bytes) → find k (put k v m) ≡ some v
put_same k v m = rw (find-put k k v m, bytes_eq_refl k) refl

put_other :
    (k j v : Bytes) (m : NameMap Bytes) → bytes_eq k j ≡ false → find j (put k v m) ≡ find j m
put_other k j v m e = rw (find-put k j v m, e) refl

-- A window that is made from the settings that another one saved shows that one's address, port and
-- nickname.
pub new_login_window-save_config :
    (w : LoginWindow) (client_id : Bytes)
    → ((new_login_window (save_config w).settings client_id).edit_ip ≡ w.edit_ip)
      × ((new_login_window (save_config w).settings client_id).edit_port ≡ w.edit_port)
      × ((new_login_window (save_config w).settings client_id).edit_nickname ≡ w.edit_nickname)
unfolding new_login_window save_config load_config bytes_eq
new_login_window-save_config w client_id =
    let ip = put (codes "server/ip") w.edit_ip w.settings in
    let port = put (codes "server/port") w.edit_port ip in
    (
      ap (or_else (codes "127.0.0.1")) (
          put_other (codes "user/nickname") (codes "server/ip") w.edit_nickname port refl
          ∙ (put_other (codes "server/port") (codes "server/ip") w.edit_port ip refl
              ∙ put_same (codes "server/ip") w.edit_ip w.settings)),
      ap (or_else (codes "8888")) (
          put_other (codes "user/nickname") (codes "server/port") w.edit_nickname port refl
          ∙ put_same (codes "server/port") w.edit_port ip),
      ap (or_else []) (put_same (codes "user/nickname") w.edit_nickname port),
    )
