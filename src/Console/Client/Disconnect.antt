-- ===== src/Console/Client/Disconnect.antt =====
-- ClientMenu_Handler of src/Linux.cpp, choices T and U, and DisconnectConfirm.
use dlms_access_point.Prelude.{ℕ, codes, Option, none, some}
use dlms_access_point.Console.Machine.{null_pointer, stopped, M, ◌>>=◌, ◌>>◌}
use dlms_access_point.Console.Pointers.{Library, Handle, release_ip, release_serial}
use dlms_access_point.Console.Client.{
  Client, say, net_do, the_net, the_pointers, set_pointers, guarded, touch, through,
}

module _ (lib : Library) where
  open lib use {Net, Engine, Hdlc, Oid}

  unfoldable pub release_tcp : Option ℕ → M (Client lib) (Unit {0})
  unfolding say touch net_do
  release_tcp none = say lib (codes "TCP Not Opened!\n")
  release_tcp (some a) = do
    touch lib a
    net_do lib (lib.close_socket a)
    p ← the_pointers lib
    set_pointers lib (release_ip p a)
    say lib (codes "Socket released.\n")

  unfoldable pub on_tcp_disconnect : M (Client lib) (Unit {0})
  unfolding the_pointers release_tcp
  on_tcp_disconnect = do p ← the_pointers lib; release_tcp p.socket

  unfoldable pub disconnect_over : Option (Handle Hdlc) → M (Client lib) (Unit {0})
  unfolding say the_net guarded through net_do
  disconnect_over none = say lib (codes "HDLC Not Connected!\n")
  disconnect_over (some h) = do
    n ← the_net lib
    guarded lib (lib.hdlc_is_connected h.target n) (codes "HDLC Not Connected!\n")
        (do hdlc ← through lib (some h); net_do lib (lib.disconnect hdlc))

  unfoldable pub on_hdlc_disconnect : M (Client lib) (Unit {0})
  unfolding the_pointers disconnect_over
  on_hdlc_disconnect = do p ← the_pointers lib; disconnect_over p.hdlc

  -- DisconnectConfirm, which the HDLC layer calls when the server has answered.
  unfoldable pub confirm_over : Option ℕ → M (Client lib) (Unit {0})
  unfolding touch net_do the_pointers set_pointers say
  confirm_over none s = stopped null_pointer s
  confirm_over (some a) s =
      (do
        touch lib a
        net_do lib (lib.close_socket a)
        p ← the_pointers lib
        set_pointers lib (release_serial p a)
        say lib (codes "Serial released."))
        s

  unfoldable pub disconnect_confirm : M (Client lib) (Unit {0})
  unfolding the_pointers confirm_over
  disconnect_confirm = do p ← the_pointers lib; confirm_over p.serial_socket
