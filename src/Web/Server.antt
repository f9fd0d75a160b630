-- ===== src/Web/Server.antt =====
-- src/websocket/server.cpp, session::on_read: a message is taken for settings of the head-end system
-- and echoed.
pub mod Laws
mod Tests
use dlms_access_point.Prelude.{Text}
use dlms_access_point.Hes.Config.{HesConfig, PropertyTree, load_from_string}

-- `buffers_to_string` gives the buffer's bytes as a document.
module _ (pt : PropertyTree) (buffers_to_string : Text → pt.Document) where
  -- The settings are shared by all sessions.
  unfoldable pub answer : HesConfig → Text → HesConfig × Text
  answer cfg buffer = (load_from_string pt cfg (buffers_to_string buffer), buffer)
