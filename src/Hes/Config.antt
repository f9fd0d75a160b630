-- ===== src/Hes/Config.antt =====
-- src/websocket/HESConfig.{h,cpp}: the settings of the head-end system, read from JSON and written
-- to it. The mutex and the server thread are left out: one call is one step.
pub mod Laws
mod Tests
use dlms_access_point.Prelude.{if◌then◌else◌, Text, codes, text_eq, Bool, true, Option, none, some}
use dlms_access_point.Hes.Message.{Payload, small, medium, large}

pub record HesConfig : Type 0 where
  pub payload_size : Payload
  pub route_only : Bool

-- The member initialisers.
pub new : HesConfig
new = record { payload_size = small; route_only = true }

-- Boost's property trees and their JSON reader and writer. A `get` that throws is `none`, and so is
-- the reading of a document that is no JSON.
pub record PropertyTree : Type 1 where
  pub Tree : Type 0
  pub Document : Type 0
  pub empty : Tree
  pub get_string : Text → Tree → Option Text
  pub get_bool : Text → Tree → Option Bool
  pub put_string : Text → Text → Tree → Tree
  pub put_bool : Text → Bool → Tree → Tree
  pub read_json : Document → Option Tree
  pub write_json : Tree → Document

-- The translator between a payload size and its text.
pub get_value : Text → Payload
get_value str =
    if text_eq str (codes "medium")
    then medium
    else if text_eq str (codes "large")
    then large
    else small

pub put_value : Payload → Text
put_value small = codes "small"
put_value medium = codes "medium"
put_value large = codes "large"

abbrev pub payload_path : Text
payload_path = codes "hes.payload_size"

abbrev pub route_path : Text
route_path = codes "hes.route_only"

-- A call returns, or an exception leaves it with the settings as they are then.
pub data Loaded : Type 0 where
  loaded threw : HesConfig → Loaded

module _ (pt : PropertyTree) where
  open pt use {Tree, Document}

  load_route : HesConfig → Option Bool → Loaded
  load_route c none = threw c
  load_route c (some b) = loaded (record c { route_only = b })

  -- The payload size is assigned before the other setting is asked for.
  load_payload : HesConfig → Tree → Option Text → Loaded
  unfolding load_route get_value
  load_payload c tree none = threw c
  load_payload c tree (some str) =
      load_route (record c { payload_size = get_value str }) (pt.get_bool route_path tree)

  load_tree : HesConfig → Option Tree → Loaded
  unfolding load_payload
  load_tree c none = threw c
  load_tree c (some tree) = load_payload c tree (pt.get_string payload_path tree)

  pub load : HesConfig → Document → Loaded
  unfolding load_tree
  load c json = load_tree c (pt.read_json json)

  -- The handler prints and returns.
  caught : Loaded → HesConfig
  caught (loaded c) = c
  caught (threw c) = c

  pub load_from_string : HesConfig → Document → HesConfig
  unfolding load caught
  load_from_string c json = caught (load c json)

  pub save : HesConfig → Document
  unfolding put_value
  save c = pt.write_json (
      pt.put_bool route_path c.route_only
        (pt.put_string payload_path (put_value c.payload_size) pt.empty))

  -- The files, by name.
  abbrev pub Files : Type 0
  Files = Text → Option Document

  -- `pt::read_json` of a file that is not there throws.
  read_file : Option Document → Option Tree
  read_file none = none
  read_file (some json) = pt.read_json json

  -- `load` and `save` by the name of a file. `pt::write_json` throws, and writes nothing, where the
  -- file cannot be opened: `none`.
  pub load_file : HesConfig → Files → Text → Loaded
  unfolding load_tree read_file
  load_file c files filename = load_tree c (read_file (files filename))

  pub save_file : HesConfig → Files → Text → Bool → Option Files
  unfolding save
  save_file c files filename opens =
      if opens
      then some (λ name. if text_eq name filename then some (save c) else files name)
      else none

-- The getters, each under the mutex.
pub get_payload_size : HesConfig → Payload
get_payload_size c = c.payload_size

pub get_route_only : HesConfig → Bool
get_route_only c = c.route_only
