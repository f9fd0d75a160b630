-- ===== src/Hes/Config/Laws.antt =====
-- Settings written and read back, and documents that lack one.
use dlms_access_point.Prelude.{
  true, ◌⊎◌, Text, text_eq, ◌≡◌, refl, Bool, none, some, arith, Bool-cases, text_eq_refl, ap, inl,
  inr,
}
use dlms_access_point.Hes.Config.{
  Files, load_file, save_file, HesConfig, PropertyTree, get_value, put_value, payload_path,
  route_path, loaded, threw, load_tree, load, load_from_string, save, read_file,
}
use dlms_access_point.Ap.Config.{all_of_isprint}
use dlms_access_point.Hes.Message.{Payload, small, medium, large}

-- What Boost documents of a tree that holds nothing but two leaves under one parent, which is what
-- `save` makes: each is found where it was put, the one put last leaves the other, and such a tree,
-- with no text but ASCII, is read back from JSON as it was written.
pub record Keeps (pt : PropertyTree) : Type 0 where
  pub gets_payload :
      (v : Text) (b : Bool)
      → pt.get_string payload_path
          (pt.put_bool route_path b (pt.put_string payload_path v pt.empty))
        ≡ some v
  pub gets_route :
      (v : Text) (b : Bool)
      → pt.get_bool route_path (pt.put_bool route_path b (pt.put_string payload_path v pt.empty))
        ≡ some b
  pub read_write :
      (v : Text) (b : Bool)
      → all_of_isprint v ≡ true
      → let tree = pt.put_bool route_path b (pt.put_string payload_path v pt.empty) in
        pt.read_json (pt.write_json tree) ≡ some tree

put_value-printable : (p : Payload) → all_of_isprint (put_value p) ≡ true
unfolding put_value all_of_isprint
put_value-printable small = refl
put_value-printable medium = refl
put_value-printable large = refl

get_value-put_value : (p : Payload) → get_value (put_value p) ≡ p
unfolding get_value put_value
get_value-put_value small = refl
get_value-put_value medium = refl
get_value-put_value large = refl

module _ (pt : PropertyTree) where
  open pt use {Tree, Document}

  -- Settings that are saved and loaded again are the same, whatever the settings were before the
  -- load, if a property tree of two leaves keeps what is stored in it and is read back as it was
  -- written.
  pub load-save : (c old : HesConfig) → Keeps pt → load pt old (save pt c) ≡ loaded c
  unfolding load save
  load-save c old k =
      let v = put_value c.payload_size in
      rw (
        k.read_write v c.route_only (put_value-printable c.payload_size),
        k.gets_payload v c.route_only,
        load_tree,
        k.gets_route v c.route_only,
        get_value-put_value c.payload_size,
      )

  -- A document with a payload size and no readable routing setting is reported as an error, and has
  -- changed the payload size all the same.
  load_from_string_torn :
      (c : HesConfig) (json : Document) (tree : Tree) (str : Text)
      → pt.read_json json ≡ some tree
      → pt.get_string payload_path tree ≡ some str
      → pt.get_bool route_path tree ≡ none
      → (load pt c json ≡ threw (record c { payload_size = get_value str }))
        × (load_from_string pt c json ≡ record c { payload_size = get_value str })
  unfolding load load_from_string
  load_from_string_torn c json tree str r s b = (ground arith, ground arith)

  taken : {f g : Files pt} → Files pt → some f ≡ some g → f ≡ g
  taken files h = ap (λ o. elim o [ none ↦ files | some f ↦ f ]) h

  -- Settings that are saved to a file are what is loaded from a file of that name afterwards, and
  -- what the getters then answer; and loading from any other file answers as before the save.
  load_file-save_file :
      (c old : HesConfig) (files after : Files pt) (filename name : Text)
      → Keeps pt
      → save_file pt c files filename true ≡ some after
      → (load_file pt old after filename ≡ loaded c)
        × ((text_eq name filename ≡ true)
            ⊎ (load_file pt old after name ≡ load_file pt old files name))
  unfolding save_file load_file load
  load_file-save_file c old files after filename name k h =
      let at = λ (n : Text). ap (λ f. f n) (taken files h) in
      (
        rw (← at filename, load_file, text_eq_refl filename, read_file) (load-save c old k),
        elim (Bool-cases (text_eq name filename)) [
          | inl e ↦ inl e
          | inr e ↦ inr (rw (load_file, ← at name, e) refl)
        ],
      )
