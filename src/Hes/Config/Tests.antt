-- ===== src/Hes/Config/Tests.antt =====
-- Settings in a small stand-in for property trees: a document is a tree.
use dlms_access_point.Prelude.{
  Text, codes, text_eq, List, [], ◌∷◌, ◌==◌, true, if◌then◌else◌, ◌≡◌, refl, Bool, false, Option,
  none, some,
}
use dlms_access_point.Hes.Config.{route_path, PropertyTree, new, payload_path, loaded, load, save}
use dlms_access_point.Hes.Config.Laws.{Keeps, load-save}
use dlms_access_point.Hes.Message.{large}

-- Trees of two levels whose leaves are texts, a Boolean among them, as Boost has it.
abbrev Tree : Type 0
Tree = List (Text × List (Text × Text))

split : Text → Text × Text
split [] = ([], [])
split (c ∷ s) = let r = split s in if c == b'.' then ([], s) else (c ∷ r.0, r.1)

find : {A : Type 0} → Text → List (Text × A) → Option A
find key [] = none
find key ((k, a) ∷ rest) = let later = find key rest in if text_eq k key then some a else later

store : {A : Type 0} → Text → A → List (Text × A) → List (Text × A)
store key a [] = (key, a) ∷ []
store key a ((k, b) ∷ rest) =
    let later = store key a rest in if text_eq k key then (k, a) ∷ rest else (k, b) ∷ later

under : Option (List (Text × Text)) → List (Text × Text)
under none = []
under (some leaves) = leaves

text_of : Text → Tree → Option Text
unfolding split find under
text_of path t = find (split path).1 (under (find (split path).0 t))

put_text : Text → Text → Tree → Tree
unfolding split find store under
put_text path v t = store (split path).0 (store (split path).1 v (under (find (split path).0 t))) t

spelled : Bool → Text
spelled true = codes "true"
spelled false = codes "false"

read_bool : Option Text → Option Bool
read_bool none = none
read_bool (some t) =
    if text_eq t (codes "true")
    then some true
    else if text_eq t (codes "false")
    then some false
    else none

abbrev sample_trees : PropertyTree
sample_trees = record {
  Tree = Tree;
  Document = Option Tree;
  empty = [];
  get_string = text_of;
  get_bool = λ p t. read_bool (text_of p t);
  put_string = put_text;
  put_bool = λ p b t. put_text p (spelled b) t;
  read_json = λ json. json;
  write_json = λ tree. some tree;
}

route-spelled :
    (v : Text) (b : Bool)
    → read_bool (text_of route_path (put_text route_path (spelled b) (put_text payload_path v [])))
      ≡ some b
unfolding text_of put_text read_bool spelled
route-spelled v true = refl
route-spelled v false = refl

sample_trees-Keeps : Keeps sample_trees
unfolding text_of put_text
sample_trees-Keeps = record {
  gets_payload = λ v b. refl;
  gets_route = route-spelled;
  read_write = λ v b h. refl;
}

load-save_example :
    load sample_trees new (save sample_trees (record { payload_size = large; route_only = false }))
    ≡ loaded (record { payload_size = large; route_only = false })
load-save_example =
    load-save sample_trees (record { payload_size = large; route_only = false }) new
      sample_trees-Keeps

abbrev sizes_only : Option Tree
sizes_only = some (put_text payload_path (codes "medium") [])
