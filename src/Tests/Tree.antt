-- ===== src/Tests/Tree.antt =====
-- A JSON library whose objects keep their members, for the tests.
use pushserver.Prelude.{
  ℕ, ◌≡◌, refl, Bool, [], ◌++◌, Option, none, some, Bytes, codes, bytes_eq, if◌then◌else◌, arith,
}
use pushserver.Json.{Json}
use pushserver.Records.Documents.Members.{HasMembers}

mutual
  pub data Tree : Type 0 where
    null : Tree
    text : Bytes → Tree
    number : ℕ → Tree
    flag : Bool → Tree
    object : Members → Tree

  pub data Members : Type 0 where
    empty : Members
    member : Bytes → Tree → Members → Members

unfoldable pub find_member : Bytes → Members → Tree
find_member name empty = null
find_member name (member k x m) = if bytes_eq k name then x else find_member name m

-- A member of the same name further back is hidden.
unfoldable pub get_tree : Tree → Bytes → Option Tree
unfolding find_member
get_tree null name = some null
get_tree (object m) name = some (find_member name m)
get_tree _ name = none

abbrev pub set_tree : Tree → Bytes → Tree → Option Tree
set_tree null name x = some (object (member name x empty))
set_tree (object m) name x = some (object (member name x m))
set_tree _ name x = none

abbrev pub text_of : Tree → Option Bytes
text_of (text s) = some s
text_of _ = none

mutual
  pub write_tree : Tree → Bytes
  write_tree null = codes "null"
  write_tree (text s) = codes "\"" ++ s ++ codes "\""
  write_tree (number n) = codes "1"
  write_tree (flag b) = if b then codes "true" else codes "false"
  write_tree (object m) = codes "{" ++ write_members m ++ codes "}"

  pub write_members : Members → Bytes
  write_members empty = []
  write_members (member k x m) = k ++ codes ":" ++ write_tree x ++ codes "," ++ write_members m

-- A JSON text is taken for the name of a request.
abbrev pub tree : Json
tree = record {
  Value = Tree;
  null = null;
  of_string = text;
  of_bool = flag;
  of_uint = number;
  of_int = number;
  get = get_tree;
  touch = λ v name. v;
  set = set_tree;
  members = λ v. none;
  as_string = text_of;
  as_c_string = text_of;
  as_bool = λ v. none;
  as_int = λ v. none;
  parse = λ s. some (object (member (codes "name") (text s) empty));
  write = write_tree;
}

abbrev pub IsObject : Tree → Type 0
IsObject null = Unit
IsObject (object m) = Unit
IsObject _ = ⊥

set_tree-IsObject :
    (v : Tree) (name : Bytes) (x : Tree)
    → IsObject v
    → (w : Tree) × (set_tree v name x ≡ some w)
      × IsObject w
      × ((j : Bytes) → get_tree w j ≡ (if bytes_eq name j then some x else get_tree v j))
unfolding get_tree find_member
set_tree-IsObject null name x h = (_, refl, tt, λ j. ground arith)
set_tree-IsObject (object m) name x h = (_, refl, tt, λ j. ground arith)
set_tree-IsObject (text s) name x h = elim h [ ]
set_tree-IsObject (number n) name x h = elim h [ ]
set_tree-IsObject (flag b) name x h = elim h [ ]

pub tree_laws : HasMembers tree IsObject
unfolding get_tree
tree_laws = record {
  null_object = tt;
  get-null = λ name. refl;
  set_object = set_tree-IsObject;
  text_back = λ s. refl;
}

abbrev pub app_root : Tree
app_root = object (member (codes "name") (text (codes "pingreq")) empty)
