-- ===== src/KvConfig.antt =====
-- kvconfig/kvconfig.go: the folders that are read, the tree of one folder, and the merge of trees. A
-- tree is a Go map: a list of fields, whose order the code does not fix. `parse_doc` is the JSON or
-- YAML decoder with normalizeTree after it, which copies; a scalar of a document is its text.
pub mod Paths
pub mod Merging
pub mod Watching
use consulx.Prelude.{
  ℕ, max, Bool, true, false, ◌&&◌, ◌||◌, not, List, [], ◌∷◌, ◌++◌, Option, none, some, Text, codes,
  text_eq, split, ◌==◌, if◌then◌else◌, is_empty,
}
use consulx.NetAddr.{has_prefix, has_suffix}

pub data Format : Type 0 where
  key_value yaml json : Format

pub record Config : Type 0 where
  pub name : Text
  pub profiles : List Text
  pub prefix : Text
  pub default_context : Text
  pub profile_separator : Text
  pub format : Format
  pub data_key : Text

folder_name : Config → Text → Text
folder_name c n = c.prefix ++ (b'/' ∷ (n ++ (b'/' ∷ [])))

profiled : Config → Text → List Text → List Text
unfolding folder_name
profiled c n [] = []
profiled c n (p ∷ ps) = folder_name c (n ++ (c.profile_separator ++ p)) ∷ profiled c n ps

folders : Config → List Text → List Text
unfolding profiled
folders c [] = []
folders c (n ∷ ns) = (folder_name c n ∷ profiled c n c.profiles) ++ folders c ns

unfoldable pub contexts : Config → List Text
unfolding folders
contexts c =
    let own =
      if not (is_empty c.name) && not (text_eq c.name c.default_context) then c.name ∷ [] else [] in
    folders c (c.default_context ∷ own)

mutual
  pub data Value : Type 0 where
    scalar : Text → Value
    array : Values → Value
    folder : Fields → Value

  pub data Values : Type 0 where
    no_values : Values
    value : Value → Values → Values

  pub data Fields : Type 0 where
    no_fields : Fields
    field : Text → Value → Fields → Fields

unfoldable pub get : Text → Fields → Option Value
get k no_fields = none
get k (field j v m) = let rest = get k m in if text_eq j k then some v else rest

unfoldable pub put : Text → Value → Fields → Fields
put k v no_fields = field k v no_fields
put k v (field j w m) = let rest = put k v m in if text_eq j k then field k v m else field j w rest

-- The type assertion `.(map[string]any)`.
unfoldable pub as_folder : Option Value → Option Fields
as_folder none = none
as_folder (some (scalar t)) = none
as_folder (some (array vs)) = none
as_folder (some (folder f)) = some f

unfoldable mutual
  unfolding as_folder get put

  pub merge : Fields → Fields → Fields
  merge dst no_fields = dst
  merge dst (field k v src) = merge (merge_field dst k v) src

  pub merge_field : Fields → Text → Value → Fields
  merge_field dst k (scalar t) = put k (scalar t) dst
  merge_field dst k (array vs) = put k (array vs) dst
  merge_field dst k (folder sub) = elim (as_folder (get k dst)) [
    | some d ↦ put k (folder (merge d sub)) dst
    | none ↦ put k (folder (merge no_fields sub)) dst
  ]

set_folder : Text → Fields → Option Fields → Option Fields
set_folder part node none = none
set_folder part node (some f) = some (put part (folder f) node)

set_leaf : Text → Text → Fields → Option Value → Option Fields
set_leaf leaf v node none = some (put leaf (scalar v) node)
set_leaf leaf v node (some (scalar t)) = some (put leaf (scalar v) node)
set_leaf leaf v node (some (array vs)) = some (put leaf (scalar v) node)
set_leaf leaf v node (some (folder f)) = none

-- One pair under the path `part ∷ parts`. `none` is the error "both a value and a folder".
unfoldable pub insert_at : Text → List Text → Text → Fields → Option Fields
unfolding set_leaf set_folder
insert_at leaf [] v node = set_leaf leaf v node (get leaf node)
insert_at part (next ∷ parts) v node =
    let fresh = insert_at next parts v no_fields in
    elim (get part node) [
      | none ↦ set_folder part node fresh
      | some (scalar t) ↦ none
      | some (array vs) ↦ none
      | some (folder f) ↦ set_folder part node (insert_at next parts v f)
    ]

-- `strings.TrimPrefix`.
unfoldable pub trim_prefix : Text → Text → Text
trim_prefix [] t = t
trim_prefix (c ∷ cs) [] = []
trim_prefix (c ∷ cs) (d ∷ ds) = if has_prefix (c ∷ cs) (d ∷ ds) then trim_prefix cs ds else d ∷ ds

-- The path of a key below its folder; `none` for the marker of a folder.
unfoldable pub path_of : Text → Text → Option (Text × List Text)
unfolding trim_prefix has_suffix
path_of prefix key =
    let rel = trim_prefix prefix key in
    if is_empty rel || has_suffix (b'/' ∷ []) rel
    then none
    else elim (split b'/' rel) [ [] ↦ none | part ∷ parts ↦ some (part, parts) ]

-- The loop of `decode` over the pairs of a folder.
unfoldable pub decode_pairs : Text → List (Text × Text) → Fields → Option Fields
unfolding path_of insert_at
decode_pairs prefix [] tree = some tree
decode_pairs prefix ((key, v) ∷ pairs) tree = elim (path_of prefix key) [
  | none ↦ decode_pairs prefix pairs tree
  | some (part, parts) ↦ elim (insert_at part parts v tree) [
    | none ↦ none
    | some tree' ↦ decode_pairs prefix pairs tree'
  ]
]

abbrev pub is_key_value : Format → Bool
is_key_value key_value = true
is_key_value yaml = false
is_key_value json = false

-- The loop over a folder that holds one document: the first pair under the data key.
decode_doc : (Text → Option Fields) → Text → Text → List (Text × Text) → Option Fields
unfolding trim_prefix
decode_doc parse_doc prefix data_key [] = some no_fields
decode_doc parse_doc prefix data_key ((key, v) ∷ pairs) =
    let rest = decode_doc parse_doc prefix data_key pairs in
    if text_eq (trim_prefix prefix key) data_key then parse_doc v else rest

-- `decode`; `none` is its error.
unfoldable pub decode : (Text → Option Fields) → Config → Text → List (Text × Text) → Option Fields
unfolding decode_pairs decode_doc
decode parse_doc c prefix pairs =
    if is_key_value c.format
    then decode_pairs prefix pairs no_fields
    else decode_doc parse_doc prefix c.data_key pairs

-- What the agent lists under a folder: an error, or the pairs and the index.
pub data Listing : Type 0 where
  unread : Listing
  listed : List (Text × Text) → ℕ → Listing

merge_layer : Fields → Option Fields → Option Fields
merge_layer merged none = none
merge_layer merged (some layer) = some (merge merged layer)

-- The loop of `load` over the folders: the merged tree and the highest index.
unfoldable pub load_from :
    (Text → Option Fields)
    → Config
    → (Text → Listing)
    → List Text
    → Fields
    → ℕ
    → Option (Fields × ℕ)
unfolding decode merge_layer
load_from parse_doc c list [] merged index = some (merged, index)
load_from parse_doc c list (prefix ∷ prefixes) merged index = elim (list prefix) [
  | unread ↦ none
  | listed pairs i ↦ elim (merge_layer merged (decode parse_doc c prefix pairs)) [
    | none ↦ none
    | some tree ↦ load_from parse_doc c list prefixes tree (max index i)
  ]
]

unfoldable pub load : (Text → Option Fields) → Config → (Text → Listing) → Option (Fields × ℕ)
unfolding load_from contexts
load parse_doc c list = load_from parse_doc c list (contexts c) no_fields 0

-- The loop of `subtree` over the parts of its path.
unfoldable pub subtree_at : List Text → Fields → Fields
unfolding as_folder get
subtree_at [] node = node
subtree_at (part ∷ parts) node = elim (as_folder (get part node)) [
  | none ↦ no_fields
  | some f ↦ subtree_at parts f
]
