-- ===== src/KvConfig/Paths.antt =====
-- A decoded tree holds each pair under its path, and nothing else.
use consulx.Prelude.{
  Bool, true, false, ◌&&◌, List, [], ◌∷◌, Option, none, some, Text, text_eq, text_eq_iff,
  if◌then◌else◌, ◌≡◌, refl, arith, ap, sym, ◌∙◌, Option-cases, inl, inr,
}
use consulx.KvConfig.{
  Config, key_value, Value, scalar, array, folder, Fields, no_fields, field, get, put, as_folder,
  insert_at, set_leaf, set_folder, path_of, decode_pairs, decode,
}

abbrev pub scalar_of : Option Value → Option Text
scalar_of none = none
scalar_of (some (scalar t)) = some t
scalar_of (some (array vs)) = none
scalar_of (some (folder f)) = none

-- The setting under the path `part ∷ parts`.
unfoldable pub find : Text → List Text → Fields → Option Text
find part [] node = scalar_of (get part node)
find part (next ∷ parts) node = elim (as_folder (get part node)) [
  | none ↦ none
  | some f ↦ find next parts f
]

unfoldable pub path_eq : List Text → List Text → Bool
path_eq [] [] = true
path_eq [] (y ∷ ys) = false
path_eq (x ∷ xs) [] = false
path_eq (x ∷ xs) (y ∷ ys) = text_eq x y && path_eq xs ys

pub get-put :
    (k j : Text) (v : Value) (m : Fields)
    → get j (put k v m) ≡ (if text_eq k j then some v else get j m)
unfolding get put
get-put k j v no_fields = refl
get-put k j v (field i w m) =
    ground (arith, text_eq_iff k j, text_eq_iff i k, text_eq_iff i j, get-put k j v m)

pub find-no_fields : (q : Text) (qs : List Text) → find q qs no_fields ≡ none
unfolding find get as_folder
find-no_fields q [] = refl
find-no_fields q (x ∷ qs) = refl

-- Where a folder is put, what is found below it and beside it.
find-put_folder :
    (p q : Text) (qs : List Text) (f node : Fields)
    → find q qs (put p (folder f) node)
      ≡ (if text_eq p q then elim qs [ [] ↦ none | x ∷ xs ↦ find x xs f ] else find q qs node)
unfolding find as_folder
find-put_folder p q [] f node = ground (arith, get-put p q (folder f) node)
find-put_folder p q (x ∷ xs) f node = ground (arith, get-put p q (folder f) node)

find-put-scalar :
    (p q : Text) (qs : List Text) (v : Text) (node : Fields)
    → as_folder (get p node) ≡ none
    → find q qs (put p (scalar v) node)
      ≡ (if path_eq (p ∷ []) (q ∷ qs) then some v else find q qs node)
unfolding find as_folder path_eq
find-put-scalar p q [] v node h = ground (arith, get-put p q (scalar v) node)
find-put-scalar p q (x ∷ xs) v node h =
    ground (arith, get-put p q (scalar v) node, text_eq_iff p q, h)

-- A folder `f` that took the place of `base` under `p`.
below :
    (p next q : Text) (parts qs : List Text) (v : Text) (f base node : Fields)
    → scalar_of (get p node) ≡ none
    → ((x : Text) (xs : List Text) → find p (x ∷ xs) node ≡ find x xs base)
    → ((x : Text) (xs : List Text)
        → find x xs f ≡ (if path_eq (next ∷ parts) (x ∷ xs) then some v else find x xs base))
    → find q qs (put p (folder f) node)
      ≡ (if path_eq (p ∷ (next ∷ parts)) (q ∷ qs) then some v else find q qs node)
below p next q parts [] v f base node s h k =
    find-put_folder p q [] f node ∙ unfold find path_eq in ground (arith, text_eq_iff p q, s)
below p next q parts (x ∷ xs) v f base node s h k =
    find-put_folder p q (x ∷ xs) f node ∙ at_test (text_eq p q) refl
  where
    same : text_eq p q ≡ true → find q (x ∷ xs) node ≡ find x xs base
    same e = let pq = (text_eq_iff p q).0 e in rw (← pq) (h x xs)

    at_test :
        (b : Bool)
        → text_eq p q ≡ b
        → (if b then find x xs f else find q (x ∷ xs) node)
          ≡ (if path_eq (p ∷ (next ∷ parts)) (q ∷ (x ∷ xs)) then some v else find q (x ∷ xs) node)
    at_test true e = unfold path_eq in rw e (k x xs ∙ rw (same e) refl)
    at_test false e = unfold path_eq in rw e refl

set_folder-some :
    (part : Text) (node : Fields) (o : Option Fields) {node' : Fields}
    → set_folder part node o ≡ some node'
    → (f : Fields) × (o ≡ some f) × (node' ≡ put part (folder f) node)
unfolding set_folder
set_folder-some part node none h = cc
set_folder-some part node (some f) h = (f, refl, cc)

pub find-under :
    (p x : Text) (xs : List Text) (node : Fields) (o : Option Value)
    → get p node ≡ o
    → find p (x ∷ xs) node ≡ elim (as_folder o) [ none ↦ none | some f ↦ find x xs f ]
unfolding find
find-under p x xs node o e = rw (e, find) refl

-- A pair that is inserted is found under its path, and every other path holds what it held.
find-insert_at :
    (p : Text) (ps : List Text) (v : Text) (node : Fields) {node' : Fields} (q : Text)
    (qs : List Text)
    → insert_at p ps v node ≡ some node'
    → find q qs node' ≡ (if path_eq (p ∷ ps) (q ∷ qs) then some v else find q qs node)
unfolding insert_at
find-insert_at p [] v node {node'} q qs h = at_leaf (get p node) refl h
  where
    put_leaf :
        as_folder (get p node) ≡ none
        → some (put p (scalar v) node) ≡ some node'
        → find q qs node' ≡ (if path_eq (p ∷ []) (q ∷ qs) then some v else find q qs node)
    put_leaf e k =
        let at : put p (scalar v) node ≡ node' = cc k in rw (← at) (find-put-scalar p q qs v node e)

    at_leaf :
        (o : Option Value)
        → get p node ≡ o
        → set_leaf p v node o ≡ some node'
        → find q qs node' ≡ (if path_eq (p ∷ []) (q ∷ qs) then some v else find q qs node)
    at_leaf none e k = put_leaf (rw e (unfold as_folder in refl)) (unfold set_leaf in k)
    at_leaf (some (scalar t)) e k =
        put_leaf (rw e (unfold as_folder in refl)) (unfold set_leaf in k)
    at_leaf (some (array vs)) e k =
        put_leaf (rw e (unfold as_folder in refl)) (unfold set_leaf in k)
    at_leaf (some (folder f)) e k = unfold set_leaf in cc k
find-insert_at p (next ∷ parts) v node {node'} q qs h =
    at_part (λ base m x xs k. find-insert_at next parts v base {node' = m} x xs k) (get p node) refl
      h
  where
    put_below :
        (base : Fields)
        → ((x : Text) (xs : List Text) (m : Fields)
            → insert_at next parts v base ≡ some m
            → find x xs m ≡ (if path_eq (next ∷ parts) (x ∷ xs) then some v else find x xs base))
        → scalar_of (get p node) ≡ none
        → ((x : Text) (xs : List Text) → find p (x ∷ xs) node ≡ find x xs base)
        → set_folder p node (insert_at next parts v base) ≡ some node'
        → find q qs node'
          ≡ (if path_eq (p ∷ (next ∷ parts)) (q ∷ qs) then some v else find q qs node)
    put_below base ih s b k =
        let (f, made, e) = set_folder-some p node (insert_at next parts v base) k in
        rw e (below p next q parts qs v f base node s b (λ x xs. ih x xs f made))

    at_part :
        ((base : Fields) (m : Fields) (x : Text) (xs : List Text)
          → insert_at next parts v base ≡ some m
          → find x xs m ≡ (if path_eq (next ∷ parts) (x ∷ xs) then some v else find x xs base))
        → (o : Option Value) → get p node ≡ o
        → (elim o [
          | none ↦ set_folder p node (insert_at next parts v no_fields)
          | some w ↦ elim w [
            | scalar t ↦ none
            | array vs ↦ none
            | folder f ↦ set_folder p node (insert_at next parts v f)
          ]
        ])
          ≡ some node'
        → find q qs node'
          ≡ (if path_eq (p ∷ (next ∷ parts)) (q ∷ qs) then some v else find q qs node)
    at_part ih none e k =
        put_below no_fields (λ x xs m j. ih no_fields m x xs j) (rw e refl)
          (λ x xs. find-under p x xs node none e ∙ unfold as_folder in sym (find-no_fields x xs)) k
    at_part ih (some (scalar t)) e k = cc k
    at_part ih (some (array vs)) e k = cc k
    at_part ih (some (folder f)) e k =
        put_below f (λ x xs m j. ih f m x xs j) (rw e refl)
          (λ x xs. find-under p x xs node (some (folder f)) e ∙ unfold as_folder in refl) k

-- The value of the last pair under a path, or `held`.
unfoldable pub last_pair : Text → List (Text × Text) → Text → List Text → Option Text → Option Text
last_pair prefix [] q qs held = held
last_pair prefix ((key, v) ∷ pairs) q qs held = elim (path_of prefix key) [
  | none ↦ last_pair prefix pairs q qs held
  | some (p, ps) ↦ last_pair prefix pairs q qs (if path_eq (p ∷ ps) (q ∷ qs) then some v else held)
]

decode_pairs-find :
    (prefix : Text) (pairs : List (Text × Text)) (tree tree' : Fields) (q : Text) (qs : List Text)
    → decode_pairs prefix pairs tree ≡ some tree'
    → find q qs tree' ≡ last_pair prefix pairs q qs (find q qs tree)
unfolding decode_pairs last_pair
decode_pairs-find prefix [] tree tree' q qs h = let e : tree ≡ tree' = cc h in rw e refl
decode_pairs-find prefix ((key, v) ∷ pairs) tree tree' q qs h =
    at_path (λ t k. decode_pairs-find prefix pairs t tree' q qs k) (path_of prefix key) h
  where
    at_path :
        ((t : Fields)
          → decode_pairs prefix pairs t ≡ some tree'
          → find q qs tree' ≡ last_pair prefix pairs q qs (find q qs t))
        → (o : Option (Text × List Text))
        → (elim o [
          | none ↦ decode_pairs prefix pairs tree
          | some (part, parts) ↦ elim (insert_at part parts v tree) [
            | none ↦ none
            | some t ↦ decode_pairs prefix pairs t
          ]
        ])
          ≡ some tree'
        → find q qs tree' ≡ elim o [
          | none ↦ last_pair prefix pairs q qs (find q qs tree)
          | some (p, ps) ↦
              last_pair prefix pairs q qs
                (if path_eq (p ∷ ps) (q ∷ qs) then some v else find q qs tree)
        ]
    at_path ih none k = ih tree k
    at_path ih (some (p, ps)) k = elim (Option-cases (insert_at p ps v tree)) [
      | inl e ↦ let no = rw e at k in cc no
      | inr (t, e) ↦
          ih t (rw e at k) ∙ ap (last_pair prefix pairs q qs) (find-insert_at p ps v tree q qs e)
    ]

-- In the key-value format, a folder that decodes gives a tree whose setting under each path is the
-- value of the last pair with that path, and none where no pair has it.
pub decode-find :
    (parse_doc : Text → Option Fields) (c : Config) (prefix : Text) (pairs : List (Text × Text))
    (tree : Fields) (q : Text) (qs : List Text)
    → c.format ≡ key_value
    → decode parse_doc c prefix pairs ≡ some tree
    → find q qs tree ≡ last_pair prefix pairs q qs none
unfolding decode
decode-find parse_doc c prefix pairs tree q qs f h =
    decode_pairs-find prefix pairs no_fields tree q qs (rw f at h)
    ∙ ap (last_pair prefix pairs q qs) (find-no_fields q qs)
