-- ===== src/KvConfig/Merging.antt =====
-- A merged tree has the settings of the later tree, and those of the earlier one where the later one
-- says nothing.
use mathlib.Core.Path.{subst}
use consulx.Prelude.{
  Bool, true, false, List, [], ◌∷◌, Option, none, some, Text, text_eq, text_eq_iff, if◌then◌else◌,
  ◌≡◌, refl, arith, ap, sym, ◌∙◌,
}
use consulx.KvConfig.{
  Value, scalar, array, folder, Fields, no_fields, field, get, put, as_folder, merge, merge_field,
}
use consulx.KvConfig.Paths.{find, scalar_of, get-put, find-no_fields, find-under}

-- What a tree says of the setting under a path: nothing, its value, or that there is none, since
-- something else stands there or above.
pub data Says : Type 0 where
  nothing : Says
  is_set : Text → Says
  is_other : Says

abbrev pub says_value : Option Value → Says
says_value none = nothing
says_value (some (scalar t)) = is_set t
says_value (some (array vs)) = is_other
says_value (some (folder f)) = is_other

unfoldable pub says : Text → List Text → Fields → Says
says part [] node = says_value (get part node)
says part (next ∷ parts) node = elim (get part node) [
  | none ↦ nothing
  | some (scalar t) ↦ is_other
  | some (array vs) ↦ is_other
  | some (folder f) ↦ says next parts f
]

abbrev pub over : Says → Option Text → Option Text
over nothing earlier = earlier
over (is_set t) earlier = some t
over is_other earlier = none

abbrev pub Unset : Text → Fields → Type 0
Unset k no_fields = Unit
Unset k (field j v m) = (text_eq j k ≡ false) × Unset k m

-- No key stands twice in a folder, at any depth.
unfoldable mutual
  pub Distinct : Fields → Type 0
  Distinct no_fields = Unit
  Distinct (field k v m) = Unset k m × DistinctValue v × Distinct m

  pub DistinctValue : Value → Type 0
  DistinctValue (scalar t) = Unit
  DistinctValue (array vs) = Unit
  DistinctValue (folder f) = Distinct f

or_empty : Option Fields → Fields
or_empty none = no_fields
or_empty (some f) = f

-- What the merge leaves under a key that the later tree has.
merged_value : Option Value → Value → Value
merged_value old (scalar t) = scalar t
merged_value old (array vs) = array vs
merged_value old (folder sub) = folder (merge (or_empty (as_folder old)) sub)

merge_field-put :
    (dst : Fields) (k : Text) (v : Value)
    → merge_field dst k v ≡ put k (merged_value (get k dst) v) dst
unfolding merge merge_field merged_value
merge_field-put dst k (scalar t) = refl
merge_field-put dst k (array vs) = refl
merge_field-put dst k (folder sub) = by_folder (as_folder (get k dst))
  where
    by_folder :
        (o : Option Fields)
        → (elim o [
          | some d ↦ put k (folder (merge d sub)) dst
          | none ↦ put k (folder (merge no_fields sub)) dst
        ])
          ≡ put k (folder (merge (or_empty o) sub)) dst
    by_folder none = unfold or_empty in refl
    by_folder (some d) = unfold or_empty in refl

get-Unset : (k : Text) (m : Fields) → Unset k m → get k m ≡ none
unfolding get
get-Unset k no_fields h = refl
get-Unset k (field j v m) h = ground (arith, h.0, get-Unset k m h.1)

merged : Option Value → Option Value → Option Value
merged old none = old
merged old (some v) = some (merged_value old v)

merge_open :
    (dst : Fields) (k : Text) (v : Value) (src : Fields)
    → merge dst (field k v src) ≡ merge (merge_field dst k v) src
unfolding merge merge_field
merge_open dst k v src = refl

merge_step :
    (dst : Fields) (k : Text) (v : Value) (src : Fields)
    → merge dst (field k v src) ≡ merge (put k (merged_value (get k dst) v) dst) src
merge_step dst k v src = merge_open dst k v src ∙ ap (λ d. merge d src) (merge_field-put dst k v)

merge_nil : (dst : Fields) → merge dst no_fields ≡ dst
unfolding merge
merge_nil dst = refl

get-merge :
    (j : Text) (dst src : Fields)
    → Distinct src
    → get j (merge dst src) ≡ merged (get j dst) (get j src)
unfolding get merged Distinct
get-merge j dst no_fields d = ap (get j) (merge_nil dst)
get-merge j dst (field k v src) d =
    ap (get j) (merge_step dst k v src)
    ∙ get-merge j (put k (merged_value (get k dst) v) dst) src d.2
    ∙ rw (get-put k j (merged_value (get k dst) v) dst) (at_test (text_eq k j) refl)
  where
    at_test :
        (b : Bool)
        → text_eq k j ≡ b
        → merged (if b then some (merged_value (get k dst) v) else get j dst) (get j src)
          ≡ merged (get j dst) (if b then some v else get j src)
    at_test true e =
        let kj = (text_eq_iff k j).0 e in
        let unset : get j src ≡ none = rw (← kj) (get-Unset k src d.0) in rw (unset, kj) refl
    at_test false e = refl

Distinct-get :
    (k : Text) (m : Fields) {f : Fields} → Distinct m → get k m ≡ some (folder f) → Distinct f
unfolding get Distinct
Distinct-get k no_fields d h = cc
Distinct-get k (field j v m) {f} d h = at_test (text_eq j k) h (Distinct-get k m {f = f} d.2)
  where
    at_test :
        (b : Bool)
        → (if b then some v else get k m) ≡ some (folder f)
        → (get k m ≡ some (folder f) → Distinct f)
        → Distinct f
    at_test true e ih = let same : v ≡ folder f = cc e in subst DistinctValue same d.1
    at_test false e ih = ih e

merged-leaf : (a b : Option Value) → scalar_of (merged a b) ≡ over (says_value b) (scalar_of a)
unfolding merged merged_value
merged-leaf a none = refl
merged-leaf a (some (scalar t)) = refl
merged-leaf a (some (array vs)) = refl
merged-leaf a (some (folder f)) = refl

find-or_empty :
    (q x : Text) (xs : List Text) (dst : Fields)
    → find q (x ∷ xs) dst ≡ find x xs (or_empty (as_folder (get q dst)))
find-or_empty q x xs dst =
    find-under q x xs dst (get q dst) refl ∙ by_folder (as_folder (get q dst))
  where
    by_folder :
        (o : Option Fields)
        → (elim o [ none ↦ none | some f ↦ find x xs f ]) ≡ find x xs (or_empty o)
    by_folder none = unfold or_empty in sym (find-no_fields x xs)
    by_folder (some f) = unfold or_empty in refl

says-under :
    (q x : Text) (xs : List Text) (src : Fields) (o : Option Value)
    → get q src ≡ o
    → says q (x ∷ xs) src ≡ elim o [
      | none ↦ nothing
      | some (scalar t) ↦ is_other
      | some (array vs) ↦ is_other
      | some (folder f) ↦ says x xs f
    ]
unfolding says
says-under q x xs src o e = rw (e, says) refl

-- The setting under each path of a merged tree: the later tree's, if it says anything of the path, and
-- otherwise the earlier tree's. The later tree has no repeated key.
pub find-merge :
    (q : Text) (qs : List Text) (dst src : Fields)
    → Distinct src
    → find q qs (merge dst src) ≡ over (says q qs src) (find q qs dst)
find-merge q [] dst src d =
    unfold find says in ap scalar_of (get-merge q dst src d) ∙ merged-leaf (get q dst) (get q src)
find-merge q (x ∷ xs) dst src d =
    find-under q x xs (merge dst src) (merged (get q dst) (get q src)) (get-merge q dst src d)
    ∙ at_key (λ base f k. find-merge x xs base f k) (get q src) refl
  where
    at_key :
        ((base f : Fields)
          → Distinct f
          → find x xs (merge base f) ≡ over (says x xs f) (find x xs base))
        → (o : Option Value) → get q src ≡ o
        → (elim (as_folder (merged (get q dst) o)) [ none ↦ none | some f ↦ find x xs f ])
          ≡ over (says q (x ∷ xs) src) (find q (x ∷ xs) dst)
    at_key ih none e =
        rw (says-under q x xs src none e)
          (unfold merged in sym (find-under q x xs dst (get q dst) refl))
    at_key ih (some (scalar t)) e =
        rw (says-under q x xs src (some (scalar t)) e)
          (unfold merged merged_value as_folder in refl)
    at_key ih (some (array vs)) e =
        rw (says-under q x xs src (some (array vs)) e)
          (unfold merged merged_value as_folder in refl)
    at_key ih (some (folder f)) e =
        rw (says-under q x xs src (some (folder f)) e, find-or_empty q x xs dst)
          (unfold merged merged_value as_folder in
            ih (or_empty (as_folder (get q dst))) f (Distinct-get q src d e))
