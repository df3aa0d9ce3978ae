-- ===== src/Config/Env/Lists.antt =====
-- env.go: the lists and the metadata of a variable are read back from the text that writes them.
use consulx.Prelude.{
  ℕ, false, List, [], ◌∷◌, ◌++◌, some, Text, is_empty, split, ◌≡◌, refl, ap, ◌∙◌, sym, arith,
  append-nil, append_assoc, text_eq_iff, map,
}
use consulx.Prelude.Predicates.{All}
use consulx.Prelude.Dict.{Dict, insert, NoRepeat, Absent}
use consulx.Prelude.Trim.{
  trim_space, trim_start, trim_end, IsTrimmed, IsTrimmed-trim_space, trimmed_head,
  trim_start-append, trim_end-append,
}
use consulx.Prelude.Cut.{Without, cut_char-append}
use consulx.Config.Env.{split_list, kept_items, meta_from, parse_meta}

-- An item of a list: not empty, without a comma, and without blanks at its ends.
pub record IsItem (t : Text) : Type 0 where
  pub filled : is_empty t ≡ false
  pub no_comma : Without b',' t
  pub trimmed : IsTrimmed t

-- The items with commas between them.
abbrev pub joined : List Text → Text
joined [] = []
joined (x ∷ []) = x
joined (x ∷ (y ∷ ys)) = x ++ (b',' ∷ joined (y ∷ ys))

split_here :
    (s rest : Text) → Without b',' s → split b',' (s ++ (b',' ∷ rest)) ≡ s ∷ split b',' rest
unfolding split
split_here [] rest h = refl
split_here (c ∷ cs) rest h = ground (arith, h.0, split_here cs rest h.1)

split_whole : (s : Text) → Without b',' s → split b',' s ≡ s ∷ []
unfolding split
split_whole [] h = refl
split_whole (c ∷ cs) h = ground (arith, h.0, split_whole cs h.1)

kept_item : (x : Text) (xs : List Text) → IsItem x → kept_items (x ∷ xs) ≡ x ∷ kept_items xs
unfolding kept_items
kept_item x xs h = rw (IsTrimmed-trim_space x h.trimmed, h.filled) refl

kept_joined : (xs : List Text) → All IsItem xs → kept_items (split b',' (joined xs)) ≡ xs
kept_joined [] h = unfold split kept_items trim_space in refl
kept_joined (x ∷ []) h =
    rw (split_whole x h.0.no_comma) (kept_item x [] h.0 ∙ unfold kept_items in refl)
kept_joined (x ∷ (y ∷ ys)) h =
    rw (split_here x (joined (y ∷ ys)) h.0.no_comma)
      (kept_item x (split b',' (joined (y ∷ ys))) h.0 ∙ ap (λ t. x ∷ t) (kept_joined (y ∷ ys) h.1))

-- A list that is written with commas is read back. Its items are not empty, and have no comma and no
-- blank at an end.
pub split_list-joined : (xs : List Text) → All IsItem xs → split_list (joined xs) ≡ xs
unfolding split_list
split_list-joined xs h = kept_joined xs h

-- A key of metadata has no '=' besides, a value may be empty and hold '='.
pub record IsKey (k : Text) : Type 0 where
  pub filled : is_empty k ≡ false
  pub no_comma : Without b',' k
  pub no_equals : Without b'=' k
  pub trimmed : IsTrimmed k

pub record IsValue (v : Text) : Type 0 where
  pub no_comma : Without b',' v
  pub trimmed : IsTrimmed v

abbrev pub IsEntry : Text × Text → Type 0
IsEntry e = IsKey e.0 × IsValue e.1

abbrev pub written : Text × Text → Text
written e = e.0 ++ (b'=' ∷ e.1)

Without-append : (sep : ℕ) (s t : Text) → Without sep s → Without sep t → Without sep (s ++ t)
Without-append sep [] t h k = k
Without-append sep (c ∷ s) t h k = (h.0, Without-append sep s t h.1 k)

written_end : (k v : Text) → trim_end v ≡ v → trim_end (written (k, v)) ≡ written (k, v)
unfolding trim_end
written_end k v h =
    let tail : trim_end (b'=' ∷ v) ≡ b'=' ∷ v = ground (arith, h) in
    trim_end-append k (b'=' ∷ v) (rw tail refl) ∙ ap (λ t. k ++ t) tail

written_start :
    (k v : Text)
    → is_empty k ≡ false
    → trim_start k ≡ k
    → trim_start (written (k, v)) ≡ written (k, v)
written_start [] v h t = absurd (cc)
written_start (c ∷ k) v h t = trim_start-append c k (b'=' ∷ v) (trimmed_head c k t)

written_filled : (k v : Text) → is_empty (written (k, v)) ≡ false
written_filled [] v = refl
written_filled (c ∷ k) v = refl

IsEntry-IsItem : (e : Text × Text) → IsEntry e → IsItem (written e)
IsEntry-IsItem (k, v) h = record {
  filled = written_filled k v;
  no_comma = Without-append b',' k (b'=' ∷ v) h.0.no_comma (refl, h.1.no_comma);
  trimmed = record {
    start = written_start k v h.0.filled h.0.trimmed.start;
    end = written_end k v h.1.trimmed.end;
  };
}

items_of : (m : Dict Text) → All IsEntry m → All IsItem (map written m)
items_of [] h = tt
items_of (e ∷ m) h = (IsEntry-IsItem e h.0, items_of m h.1)

insert_new : (k v : Text) (m : Dict Text) → Absent k m → insert k v m ≡ m ++ ((k, v) ∷ [])
unfolding insert
insert_new k v [] h = refl
insert_new k v ((j, w) ∷ m) h =
    ground (arith, text_eq_iff j k, text_eq_iff k j, h.0, insert_new k v m h.1)

Absent-append : (k : Text) (m n : Dict Text) → Absent k m → Absent k n → Absent k (m ++ n)
Absent-append k [] n h i = i
Absent-append k (e ∷ m) n h i = (h.0, Absent-append k m n h.1 i)

-- Every key of the second map is new to the first.
abbrev AllNew : Dict Text → Dict Text → Type 0
AllNew before [] = Unit
AllNew before ((k, v) ∷ m) = Absent k before × AllNew before m

AllNew-snoc :
    (k v : Text) (before m : Dict Text)
    → AllNew before m
    → Absent k m
    → AllNew (before ++ ((k, v) ∷ [])) m
AllNew-snoc k v before [] h a = tt
AllNew-snoc k v before ((j, w) ∷ m) h a = (
  Absent-append j before ((k, v) ∷ []) h.0
      (ground (arith, text_eq_iff j k, text_eq_iff k j, a.0), tt),
  AllNew-snoc k v before m h.1 a.1,
)

meta_step :
    (k v : Text) (items : List Text) (m : Dict Text)
    → IsEntry (k, v)
    → meta_from (written (k, v) ∷ items) m ≡ meta_from items (insert k v m)
unfolding meta_from
meta_step k v items m h =
    rw (cut_char-append b'=' k v h.0.no_equals, meta_from)
      (rw (IsTrimmed-trim_space k h.0.trimmed, IsTrimmed-trim_space v h.1.trimmed, h.0.filled) refl)

meta_from-written :
    (m before : Dict Text)
    → All IsEntry m
    → NoRepeat m
    → AllNew before m
    → meta_from (map written m) before ≡ some (before ++ m)
meta_from-written [] before h n a = unfold meta_from in ap some (sym (append-nil before))
meta_from-written ((k, v) ∷ m) before h n a =
    meta_step k v (map written m) before h.0
    ∙ (ap (meta_from (map written m)) (insert_new k v before a.0)
        ∙ (meta_from-written m (before ++ ((k, v) ∷ [])) h.1 n.1 (AllNew-snoc k v before m a.1 n.0)
            ∙ ap some (append_assoc before ((k, v) ∷ []) m)))

nothing_new : (m : Dict Text) → AllNew [] m
nothing_new [] = tt
nothing_new (e ∷ m) = (tt, nothing_new m)

-- Metadata that is written as "k1=v1,k2=v2" is read back, in its order. Keys do not repeat, are not
-- empty and have no comma and no '='; values have no comma; neither has a blank at an end.
pub parse_meta-written :
    (m : Dict Text) → All IsEntry m → NoRepeat m → parse_meta (joined (map written m)) ≡ some m
unfolding parse_meta
parse_meta-written m h n =
    ap (λ items. meta_from items []) (split_list-joined (map written m) (items_of m h))
    ∙ meta_from-written m [] h n (nothing_new m)
