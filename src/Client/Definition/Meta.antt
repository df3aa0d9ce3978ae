-- ===== src/Client/Definition/Meta.antt =====
-- The metadata of a registration, and what discovery reads of it.
use consulx.Prelude.{
  Bool, true, false, [], ◌∷◌, Option, none, some, Text, codes, text_eq, text_eq_iff, if◌then◌else◌,
  ◌≡◌, refl, arith, if_both, ◌∙◌,
}
use consulx.Prelude.Dict.{Dict, lookup, insert, NoRepeat, lookup-Absent, lookup-insert}
use consulx.Discovery.Instance.{ServiceEntry, from_entry}
use consulx.Client.Definition.{Service, Process, copy, automatic, build_meta, set_text, set_known}
use consulx.Client.Endpoints.{Location}

-- The user's value, or else the automatic one.
abbrev pub or_else : Option Text → Option Text → Option Text
or_else none b = b
or_else (some v) b = some v

lookup-copy :
    (k : Text) (user meta : Dict Text)
    → NoRepeat user
    → lookup k (copy user meta) ≡ or_else (lookup k user) (lookup k meta)
unfolding lookup copy
lookup-copy k [] meta n = refl
lookup-copy k ((j, v) ∷ user) meta n = ground (
  arith,
  lookup-copy k user (insert j v meta) n.1,
  lookup-insert j k v meta,
  lookup-Absent j user n.0,
  text_eq_iff j k,
)

-- The metadata of a registration has the user's value under every key that the user sets, and the
-- automatic value under the others. No key stands twice in the user's map.
pub build_meta-lookup :
    (p : Process) (s : Service) (loc : Location) (k : Text)
    → NoRepeat s.meta
    → lookup k (build_meta p s loc) ≡ or_else (lookup k s.meta) (lookup k (automatic p s loc))
unfolding build_meta
build_meta-lookup p s loc k n = lookup-copy k s.meta (automatic p s loc) n

lookup-set_text :
    (k j v : Text) (meta : Dict Text)
    → text_eq k j ≡ false
    → lookup j (set_text k v meta) ≡ lookup j meta
unfolding set_text
lookup-set_text k j [] meta h = refl
lookup-set_text k j (c ∷ cs) meta h = lookup-insert k j (c ∷ cs) meta ∙ rw h refl

lookup-set_known :
    (k j : Text) (v : Option Text) (meta : Dict Text)
    → text_eq k j ≡ false
    → lookup j (set_known k v meta) ≡ lookup j meta
unfolding set_known
lookup-set_known k j none meta h = refl
lookup-set_known k j (some v) meta h = lookup-insert k j v meta ∙ rw h refl

abbrev pub secure_value : Location → Text
secure_value loc = if text_eq loc.scheme (codes "https") then codes "true" else codes "false"

secure_automatic :
    (p : Process) (s : Service) (loc : Location)
    → lookup (codes "secure") (automatic p s loc) ≡ some (secure_value loc)
unfolding automatic text_eq lookup insert
secure_automatic p s loc =
    rw
      (
        lookup-set_text (codes "zone") (codes "secure") s.zone _ refl,
        lookup-set_text (codes "environment") (codes "secure") s.environment _ refl,
        lookup-set_text (codes "version") (codes "secure") s.version _ refl,
      )
      (if_both {A = Dict Text} (λ m. lookup (codes "secure") m ≡ some (secure_value loc))
        s.disable_auto_meta refl
        (lookup-set_known (codes "hostname") (codes "secure") p.hostname _ refl ∙ refl))

-- A registered instance is discovered under its scheme: where the agent answers a health entry with
-- the metadata of the definition, the instance made of it has the scheme "https" exactly if the
-- location has, and "http" otherwise. The user's metadata has no repeated key, and no "secure".
pub build_meta-from_entry :
    (p : Process) (s : Service) (loc : Location) (e : ServiceEntry)
    → NoRepeat s.meta
    → lookup (codes "secure") s.meta ≡ none
    → e.service.meta ≡ build_meta p s loc
    → (from_entry e).scheme
      ≡ (if text_eq loc.scheme (codes "https") then codes "https" else codes "http")
unfolding from_entry
build_meta-from_entry p s loc e n h m =
    let found : lookup (codes "secure") e.service.meta ≡ some (secure_value loc) =
      rw m (build_meta-lookup p s loc (codes "secure") n ∙ rw h (secure_automatic p s loc)) in
    rw (found, from_entry) (by_scheme (text_eq loc.scheme (codes "https")))
  where
    by_scheme :
        (b : Bool)
        → (if text_eq (if b then codes "true" else codes "false") (codes "true")
            then codes "https"
            else codes "http")
          ≡ (if b then codes "https" else codes "http")
    by_scheme true = unfold text_eq in refl
    by_scheme false = unfold text_eq in refl
