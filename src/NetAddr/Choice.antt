-- ===== src/NetAddr/Choice.antt =====
-- What `Select` answers.
use consulx.Prelude.{
  true, false, not, List, [], ◌∷◌, Option, none, some, ◌≡◌, refl, arith, ◌⊎◌, inl, inr, Bool-cases,
  text_eq_iff,
}
use consulx.Prelude.Predicates.{All, In}
use consulx.NetAddr.{
  Ip, Interface, Filter, is_virtual, skipped, chosen, first_chosen, select, same_flag,
}

-- An address that other hosts can use, of the family and the range that the filter asks for.
pub record Usable (f : Filter) (a : Ip) : Type 0 where
  pub family : a.is6 ≡ f.ipv6
  pub not_loopback : a.loopback ≡ false
  pub specified : a.unspecified ≡ false
  pub not_link_local : a.link_local ≡ false
  pub unicast : a.multicast ≡ false
  pub range : a.private ≡ not f.public

-- An interface that is up, no loopback, and the one that the filter names, or else no virtual one.
abbrev pub Open : Filter → Interface → Type 0
Open f ifc =
    (ifc.up ≡ true)
    × (ifc.loop ≡ false)
    × ((ifc.name ≡ f.name) ⊎ ((f.name ≡ []) × (is_virtual ifc.name ≡ false)))

chosen-Usable : (f : Filter) (a : Ip) → chosen f a ≡ true → Usable f a
unfolding chosen same_flag
chosen-Usable f a h = ground (arith, h)

skipped-Open : (f : Filter) (ifc : Interface) → skipped f ifc ≡ false → Open f ifc
unfolding skipped
skipped-Open f ifc h = ground (arith, h, text_eq_iff ifc.name f.name)

abbrev pub Chosen : Filter → List Ip → Option Ip → Type 0
Chosen f addrs none = All (λ a. chosen f a ≡ false) addrs
Chosen f addrs (some a) = In a addrs × Usable f a

first_chosen-Chosen : (f : Filter) (addrs : List Ip) → Chosen f addrs (first_chosen f addrs)
unfolding first_chosen
first_chosen-Chosen f [] = tt
first_chosen-Chosen f (a ∷ addrs) = elim (Bool-cases (chosen f a)) [
  | inl e ↦ rw e (inl refl, chosen-Usable f a e)
  | inr e ↦ rw e (behind (first_chosen f addrs) (first_chosen-Chosen f addrs) e)
]
  where
    behind : (o : Option Ip) → Chosen f addrs o → chosen f a ≡ false → Chosen f (a ∷ addrs) o
    behind none h e = (e, h)
    behind (some b) h e = (inr h.0, h.1)

-- An answer is a usable address of an open interface; without one, every interface is skipped or has
-- no address that the filter chooses.
abbrev pub Found : Filter → List Interface → Option Ip → Type 0
Found f ifs none = All (λ ifc. (skipped f ifc ≡ true) ⊎ All (λ a. chosen f a ≡ false) ifc.addrs) ifs
Found f ifs (some a) = (ifc : Interface) × In ifc ifs × Open f ifc × In a ifc.addrs × Usable f a

-- `Select` answers an address that stands on an interface of the list that is up, is no loopback, and
-- has the name asked for, or is not virtual if none is; the address is of the family and the range
-- asked for, and neither loopback, unspecified, link-local nor multicast. It answers ErrNoAddress only
-- if every interface is skipped or has no address to choose.
pub select-Found : (ifs : List Interface) (f : Filter) → Found f ifs (select ifs f)
unfolding select
select-Found [] f = tt
select-Found (ifc ∷ ifs) f = elim (Bool-cases (skipped f ifc)) [
  | inl e ↦ rw e (behind (select ifs f) (select-Found ifs f) (inl e))
  | inr e ↦
      rw e (
        at_first (first_chosen f ifc.addrs) (first_chosen-Chosen f ifc.addrs) e
          (select-Found ifs f))
]
  where
    behind :
        (o : Option Ip)
        → Found f ifs o
        → (skipped f ifc ≡ true) ⊎ All (λ a. chosen f a ≡ false) ifc.addrs
        → Found f (ifc ∷ ifs) o
    behind none h e = (e, h)
    behind (some a) h e = (h.0, inr h.1, h.2, h.3, h.4)

    at_first :
        (o : Option Ip)
        → Chosen f ifc.addrs o
        → skipped f ifc ≡ false
        → Found f ifs (select ifs f)
        → Found f (ifc ∷ ifs) (elim o [ none ↦ select ifs f | some a ↦ some a ])
    at_first none h e k = behind (select ifs f) k (inr h)
    at_first (some a) h e k = (ifc, inl refl, skipped-Open f ifc e, h.0, h.1)
