-- ===== src/Compat/Order.antt =====
-- `AtLeast` is the order of version numbers, and a newer agent supports what an older one does.
use consulx.Prelude.{ℕ, true, false, ◌≡◌, ◌⊎◌, ◌<◌, ◌≤◌, ◌↔◌, arith}
use consulx.Compat.{
  Version, is_unknown, at_least, Feature, multi_port, ipv6_address, namespaces, partitions,
  ai_service, unlisted, supports,
}

-- The order of version numbers.
abbrev pub Leq : ℕ → ℕ → ℕ → Version → Type 0
Leq major minor patch v =
    (major < v.major)
    ⊎ ((major ≡ v.major) × ((minor < v.minor) ⊎ ((minor ≡ v.minor) × (patch ≤ v.patch))))

-- `AtLeast` answers whether the version is not before the one asked for, in the order of major, minor
-- and patch.
pub at_least_iff :
    (v : Version) (major minor patch : ℕ)
    → (at_least v major minor patch ≡ true) ↔ Leq major minor patch v
unfolding at_least
at_least_iff v major minor patch = ground arith

-- Of two known versions of one edition, the newer supports every feature that the older supports.
pub at_least-supports :
    (v w : Version) (f : Feature)
    → is_unknown v ≡ false
    → is_unknown w ≡ false
    → v.enterprise ≡ w.enterprise
    → at_least w v.major v.minor v.patch ≡ true
    → supports v f ≡ true
    → supports w f ≡ true
unfolding supports at_least
at_least-supports v w multi_port hv hw e h s = ground arith
at_least-supports v w ipv6_address hv hw e h s = ground arith
at_least-supports v w namespaces hv hw e h s = ground arith
at_least-supports v w partitions hv hw e h s = ground arith
at_least-supports v w ai_service hv hw e h s = ground arith
at_least-supports v w (unlisted n) hv hw e h s = ground arith
