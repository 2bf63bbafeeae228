-- ===== src/Prelude/Maps.antt =====
-- A Go map that is only read and written, never iterated: a total function, whose value at a
-- missing key is the zero value.
use mathlib.Core.Path.{◌≡◌}
use mathlib.Core.Logic.{◌≢◌}
use native.Mathlib.Omega.{arith}
use buildforge.Prelude.Tests.{if◌then◌else◌}
use buildforge.Prelude.Strings.{Str, str_eq, str_eq_iff, str_eq_refl}

module _ {ℓ} {V : Type ℓ} where
  abbrev pub update : (Str → V) → Str → V → Str → V
  update m k v q = if str_eq k q then v else m q

  pub update_self : (m : Str → V) (k : Str) (v : V) → update m k v k ≡ v
  update_self m k v = rw str_eq_refl

  pub update_ne : (m : Str → V) (k : Str) (v : V) (q : Str) → k ≢ q → update m k v q ≡ m q
  update_ne m k v q h = ground (arith, str_eq_iff k q)
