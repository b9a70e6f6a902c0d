-- ===== src/Common/Maps.antt =====
-- JavaScript's `Map` with text keys: an association list in insertion order. Setting a key that
-- is present keeps its place; a new key goes to the end.
use Prim.Native.Nat.{◌+◌}
use Prim.Native.String.{String}
use mathlib.Core.Path.{◌≡◌, refl}
use mathlib.Core.Logic.{◌≢◌}
use mathlib.Core.List.{List, [], ◌∷◌}
use mathlib.Core.Option.{Option, none, some}
use native.Mathlib.Omega.{arith}
use text.Mathlib.Text.{◌==◌ as str_eq}
use text.Mathlib.TextEquality.{eq_iff}
use signalk_doctor_server.Common.Tests.{if◌then◌else◌}
use signalk_doctor_server.Common.Lists.{length}

abbrev pub Map {ℓ} : Type ℓ → Type ℓ
Map V = List (String × V)

module _ {ℓ} {V : Type ℓ} where
  -- `m.get(want)`
  unfoldable pub lookup : String → Map V → Option V
  lookup want [] = none
  lookup want ((key, val) ∷ rest) = if str_eq key want then some val else lookup want rest

  -- `m.set(want, new)`
  unfoldable pub insert : String → V → Map V → Map V
  insert want new [] = (want, new) ∷ []
  insert want new ((key, val) ∷ rest) =
      let later = insert want new rest in
      if str_eq key want then (key, new) ∷ rest else (key, val) ∷ later

  -- `m.delete(want)`
  unfoldable pub erase : String → Map V → Map V
  erase want [] = []
  erase want ((key, val) ∷ rest) =
      let later = erase want rest in if str_eq key want then rest else (key, val) ∷ later

  -- The law of `set` followed by `get`.
  pub lookup-insert :
      (set got : String) (new : V) (m : Map V)
      → lookup got (insert set new m) ≡ (if str_eq set got then some new else lookup got m)
  unfolding lookup insert
  lookup-insert set got new [] = refl
  lookup-insert set got new ((key, val) ∷ rest) =
      let ih = lookup-insert set got new rest in
      ground (ih, eq_iff key set, eq_iff key got, eq_iff set got, arith)

  pub lookup-insert_self :
      (set : String) (new : V) (m : Map V) → lookup set (insert set new m) ≡ some new
  lookup-insert_self set new m = ground (lookup-insert set set new m, eq_iff set set, arith)

  pub lookup-insert_ne :
      (set got : String) (new : V) (m : Map V)
      → set ≢ got
      → lookup got (insert set new m) ≡ lookup got m
  lookup-insert_ne set got new m differ =
      ground (lookup-insert set got new m, eq_iff set got, arith)

  pub insert_fresh :
      (set : String) (new : V) (m : Map V)
      → lookup set m ≡ none
      → length (insert set new m) ≡ length m + 1
  unfolding lookup insert
  insert_fresh set new [] absent = refl
  insert_fresh set new ((key, val) ∷ rest) absent =
      ground (insert_fresh set new rest, eq_iff key set, arith)

  pub length-insert_present :
      (set : String) (new old : V) (m : Map V)
      → lookup set m ≡ some old
      → length (insert set new m) ≡ length m
  unfolding lookup insert
  length-insert_present set new old [] there = ground arith
  length-insert_present set new old ((key, val) ∷ rest) there =
      ground (length-insert_present set new old rest, eq_iff key set, arith)
