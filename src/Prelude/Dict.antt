-- ===== src/Prelude/Dict.antt =====
-- A Python `dict` with text keys as an association list: a key is found, replaced and deleted at its
-- first place, and a new key goes to the end.
use ibkr_strategy_engine.Prelude.Tests.{if◌then◌else◌}
use ibkr_strategy_engine.Prelude.Lists.{length}
use Prim.Native.Nat.{◌+◌}
use Prim.Native.String.{String}
use mathlib.Core.Path.{◌≡◌, refl}
use mathlib.Core.Option.{Option, none, some}
use mathlib.Core.List.{List, [], ◌∷◌}
use native.Mathlib.Omega.{arith}
use text.Mathlib.Text.{◌==◌}
use text.Mathlib.TextEquality.{eq_iff}

abbrev pub Dict {ℓ} : Type ℓ → Type ℓ
Dict V = List (String × V)

module _ {ℓ} {V : Type ℓ} where
  unfoldable pub lookup : String → Dict V → Option V
  lookup k [] = none
  lookup k ((j, v) ∷ d) = if j == k then some v else lookup k d

  unfoldable pub insert : String → V → Dict V → Dict V
  insert k v [] = (k, v) ∷ []
  insert k v ((j, w) ∷ d) = if j == k then (k, v) ∷ d else (j, w) ∷ insert k v d

  pub delete : String → Dict V → Dict V
  delete k [] = []
  delete k ((j, w) ∷ d) = if j == k then d else (j, w) ∷ delete k d

  pub lookup-insert :
      (k j : String) (v : V) (d : Dict V)
      → lookup j (insert k v d) ≡ (if k == j then some v else lookup j d)
  unfolding lookup insert
  lookup-insert k j v [] = refl
  lookup-insert k j v ((i, w) ∷ d) =
      ground (arith, eq_iff k j, eq_iff i k, eq_iff i j, lookup-insert k j v d)

  pub length-insert_new :
      (k : String) (v : V) (d : Dict V) → lookup k d ≡ none → length (insert k v d) ≡ length d + 1
  unfolding lookup insert
  length-insert_new k v [] h = refl
  length-insert_new k v ((j, w) ∷ d) h = ground (arith, length-insert_new k v d)

  pub length-delete :
      (k : String) (v : V) (d : Dict V) → lookup k d ≡ some v → length (delete k d) + 1 ≡ length d
  unfolding lookup delete
  length-delete k v [] h = ground arith
  length-delete k v ((j, w) ∷ d) h = ground (arith, length-delete k v d)

  pub delete-insert_new :
      (k : String) (v : V) (d : Dict V) → lookup k d ≡ none → delete k (insert k v d) ≡ d
  unfolding lookup insert delete
  delete-insert_new k v [] h = ground (arith, eq_iff k k)
  delete-insert_new k v ((j, w) ∷ d) h = ground (arith, delete-insert_new k v d)
