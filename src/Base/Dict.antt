-- ===== src/Base/Dict.antt =====
-- A JavaScript `Map` with text keys: its entries in insertion order. A write to a key that is
-- there keeps its place, a write to a new key goes to the end.
use mathlib.Core.Path.{◌≡◌, refl}
use mathlib.Core.Option.{Option, none, some}
use mathlib.Core.List.{List, [], ◌∷◌, ◌++◌}
use Prim.Native.Nat.{suc, ◌≤◌}
use native.Mathlib.Omega.{arith}
use eps_dapp.Base.Tests.{if◌then◌else◌}
use eps_dapp.Base.Lists.{length}
use eps_dapp.Base.Strings.{Text, text_eq, text_eq_iff}

abbrev pub Dict : Type 0 → Type 0
Dict V = List (Text × V)

module _ {V : Type 0} where
  -- `m.get(key)`.
  unfoldable pub get : Text → Dict V → Option V
  unfolding text_eq
  get k [] = none
  get k ((j, v) ∷ m) = if text_eq j k then some v else get k m

  -- `m.set(key, value)`.
  unfoldable pub set : Text → V → Dict V → Dict V
  unfolding text_eq
  set k v [] = (k, v) ∷ []
  set k v ((j, w) ∷ m) = if text_eq j k then (j, v) ∷ m else (j, w) ∷ set k v m

  -- `m.delete(key)`.
  unfoldable pub delete : Text → Dict V → Dict V
  unfolding text_eq
  delete k [] = []
  delete k ((j, w) ∷ m) = if text_eq j k then delete k m else (j, w) ∷ delete k m

  pub get-set :
      (k j : Text) (v : V) (m : Dict V)
      → get j (set k v m) ≡ (if text_eq k j then some v else get j m)
  unfolding get set
  get-set k j v [] = refl
  get-set k j v ((i, w) ∷ m) =
      ground (arith, get-set k j v m, text_eq_iff i k, text_eq_iff i j, text_eq_iff k j)

  pub get-delete :
      (k j : Text) (m : Dict V) → get j (delete k m) ≡ (if text_eq k j then none else get j m)
  unfolding get delete
  get-delete k j [] = ground arith
  get-delete k j ((i, w) ∷ m) =
      ground (arith, get-delete k j m, text_eq_iff i k, text_eq_iff i j, text_eq_iff k j)

  -- A delete and then a write, which moves the key to the end.
  pub set-delete :
      (k : Text) (v : V) (m : Dict V) → set k v (delete k m) ≡ delete k m ++ (k, v) ∷ []
  unfolding set delete
  set-delete k v [] = refl
  set-delete k v ((i, w) ∷ m) = ground (arith, set-delete k v m)

  pub length-set-le : (k : Text) (v : V) (m : Dict V) → length (set k v m) ≤ suc (length m)
  unfolding set
  length-set-le k v [] = omega arith
  length-set-le k v ((j, w) ∷ m) = ground (arith, length-set-le k v m)

  pub length-delete-le : (k : Text) (m : Dict V) → length (delete k m) ≤ length m
  unfolding delete
  length-delete-le k [] = omega arith
  length-delete-le k ((j, w) ∷ m) = ground (arith, length-delete-le k m)

  pub set_absent : (k : Text) (v : V) (m : Dict V) → get k m ≡ none → set k v m ≡ m ++ (k, v) ∷ []
  unfolding get set
  set_absent k v [] h = refl
  set_absent k v ((j, w) ∷ m) h = ground (arith, set_absent k v m)

  pub length-set_present :
      (k : Text) (v w : V) (m : Dict V) → get k m ≡ some w → length (set k v m) ≡ length m
  unfolding get set
  length-set_present k v w [] h = cc
  length-set_present k v w ((j, u) ∷ m) h = ground (arith, length-set_present k v w m)
