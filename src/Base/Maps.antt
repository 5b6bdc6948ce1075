-- ===== src/Base/Maps.antt =====
-- Go maps with text keys, as functions from a key to its value, if it has one.
use mathlib.Core.Path.{◌≡◌}
use mathlib.Core.Logic.{◌≢◌}
use mathlib.Core.Option.{Option, none, some}
use native.Mathlib.Omega.{arith}
use seestorm_ingest.Base.{if◌then◌else◌}
use seestorm_ingest.Base.Bytes.{Bytes, bytes_eq, bytes_eq_iff}

abbrev pub Map {ℓ} : Type ℓ → Type ℓ
Map A = Bytes → Option A

module _ {ℓ} {A : Type ℓ} where
  unfoldable pub put : Bytes → A → Map A → Map A
  put k v m = λ k'. if bytes_eq k' k then some v else m k'

  unfoldable pub delete : Bytes → Map A → Map A
  delete k m = λ k'. if bytes_eq k' k then none else m k'

  pub put-same : (k : Bytes) (v : A) (m : Map A) → put k v m k ≡ some v
  unfolding put
  put-same k v m = ground (arith, bytes_eq_iff k k)

  pub put-other : (k k' : Bytes) (v : A) (m : Map A) → k' ≢ k → put k v m k' ≡ m k'
  unfolding put
  put-other k k' v m h = ground (arith, bytes_eq_iff k' k)

  pub delete-same : (k : Bytes) (m : Map A) → delete k m k ≡ none
  unfolding delete
  delete-same k m = ground (arith, bytes_eq_iff k k)

  pub delete-other : (k k' : Bytes) (m : Map A) → k' ≢ k → delete k m k' ≡ m k'
  unfolding delete
  delete-other k k' m h = ground (arith, bytes_eq_iff k' k)
