-- ===== src/Prelude/Map.antt =====
-- `std::collections::HashMap`: an association list with one entry for each key. The order in which
-- the real map yields its entries is not fixed, and a traversal has an order of its own; here the
-- newest comes first.
use Prim.Native.Nat.{◌+◌, ◌≤◌, ◌<◌}
use mathlib.Core.Path.{◌≡◌, refl, sym, ◌∙◌}
use mathlib.Core.Logic.{ite, if_pos, if_neg}
use mathlib.Core.Bool.{Bool, true, false}
use mathlib.Core.Option.{Option, none, some}
use mathlib.Core.List.{List, [], ◌∷◌, map}
use native.Mathlib.Omega.{arith}
use rrev.Prelude.Lists.{length}

abbrev pub Map : Type 0 → Type 0 → Type 0
Map K V = List (K × V)

abbrev pub is_some : {A : Type 0} → Option A → Bool
is_some none = false
is_some (some _) = true

module _ {K V : Type 0} (dec : Discrete K) where
  unfoldable pub get : K → Map K V → Option V
  get k [] = none
  get k ((j, v) ∷ m) = ite (dec j k) (some v) (get k m)

  unfoldable pub contains_key : K → Map K V → Bool
  contains_key k m = is_some (get k m)

  unfoldable pub erase : K → Map K V → Map K V
  erase k [] = []
  erase k ((j, v) ∷ m) = ite (dec j k) (erase k m) ((j, v) ∷ erase k m)

  -- A key that was there gets the new value.
  unfoldable pub insert : K → V → Map K V → Map K V
  insert k v m = (k, v) ∷ erase k m

  -- The value that stood under the key, and the map without it.
  unfoldable pub remove : K → Map K V → Option V × Map K V
  remove k m = (get k m, erase k m)

abbrev pub keys : {K V : Type 0} → Map K V → List K
keys = map (λ e. e.0)

abbrev pub values : {K V : Type 0} → Map K V → List V
values = map (λ e. e.1)

module _ {K V : Type 0} (dec : Discrete K) where
  pub get-erase :
      (j k : K) (m : Map K V) → get dec j (erase dec k m) ≡ ite (dec k j) none (get dec j m)
  unfolding get erase
  get-erase j k [] = elim (dec k j) [ yes p ↦ rw (if_pos _ p) | no p ↦ rw (if_neg _ p) ]
  get-erase j k ((i, v) ∷ m) = ground (arith, get-erase j k m)

  pub get-insert :
      (j k : K) (v : V) (m : Map K V)
      → get dec j (insert dec k v m) ≡ ite (dec k j) (some v) (get dec j m)
  unfolding get insert
  get-insert j k v m = ground (arith, get-erase j k m)

  pub erase-none : (k : K) (m : Map K V) → get dec k m ≡ none → erase dec k m ≡ m
  unfolding get erase
  erase-none k [] h = refl
  erase-none k ((i, v) ∷ m) h = ground (arith, erase-none k m)

  -- No key has two entries.
  abbrev pub Distinct : Map K V → Type 0
  Distinct [] = Unit {0}
  Distinct ((k, v) ∷ m) = (get dec k m ≡ none) × Distinct m

  -- Two lists that are the same map, each entry once.
  pub record SameEntries (es m : Map K V) : Type 0 where
    pub distinct : Distinct es
    pub agree : (k : K) → get dec k es ≡ get dec k m

  pub erase-Distinct : (k : K) (m : Map K V) → Distinct m → Distinct (erase dec k m)
  unfolding erase
  erase-Distinct k [] d = tt
  erase-Distinct k ((i, v) ∷ m) d = ground (arith, erase-Distinct k m d.1, get-erase i k m)

  pub insert-Distinct : (k : K) (v : V) (m : Map K V) → Distinct m → Distinct (insert dec k v m)
  unfolding insert
  insert-Distinct k v m d = (ground (arith, get-erase k k m), erase-Distinct k m d)

  pub erase_head : (k : K) (v : V) (m : Map K V) → get dec k m ≡ none → erase dec k ((k, v) ∷ m) ≡ m
  unfolding erase
  erase_head k v m h = ground (arith, erase-none k m h)

  pub get_head : (k : K) (v : V) (m : Map K V) → get dec k ((k, v) ∷ m) ≡ some v
  unfolding get
  get_head k v m = ground arith

  pub length-erase : (k : K) (m : Map K V) → length (erase dec k m) ≤ length m
  unfolding erase
  length-erase k [] = omega arith
  length-erase k ((i, v) ∷ m) = ground (arith, length-erase k m)

  pub length-insert : (k : K) (v : V) (m : Map K V) → length (insert dec k v m) ≤ 1 + length m
  unfolding insert
  length-insert k v m = omega (arith, length-erase k m)

  erase-lt :
      (k : K) (v : V) (m : Map K V) → get dec k m ≡ some v → length (erase dec k m) < length m
  unfolding erase get
  erase-lt k v [] h = cc h
  erase-lt k v ((i, w) ∷ m) h = elim (dec i k) [
    | yes p ↦ ground (arith, length-erase k m)
    | no p ↦ ground (arith, erase-lt k v m)
  ]

  -- A list of the entries of a map, each once, is no longer than the map.
  pub SameEntries-length : (es m : Map K V) → SameEntries es m → length es ≤ length m
  unfolding get
  SameEntries-length [] m same = omega arith
  SameEntries-length ((k, v) ∷ es) m same =
      let rest : SameEntries es (erase dec k m) = record {
        distinct = same.distinct.1;
        agree = λ j. ground (arith, get-erase j k m, same.agree j, same.distinct.0);
      } in
      omega (
        arith,
        SameEntries-length es (erase dec k m) rest,
        erase-lt k v m (sym (same.agree k) ∙ get_head k v es),
      )
