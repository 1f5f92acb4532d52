-- ===== src/Base/OrdMap/Laws.antt =====
-- What a client may know of an ordered map: its order, and lookups after each change.
use Prim.Native.Nat.Ordering.{lt, eq}
use mathlib.Core.Path.{◌≡◌, refl}
use mathlib.Core.Option.{none, some}
use mathlib.Core.List.{[], ◌∷◌}
use native.Mathlib.Omega.{arith}
use mimisbrunnr.Base.OrdMap.{Ord, OrdMap, get, insert, remove}

module _ {ℓ κ} {K : Type ℓ} {V : Type κ} ⦃o : Ord K⦄ where
  -- `q` comes before every key of the map.
  abbrev pub Below : K → OrdMap K V → Type 0
  Below q [] = Unit
  Below q ((k, v) ∷ m) = (o.cmp q k ≡ lt) × Below q m

  -- The keys ascend, so no key occurs twice.
  abbrev pub Ascends : OrdMap K V → Type 0
  Ascends [] = Unit
  Ascends ((k, v) ∷ m) = Below k m × Ascends m

  pub Below-trans : (p q : K) (m : OrdMap K V) → o.cmp p q ≡ lt → Below q m → Below p m
  Below-trans p q [] h b = tt
  Below-trans p q ((k, v) ∷ m) h b = (o.lt_trans p q k h b.0, Below-trans p q m h b.1)

  Below-insert :
      (p q : K) (w : V) (m : OrdMap K V) → o.cmp p q ≡ lt → Below p m → Below p (insert q w m)
  unfolding insert
  Below-insert p q w [] h b = (h, tt)
  Below-insert p q w ((k, v) ∷ m) h b = ground (arith, Below-insert p q w m h b.1)

  pub insert-Ascends : (q : K) (w : V) (m : OrdMap K V) → Ascends m → Ascends (insert q w m)
  unfolding insert
  insert-Ascends q w [] a = (tt, tt)
  insert-Ascends q w ((k, v) ∷ m) a = ground (
    arith,
    insert-Ascends q w m a.1,
    Below-trans q k m,
    Below-insert k q w m,
    o.lt_of_gt q k,
    o.eq_of_cmp q k,
  )

  Below-remove : (p q : K) (m : OrdMap K V) → Below p m → Below p (remove q m)
  unfolding remove
  Below-remove p q [] b = tt
  Below-remove p q ((k, v) ∷ m) b = ground (arith, Below-remove p q m b.1)

  pub remove-Ascends : (q : K) (m : OrdMap K V) → Ascends m → Ascends (remove q m)
  unfolding remove
  remove-Ascends q [] a = tt
  remove-Ascends q ((k, v) ∷ m) a = ground (arith, remove-Ascends q m a.1, Below-remove k q m a.0)

  -- A key before the whole map is not in it.
  pub get-Below : (q : K) (m : OrdMap K V) → Below q m → get q m ≡ none
  unfolding get
  get-Below q [] b = refl
  get-Below q ((k, v) ∷ m) b = ground (arith, get-Below q m b.1)

  pub get-insert_self : (q : K) (w : V) (m : OrdMap K V) → get q (insert q w m) ≡ some w
  unfolding get insert
  get-insert_self q w [] = ground (arith, o.cmp_refl q)
  get-insert_self q w ((k, v) ∷ m) = ground (arith, o.cmp_refl q, get-insert_self q w m)

  pub get-insert :
      (j q : K) (w : V) (m : OrdMap K V)
      → get j (insert q w m) ≡ elim (o.cmp j q) [ eq ↦ some w | _ ↦ get j m ]
  unfolding get insert
  get-insert j q w [] = refl
  get-insert j q w ((k, v) ∷ m) = ground (
    arith,
    get-insert j q w m,
    o.eq_of_cmp q k,
    o.eq_of_cmp j k,
    o.eq_of_cmp j q,
    o.cmp_refl q,
    o.cmp_refl k,
  )

  pub get-remove :
      (j q : K) (m : OrdMap K V)
      → Ascends m
      → get j (remove q m) ≡ elim (o.cmp j q) [ eq ↦ none | _ ↦ get j m ]
  unfolding get remove
  get-remove j q [] a = ground arith
  get-remove j q ((k, v) ∷ m) a = ground (
    arith,
    get-remove j q m a.1,
    get-Below k m a.0,
    o.eq_of_cmp q k,
    o.eq_of_cmp j k,
    o.eq_of_cmp j q,
    o.cmp_refl q,
    o.cmp_refl k,
  )
