-- ===== src/Index/TagStore/Scores.antt =====
-- The lists that a `TagStore` of `crates/index/src/tag_store.rs` keeps beside its members.
use mimisbrunnr.Base.{
  ◌≡◌, refl, ap, ◌∙◌, false, not, ◌&&◌, ◌||◌, List, [], ◌∷◌, ◌++◌, ◌==◌, ==_iff, keep, elem,
  Bool-cases, inl, inr, arith,
}
use mimisbrunnr.Base.Int.{ℤ, ltb_ℤ}
use mimisbrunnr.Types.ObjectId.{ObjectId}
use mimisbrunnr.Index.TagStore.{Ranked, place, sort_by_score}

-- The objects of the scored entries.
abbrev pub oids_of : Ranked → List ObjectId
oids_of [] = []
oids_of (r ∷ rs) = r.0 ∷ oids_of rs

-- No score is below one behind it.
abbrev pub AtLeast : ℤ → Ranked → Type 0
AtLeast a [] = Unit {0}
AtLeast a (q ∷ qs) = (ltb_ℤ a q.1 ≡ false) × AtLeast a qs

abbrev pub Descends : Ranked → Type 0
Descends [] = Unit {0}
Descends (r ∷ rs) = AtLeast r.1 rs × Descends rs

AtLeast-trans : (a c : ℤ) (rs : Ranked) → ltb_ℤ a c ≡ false → AtLeast c rs → AtLeast a rs
AtLeast-trans a c [] h k = tt
AtLeast-trans a c (q ∷ qs) h k = (ground (arith, h, k.0), AtLeast-trans a c qs h k.1)

AtLeast-place :
    (a : ℤ) (r : ObjectId × ℤ) (rs : Ranked)
    → ltb_ℤ a r.1 ≡ false
    → AtLeast a rs
    → AtLeast a (place r rs)
unfolding place
AtLeast-place a r [] h k = (h, tt)
AtLeast-place a r (q ∷ qs) h k = elim (Bool-cases (ltb_ℤ r.1 q.1)) [
  | inl later ↦ rw (later, place) (k.0, AtLeast-place a r qs h k.1)
  | inr here ↦ rw (here, place) (h, k)
]

Descends-place : (r : ObjectId × ℤ) (rs : Ranked) → Descends rs → Descends (place r rs)
unfolding place
Descends-place r [] d = (tt, tt)
Descends-place r (q ∷ qs) d = elim (Bool-cases (ltb_ℤ r.1 q.1)) [
  | inl later ↦
      rw (later, place)
        (AtLeast-place q.1 r qs (ground (arith, later)) d.0, Descends-place r qs d.1)
  | inr here ↦ rw (here, place) ((here, AtLeast-trans r.1 q.1 qs here d.0), d)
]

pub Descends-sort : (rs : Ranked) → Descends (sort_by_score rs)
unfolding sort_by_score
Descends-sort [] = tt
Descends-sort (r ∷ rs) = Descends-place r (sort_by_score rs) (Descends-sort rs)

elem-place :
    (x : ObjectId) (r : ObjectId × ℤ) (rs : Ranked)
    → elem x (oids_of (place r rs)) ≡ (x == r.0 || elem x (oids_of rs))
unfolding place elem
elem-place x r [] = refl
elem-place x r (q ∷ qs) = ground (arith, elem-place x r qs)

pub elem-sort :
    (x : ObjectId) (rs : Ranked) → elem x (oids_of (sort_by_score rs)) ≡ elem x (oids_of rs)
unfolding sort_by_score elem
elem-sort x [] = refl
elem-sort x (r ∷ rs) = elem-place x r (sort_by_score rs) ∙ ap (λ c. x == r.0 || c) (elem-sort x rs)

pub elem-snoc :
    (x : ObjectId) (rs : Ranked) (r : ObjectId × ℤ)
    → elem x (oids_of (rs ++ (r ∷ []))) ≡ (elem x (oids_of rs) || x == r.0)
unfolding elem
elem-snoc x [] r = ground arith
elem-snoc x (q ∷ qs) r = ground (arith, elem-snoc x qs r)

pub elem-keep :
    (x o : ObjectId) (xs : List ObjectId)
    → elem x (keep (λ y. not (y == o)) xs) ≡ (elem x xs && not (x == o))
unfolding elem keep
elem-keep x o [] = refl
elem-keep x o (y ∷ ys) = elim (Bool-cases (x == y)) [
  | inl same ↦ let e : x ≡ y = (==_iff x y).0 same in ground (arith, e, elem-keep x o ys)
  | inr other ↦ ground (arith, other, elem-keep x o ys)
]

pub elem-keep_ranked :
    (x o : ObjectId) (rs : Ranked)
    → elem x (oids_of (keep (λ r. not (r.0 == o)) rs)) ≡ (elem x (oids_of rs) && not (x == o))
unfolding elem keep
elem-keep_ranked x o [] = refl
elem-keep_ranked x o (r ∷ rs) = elim (Bool-cases (x == r.0)) [
  | inl same ↦ let e : x ≡ r.0 = (==_iff x r.0).0 same in ground (arith, e, elem-keep_ranked x o rs)
  | inr other ↦ ground (arith, other, elem-keep_ranked x o rs)
]

AtLeast-keep :
    (a : ℤ) (o : ObjectId) (rs : Ranked) → AtLeast a rs → AtLeast a (keep (λ r. not (r.0 == o)) rs)
unfolding keep
AtLeast-keep a o [] k = tt
AtLeast-keep a o (q ∷ qs) k = elim (Bool-cases (not (q.0 == o))) [
  | inl stays ↦ rw (stays, keep) (k.0, AtLeast-keep a o qs k.1)
  | inr goes ↦ rw (goes, keep) (AtLeast-keep a o qs k.1)
]

pub Descends-keep :
    (o : ObjectId) (rs : Ranked) → Descends rs → Descends (keep (λ r. not (r.0 == o)) rs)
unfolding keep
Descends-keep o [] d = tt
Descends-keep o (q ∷ qs) d = elim (Bool-cases (not (q.0 == o))) [
  | inl stays ↦ rw (stays, keep) (AtLeast-keep q.1 o qs d.0, Descends-keep o qs d.1)
  | inr goes ↦ rw (goes, keep) (Descends-keep o qs d.1)
]
