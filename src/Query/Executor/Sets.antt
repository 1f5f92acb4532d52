-- ===== src/Query/Executor/Sets.antt =====
-- What the set operations of `crates/query/src/executor.rs` find.
use mimisbrunnr.Base.{
  ℕ, ◌≡◌, refl, ap, ap₂, ◌∙◌, Bool, true, false, not, ◌&&◌, ◌||◌, List, [], ◌∷◌, Option, none, some,
  Option-cases, ◌==◌, inl, inr, arith,
}
use mimisbrunnr.Types.ObjectId.{ObjectId, TagId}
use mimisbrunnr.Types.Assertion.{Assertion}
use mimisbrunnr.Index.Bitmap.{Bitmap}
use mimisbrunnr.Query.Executor.{
  Eval, value, failed, panicked, Indexes, ◌>>=◌, oid_low32, has, is_related, place, sort_by_len,
  rotated, meet, meet_sorted, join, eval_has_tag, add_object, scan_objects, eval_related, isa_loop,
  universe_loop, universe,
}

-- Some object of the forward index with an assertion that passes the test has the local sequence `i`.
module _ (p : Assertion → Bool) (i : ℕ) where
  abbrev pub states : List Assertion → Bool
  states [] = false
  states (a ∷ stated) = p a || states stated

  abbrev pub is_local : Option ℕ → Bool
  is_local none = false
  is_local (some j) = i == j

  abbrev pub stated_of : List (ObjectId × List Assertion) → Bool
  stated_of [] = false
  stated_of ((id, stated) ∷ objects) =
      (states stated && is_local (oid_low32 id)) || stated_of objects

pub >>=-eq-value {ℓ κ} :
    {A : Type ℓ} {B : Type κ} (m : Eval A) (f : A → Eval B) {r : B}
    → (m >>= f) ≡ value r
    → (a : A) × (m ≡ value a) × (f a ≡ value r)
>>=-eq-value (value a) f h = (a, refl, h)
>>=-eq-value (failed e) f h = cc
>>=-eq-value panicked f h = cc

pub of_value {ℓ} : {A : Type ℓ} {s t : A} → value s ≡ value t → s ≡ t
of_value h = cc

module _ (b : Bitmap) where
  abbrev pub all_hold : ℕ → List b.Set → Bool
  all_hold i [] = true
  all_hold i (s ∷ ss) = b.contains i s && all_hold i ss

  abbrev pub some_hold : ℕ → List b.Set → Bool
  some_hold i [] = false
  some_hold i (s ∷ ss) = b.contains i s || some_hold i ss

  pub all_hold-place :
      (i : ℕ) (s : b.Set) (ss : List b.Set)
      → all_hold i (place b s ss) ≡ (b.contains i s && all_hold i ss)
  unfolding place
  all_hold-place i s [] = refl
  all_hold-place i s (t ∷ ss) = ground (arith, all_hold-place i s ss)

  pub all_hold-sort : (i : ℕ) (ss : List b.Set) → all_hold i (sort_by_len b ss) ≡ all_hold i ss
  unfolding sort_by_len
  all_hold-sort i [] = refl
  all_hold-sort i (s ∷ ss) =
      all_hold-place i s (sort_by_len b ss) ∙ ap (λ r. b.contains i s && r) (all_hold-sort i ss)

  pub all_hold-rotated : (i : ℕ) (ss : List b.Set) → all_hold i (rotated b ss) ≡ all_hold i ss
  unfolding rotated
  all_hold-rotated i [] = refl
  all_hold-rotated i (s ∷ ss) = turned (rotated b ss) (all_hold-rotated i ss)
    where
      turned :
          (r : List b.Set)
          → all_hold i r ≡ all_hold i ss
          → all_hold i (elim r [ [] ↦ s ∷ [] | last ∷ front ↦ last ∷ s ∷ front ])
            ≡ all_hold i (s ∷ ss)
      turned [] h = ground (arith, h)
      turned (last ∷ front) h = ground (arith, h)

  pub contains-meet :
      (i : ℕ) (acc : b.Set) (ss : List b.Set)
      → b.contains i (meet b acc ss) ≡ (b.contains i acc && all_hold i ss)
  unfolding meet
  contains-meet i acc [] = ground arith
  contains-meet i acc (s ∷ ss) = ground (
    arith,
    contains-meet i (b.intersect acc s) ss,
    b.contains-intersect i acc s,
    b.contains-is_empty i (b.intersect acc s),
  )

  pub contains-join :
      (i : ℕ) (acc : b.Set) (ss : List b.Set)
      → b.contains i (join b acc ss) ≡ (b.contains i acc || some_hold i ss)
  unfolding join
  contains-join i acc [] = ground arith
  contains-join i acc (s ∷ ss) =
      ground (arith, contains-join i (b.union acc s) ss, b.contains-union i acc s)

  module _ (x : Indexes b) where
    pub contains-add_object :
        (p : Assertion → Bool) (i : ℕ) (id : ObjectId) (stated : List Assertion) (acc : b.Set)
        → b.contains i (add_object b x p id stated acc)
          ≡ (b.contains i acc || (states p i stated && is_local p i (oid_low32 id)))
    unfolding add_object
    contains-add_object p i id [] acc = ground arith
    contains-add_object p i id (a ∷ stated) acc = elim (Option-cases (oid_low32 id)) [
      | inl e ↦ ground (arith, e, contains-add_object p i id stated acc)
      | inr (j, e) ↦ ground (
        arith,
        e,
        contains-add_object p i id stated acc,
        contains-add_object p i id stated (b.insert j acc),
        b.contains-insert i j acc,
      )
    ]

    pub contains-scan_objects :
        (p : Assertion → Bool) (i : ℕ) (objects : List (ObjectId × List Assertion)) (acc : b.Set)
        → b.contains i (scan_objects b x p objects acc)
          ≡ (b.contains i acc || stated_of p i objects)
    unfolding scan_objects
    contains-scan_objects p i [] acc = ground arith
    contains-scan_objects p i ((id, stated) ∷ objects) acc = ground (
      arith,
      contains-scan_objects p i objects (add_object b x p id stated acc),
      contains-add_object p i id stated acc,
    )

    pub scan_finds :
        (p : Assertion → Bool) (i : ℕ)
        → b.contains i (scan_objects b x p x.objects b.empty) ≡ stated_of p i x.objects
    scan_finds p i = ground (arith, contains-scan_objects p i x.objects b.empty, b.contains-empty i)

    -- The object has a tag from whose closure `tag` is not missing.
    abbrev pub isa_of : TagId → ℕ → List (TagId × b.Set) → Bool
    isa_of tag i [] = false
    isa_of tag i ((t, s) ∷ stores) =
        (has (x.materialise t) tag && b.contains i (eval_has_tag b x t x.stores))
        || isa_of tag i stores

    abbrev pub tagged_of : ℕ → List (TagId × b.Set) → Bool
    tagged_of i [] = false
    tagged_of i ((t, s) ∷ stores) = b.contains i s || tagged_of i stores

    pub contains-isa_loop :
        (tag : TagId) (i : ℕ) (stores : List (TagId × b.Set)) (acc : b.Set)
        → b.contains i (isa_loop b x tag stores acc) ≡ (b.contains i acc || isa_of tag i stores)
    unfolding isa_loop
    contains-isa_loop tag i [] acc = ground arith
    contains-isa_loop tag i ((t, s) ∷ stores) acc = ground (
      arith,
      contains-isa_loop tag i stores acc,
      contains-isa_loop tag i stores (b.union acc (eval_has_tag b x t x.stores)),
      b.contains-union i acc (eval_has_tag b x t x.stores),
    )

    pub contains-universe_loop :
        (i : ℕ) (stores : List (TagId × b.Set)) (acc : b.Set)
        → b.contains i (universe_loop b x stores acc) ≡ (b.contains i acc || tagged_of i stores)
    unfolding universe_loop
    contains-universe_loop i [] acc = ground arith
    contains-universe_loop i ((t, s) ∷ stores) acc =
        ground (arith, contains-universe_loop i stores (b.union acc s), b.contains-union i acc s)

    abbrev pub is_nil : List b.Set → Bool
    is_nil [] = true
    is_nil (s ∷ ss) = false

    pub place-is_nil : (s : b.Set) (ss : List b.Set) → is_nil (place b s ss) ≡ false
    unfolding place
    place-is_nil s [] = refl
    place-is_nil s (t ∷ ss) = ground arith

    pub sort-is_nil : (ss : List b.Set) → is_nil (sort_by_len b ss) ≡ is_nil ss
    unfolding sort_by_len
    sort-is_nil [] = refl
    sort-is_nil (s ∷ ss) = place-is_nil s (sort_by_len b ss)

    pub contains-meet_all :
        (i : ℕ) (r : List b.Set) → b.contains i (meet_sorted b r) ≡ (not (is_nil r) && all_hold i r)
    unfolding meet_sorted
    contains-meet_all i [] = b.contains-empty i
    contains-meet_all i (s ∷ r) =
        contains-meet i s (rotated b r) ∙ ap (λ w. b.contains i s && w) (all_hold-rotated i r)

    pub contains-meet_sorted :
        (i : ℕ) (ss : List b.Set)
        → b.contains i (meet_sorted b (sort_by_len b ss)) ≡ (not (is_nil ss) && all_hold i ss)
    contains-meet_sorted i ss =
        contains-meet_all i (sort_by_len b ss)
        ∙ ap₂ (λ u w. not u && w) (sort-is_nil ss) (all_hold-sort i ss)

    pub related_finds :
        (predicate : TagId) (target : ObjectId) (i : ℕ)
        → b.contains i (eval_related b x predicate target)
          ≡ stated_of (is_related predicate target) i x.objects
    unfolding eval_related
    related_finds predicate target i = scan_finds (is_related predicate target) i

    pub join_finds : (i : ℕ) (ss : List b.Set) → b.contains i (join b b.empty ss) ≡ some_hold i ss
    join_finds i ss = ground (arith, contains-join i b.empty ss, b.contains-empty i)

    pub universe_finds : (i : ℕ) → b.contains i (universe b x) ≡ tagged_of i x.stores
    unfolding universe
    universe_finds i = ground (arith, contains-universe_loop i x.stores b.empty, b.contains-empty i)

    pub isa_finds :
        (tag : TagId) (i : ℕ)
        → b.contains i (isa_loop b x tag x.stores b.empty) ≡ isa_of tag i x.stores
    isa_finds tag i = ground (arith, contains-isa_loop tag i x.stores b.empty, b.contains-empty i)
