-- ===== src/Query/Execute/Sorted.antt =====
-- Which objects a sorted query finds, and in which order.
use isar_core.Prelude.{ℕ, ◌≡◌, refl, sym, ap, ◌∙◌, ◌⊎◌, inl, inr, arith, Ordering, is_le}
use isar_core.Prelude.{
  Bool, true, not, ◌&&◌, ◌||◌, ◌==◌, if◌then◌else◌, some, List, [], ◌∷◌, take, drop, All,
  Bool-cases,
}
use mathlib.Core.List.{Perm}
use mathlib.Core.Path.{subst}
use isar_core.Error.{Result, ok, err, panic, ◌>>=◌, >>=-eq-ok, map_ok}
use isar_core.Object.ObjectInfo.{Property}
use isar_core.Object.IsarObject.{IsarObject}
use isar_core.Object.IsarObject.Compare.{compare_property}
use isar_core.Query.Sort.{Sort, compare_objects, directed}
use isar_core.Query.Execute.{contains, execute_raw, push, find_sorted, add_distinct_sorted}
use isar_core.Query.Execute.Window.{wanted, concatenated, for_each-push}
use isar_core.Query.Execute.Found.{execute_raw-wanted}

-- A hash that was seen is not that of an object with a new hash.
seen_elsewhere :
    (seen : List ℕ) (a b : ℕ)
    → contains seen b ≡ true
    → (not (a == b) && not (contains seen a)) ≡ not (contains seen a)
seen_elsewhere seen a b h = elim (Bool-cases (a == b)) [
  | inl y ↦
      let same : a ≡ b = ground (arith, y) in
      rw (y, subst (λ n. contains seen n ≡ true) (sym same) h) refl
  | inr n ↦ rw n refl
]

not_either : (a b : ℕ) (c : Bool) → (not (a == b) && not c) ≡ not ((b == a) || c)
not_either a b c = ground arith

module _ {A : Type 0} where
  unfoldable keep : (A → Bool) → List A → List A
  keep test [] = []
  keep test (x ∷ xs) = if test x then x ∷ keep test xs else keep test xs

  -- Each object, without the later ones that have its hash.
  unfoldable pub without_duplicates : (A → ℕ) → List A → List A
  unfolding keep
  without_duplicates hash [] = []
  without_duplicates hash (x ∷ xs) =
      x ∷ keep (λ y. not (hash y == hash x)) (without_duplicates hash xs)

  keep-keep :
      (f g r : A → Bool) (xs : List A)
      → ((x : A) → (g x && f x) ≡ r x)
      → keep f (keep g xs) ≡ keep r xs
  unfolding keep
  keep-keep f g r [] same = refl
  keep-keep f g r (x ∷ xs) same = elim (Bool-cases (g x)) [
    | inl y ↦ rw (y, ← same x, y) (ap (λ l. if f x then x ∷ l else l) (keep-keep f g r xs same))
    | inr n ↦ rw (n, ← same x, n) (keep-keep f g r xs same)
  ]

  add_distinct_sorted-keep :
      (hash : A → ℕ) (seen : List ℕ) (xs : List A)
      → add_distinct_sorted hash seen xs
        ≡ keep (λ y. not (contains seen (hash y))) (without_duplicates hash xs)
  unfolding add_distinct_sorted keep without_duplicates
  add_distinct_sorted-keep hash seen [] = refl
  add_distinct_sorted-keep hash seen (x ∷ xs) = elim (Bool-cases (contains seen (hash x))) [
    | inl old ↦ rw old (
        add_distinct_sorted-keep hash seen xs
        ∙ sym (
            keep-keep (λ y. not (contains seen (hash y))) (λ y. not (hash y == hash x))
              (λ y. not (contains seen (hash y))) (without_duplicates hash xs)
              (λ y. seen_elsewhere seen (hash y) (hash x) old)))
    | inr new ↦ rw new (
        ap (λ l. x ∷ l)
          (add_distinct_sorted-keep hash (hash x ∷ seen) xs
            ∙ sym (
                keep-keep (λ y. not (contains seen (hash y))) (λ y. not (hash y == hash x))
                  (λ y. not (contains (hash x ∷ seen) (hash y))) (without_duplicates hash xs)
                  (λ y. not_either (hash y) (hash x) (contains seen (hash y))))))
  ]

  keep-all : (xs : List A) → keep (λ y. true) xs ≡ xs
  unfolding keep
  keep-all [] = refl
  keep-all (x ∷ xs) = ap (λ l. x ∷ l) (keep-all xs)

-- What the standard library documents of `sort_unstable_by` at one call: the result is a reordering of the
-- list in which nothing is greater than what is behind it.
abbrev pub AtMost : (IsarObject → IsarObject → Result Ordering) → IsarObject → IsarObject → Type 0
AtMost cmp a b = (ord : Ordering) × (cmp a b ≡ ok ord) × (is_le ord ≡ true)

abbrev pub InOrder : (IsarObject → IsarObject → Type 0) → List IsarObject → Type 0
InOrder R [] = Unit {0}
InOrder R (x ∷ xs) = All (R x) xs × InOrder R xs

abbrev pub Sorts :
    ((IsarObject → IsarObject → Result Ordering) → List IsarObject → Result (List IsarObject))
    → (IsarObject → IsarObject → Result Ordering)
    → List IsarObject
    → Type 0
Sorts sort_unstable_by cmp xs =
    (ys : List IsarObject) × (sort_unstable_by cmp xs ≡ ok ys)
    × Perm ys xs
    × InOrder (AtMost cmp) ys

-- The first property in which two objects differ has them in its direction, if there is one.
abbrev pub NotAfter : List (Property × Sort) → IsarObject → IsarObject → Type 0
NotAfter [] a b = Unit {0}
NotAfter ((p, Sort.ascending) ∷ sort) a b =
    (compare_property a b p ≡ ok Ordering.lt)
    ⊎ ((compare_property a b p ≡ ok Ordering.eq) × NotAfter sort a b)
NotAfter ((p, Sort.descending) ∷ sort) a b =
    (compare_property a b p ≡ ok Ordering.gt)
    ⊎ ((compare_property a b p ≡ ok Ordering.eq) × NotAfter sort a b)

abbrev towards : Sort → Ordering
towards Sort.ascending = Ordering.lt
towards Sort.descending = Ordering.gt

-- One property of the comparator: it decides, or leaves it to the rest.
decided :
    (s : Sort) (o : Ordering) {rest : Result Ordering} {ord : Ordering}
    → (elim o [
      | Ordering.eq ↦ rest
      | Ordering.lt ↦ ok (directed s Ordering.lt)
      | Ordering.gt ↦ ok (directed s Ordering.gt)
    ])
      ≡ ok ord
    → is_le ord ≡ true
    → (o ≡ towards s) ⊎ ((o ≡ Ordering.eq) × (rest ≡ ok ord))
unfolding directed
decided s Ordering.eq h le = inr (refl, h)
decided Sort.ascending Ordering.lt h le = inl refl
decided Sort.descending Ordering.gt h le = inl refl
decided Sort.ascending Ordering.gt h le = absurd (cc)
decided Sort.descending Ordering.lt h le = absurd (cc)

compare_objects-NotAfter :
    (sort : List (Property × Sort)) (a b : IsarObject)
    → AtMost (compare_objects sort) a b
    → NotAfter sort a b
unfolding compare_objects
compare_objects-NotAfter [] a b h = tt
compare_objects-NotAfter ((p, Sort.ascending) ∷ sort) a b (ord, e, le) =
    let (o, e₁, rest) = >>=-eq-ok (compare_property a b p) e in
    elim (decided Sort.ascending o rest le) [
      | inl first ↦ inl (e₁ ∙ ap ok first)
      | inr later ↦ inr (e₁ ∙ ap ok (later.0), compare_objects-NotAfter sort a b (ord, later.1, le))
    ]
compare_objects-NotAfter ((p, Sort.descending) ∷ sort) a b (ord, e, le) =
    let (o, e₁, rest) = >>=-eq-ok (compare_property a b p) e in
    elim (decided Sort.descending o rest le) [
      | inl first ↦ inl (e₁ ∙ ap ok first)
      | inr later ↦ inr (e₁ ∙ ap ok (later.0), compare_objects-NotAfter sort a b (ord, later.1, le))
    ]

module _ {R T : IsarObject → IsarObject → Type 0} (f : (a b : IsarObject) → R a b → T a b) where
  All-map : (a : IsarObject) (xs : List IsarObject) → All (R a) xs → All (T a) xs
  All-map a [] h = tt
  All-map a (x ∷ xs) (here, later) = (f a x here, All-map a xs later)

  InOrder-map : (xs : List IsarObject) → InOrder R xs → InOrder T xs
  InOrder-map [] h = tt
  InOrder-map (x ∷ xs) (here, later) = (All-map x xs here, InOrder-map xs later)

-- What is done with the second part of a state.
second_of :
    {A B C : Type 0} (r : Result (A × B)) (f : B → Result C)
    → (r >>= λ state. f (state.1)) ≡ (map_ok (λ state. state.1) r >>= f)
second_of (ok state) f = refl
second_of (err e) f = refl
second_of panic f = refl

-- The callback of a sorted query collects what is wanted.
collected :
    (takes : IsarObject → Bool) (clauses : List (List (ℕ × IsarObject)))
    → map_ok (λ state. state.1) (execute_raw (λ object. ok (takes object)) push ([], []) clauses)
      ≡ ok (wanted takes [] (concatenated clauses))
collected takes clauses =
    execute_raw-wanted takes push [] clauses
    ∙ ap (map_ok (λ a. a.1)) (for_each-push [] (wanted takes [] (concatenated clauses)))

add_distinct_sorted-without_duplicates :
    (hash : IsarObject → ℕ) (ys : List IsarObject)
    → add_distinct_sorted hash [] ys ≡ without_duplicates hash ys
add_distinct_sorted-without_duplicates hash ys =
    add_distinct_sorted-keep hash [] ys ∙ keep-all (without_duplicates hash ys)

-- A sorted query with distinct properties reorders the objects that its where clauses yield and its filter
-- takes, each id once, so that no object comes after another that the sort properties put behind it: the
-- first property that tells the two apart does so in its direction. Of these it keeps each without the
-- later ones that have its hash of the distinct properties, and takes the window of the offset and the
-- limit from what is left. The library's `sort_unstable_by` is taken to sort this list by the comparator.
pub find_sorted-distinct :
    (sort_unstable_by : (IsarObject → IsarObject → Result Ordering)
      → List IsarObject
      → Result (List IsarObject))
    (sort : List (Property × Sort)) (hash : IsarObject → ℕ) (offset limit : ℕ)
    (takes : IsarObject → Bool) (clauses : List (List (ℕ × IsarObject)))
    → Sorts sort_unstable_by (compare_objects sort) (wanted takes [] (concatenated clauses))
    → (sorted : List IsarObject) × Perm sorted (wanted takes [] (concatenated clauses))
      × InOrder (NotAfter sort) sorted
      × (find_sorted sort_unstable_by sort
            (some hash)
            offset
            limit
            (λ object. ok (takes object))
            clauses
          ≡ ok (take limit (drop offset (without_duplicates hash sorted))))
unfolding find_sorted
find_sorted-distinct sort_unstable_by sort hash offset limit takes clauses
      (ys, sorts, perm, ordered) =
    (
      ys,
      perm,
      InOrder-map (compare_objects-NotAfter sort) ys ordered,
      second_of (execute_raw (λ object. ok (takes object)) push ([], []) clauses) rest
          ∙ ap (λ r. r >>= rest) (collected takes clauses)
          ∙ ap (λ r. r >>= λ results. ok (window (add_distinct_sorted hash [] results))) sorts
          ∙ ap (λ l. ok (window l)) (add_distinct_sorted-without_duplicates hash ys),
    )
  where
    window : List IsarObject → List IsarObject
    window results = take limit (drop offset results)

    rest : List IsarObject → Result (List IsarObject)
    rest results = do
      sorted ← sort_unstable_by (compare_objects sort) results
      ok (window (add_distinct_sorted hash [] sorted))
