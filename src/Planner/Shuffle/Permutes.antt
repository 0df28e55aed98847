-- ===== src/Planner/Shuffle/Permutes.antt =====
-- The shuffle of packages/core/src/planner/shuffle.ts only moves the items.
use verif_ai.Common.{
  ℕ, zero, suc, ◌+◌, ◌-◌, ◌*◌, ◌/◌, ◌≤◌, ◌<◌, ◌≡◌, refl, Option, none, some, List, [], ◌∷◌, length,
  get_elem?, arith, ◌∙◌, ap,
}
use verif_ai.Common.{Text}
use verif_ai.Planner.Shuffle.{word, mulberry32, set_elem, swap, shuffle_from, seeded_shuffle}

-- What the items of a list weigh together. With the weight 1 for one item and 0 for the others, it
-- counts that item.
abbrev pub total {ℓ} : {A : Type ℓ} → (A → ℕ) → List A → ℕ
total weight [] = 0
total weight (x ∷ xs) = weight x + total weight xs

random_lt : (state : ℕ) → (mulberry32 state).1 < word
unfolding mulberry32
random_lt state = omega arith

-- `other` is at most `index`, so both are indices of the list.
other-le : (random index : ℕ) → random < word → random * suc index / word ≤ index
other-le random index h = grind arith

module _ {A : Type 0} (weight : A → ℕ) where
  total-set_elem :
      (xs : List A) (i : ℕ) (old new : A)
      → get_elem? xs i ≡ some old
      → total weight (set_elem xs i new) + weight old ≡ total weight xs + weight new
  total-set_elem [] i old new h = absurd (ground arith)
  total-set_elem (x ∷ xs) zero old new h =
      let same : weight x ≡ weight old = ap (λ o. elim o [ none ↦ 0 | some y ↦ weight y ]) h in
      omega arith
  total-set_elem (x ∷ xs) (suc i) old new h = omega (arith, total-set_elem xs i old new h)

  -- The moved item is still found where it was.
  get_elem?-set_elem :
      (xs : List A) (i j : ℕ) (moved : A)
      → get_elem? xs j ≡ some moved
      → get_elem? (set_elem xs i moved) j ≡ some moved
  get_elem?-set_elem [] i j moved h = h
  get_elem?-set_elem (x ∷ xs) zero zero moved h = refl
  get_elem?-set_elem (x ∷ xs) zero (suc j) moved h = h
  get_elem?-set_elem (x ∷ xs) (suc i) zero moved h = h
  get_elem?-set_elem (x ∷ xs) (suc i) (suc j) moved h = get_elem?-set_elem xs i j moved h

  length-set_elem : (xs : List A) (i : ℕ) (a : A) → length (set_elem xs i a) ≡ length xs
  length-set_elem [] i a = refl
  length-set_elem (x ∷ xs) zero a = refl
  length-set_elem (x ∷ xs) (suc i) a = omega (arith, length-set_elem xs i a)

  get_elem?-some : (xs : List A) (i : ℕ) → i < length xs → (a : A) × (get_elem? xs i ≡ some a)
  get_elem?-some [] i h = absurd (omega arith)
  get_elem?-some (x ∷ xs) zero h = (x, refl)
  get_elem?-some (x ∷ xs) (suc i) h = get_elem?-some xs i (omega arith)

-- A list holds the items of another: as many, and of the same weight by every weight.
pub record Permutes {A : Type 0} (xs ys : List A) : Type 0 where
  pub long : length ys ≡ length xs
  pub heavy : (weight : A → ℕ) → total weight ys ≡ total weight xs

abbrev pub Shuffles : {A : Type 0} → List A → Option (List A) → Type 0
Shuffles {A} xs result = (ys : List A) × (result ≡ some ys) × Permutes xs ys

module _ {A : Type 0} where
  -- Two places of a list are exchanged, where it has them.
  swap-Shuffles :
      (xs : List A) (i j : ℕ) → i < length xs → j < length xs → Shuffles xs (swap xs i j)
  unfolding swap
  swap-Shuffles xs i j h k =
      let (held, e) = get_elem?-some (λ a. 0) xs i h in
      let (moved, f) = get_elem?-some (λ a. 0) xs j k in
      (
        set_elem (set_elem xs i moved) j held,
        rw (e, f) refl,
        record {
          long =
              length-set_elem (λ a. 0) (set_elem xs i moved) j held
              ∙ length-set_elem (λ a. 0) xs i moved;
          heavy = λ weight. omega (
            arith,
            total-set_elem weight xs i held moved e,
            total-set_elem weight (set_elem xs i moved) j moved held
                (get_elem?-set_elem weight xs i j moved f),
          );
        },
      )

  Shuffles-trans :
      (xs ys : List A) (result : Option (List A))
      → Permutes xs ys
      → Shuffles ys result
      → Shuffles xs result
  Shuffles-trans xs ys result p (zs, e, q) =
      (zs, e, record { long = q.long ∙ p.long; heavy = λ weight. q.heavy weight ∙ p.heavy weight })

  -- Each index of the loop is one of the list.
  shuffle_from-Shuffles :
      (state index : ℕ) (xs : List A)
      → index ≤ length xs - 1
      → Shuffles xs (shuffle_from state index xs)
  unfolding shuffle_from
  shuffle_from-Shuffles state zero xs h = (xs, refl, record { long = refl; heavy = λ weight. refl })
  shuffle_from-Shuffles state (suc i) xs h =
      let random = (mulberry32 state).1 in
      let other = random * suc (suc i) / word in
      let within = other-le random (suc i) (random_lt state) in
      let (swapped, e, p) = swap-Shuffles xs (suc i) other (omega arith) (omega arith) in
      rw (e, shuffle_from)
        (Shuffles-trans xs swapped _ p
          (shuffle_from-Shuffles ((mulberry32 state).0) i swapped (omega (arith, p.long))))

  pub seeded_shuffle-Shuffles :
      (items : List A) (seed : Text) → Shuffles items (seeded_shuffle items seed)
  unfolding seeded_shuffle
  seeded_shuffle-Shuffles items seed =
      shuffle_from-Shuffles _ (length items - 1) items (omega arith)

-- The shuffle is a permutation of the items, whatever the seed: it writes no undefined, and for every
-- weight of the items, the shuffled list weighs what the list does, so it holds every item as often,
-- and is as long.
pub total-seeded_shuffle :
    {A : Type 0} (weight : A → ℕ) (items : List A) (seed : Text)
    → (shuffled : List A) × (seeded_shuffle items seed ≡ some shuffled)
      × (total weight shuffled ≡ total weight items)
      × (length shuffled ≡ length items)
total-seeded_shuffle weight items seed =
    let (shuffled, e, p) = seeded_shuffle-Shuffles items seed in
    (shuffled, e, p.heavy weight, p.long)
