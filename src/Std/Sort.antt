-- ===== src/Std/Sort.antt =====
-- `std::sort`: the result is a permutation of the input in which no item stands behind one that it
-- goes before. The order of items of which neither goes before the other is left open there, and
-- no theorem rests on it; insertion decides it here.
use mathlib.Core.List.{Perm}
use mathlib.Core.List.Perm
use bettercpu.Base.{◌≡◌, inl, inr, Bool, true, false, List, [], ◌∷◌, All, if◌then◌else◌, Bool-cases}

module _ {A : Type 0} (before : A → A → Bool) where
  unfoldable pub insert : A → List A → List A
  insert a [] = a ∷ []
  insert a (b ∷ xs) = if before b a then b ∷ insert a xs else a ∷ b ∷ xs

  unfoldable pub sort : List A → List A
  unfolding insert
  sort [] = []
  sort (a ∷ xs) = insert a (sort xs)

  insert-perm : (a : A) (xs : List A) → Perm (insert a xs) (a ∷ xs)
  unfolding insert
  insert-perm a [] = Perm.refl _
  insert-perm a (b ∷ xs) = elim (Bool-cases (before b a)) [
    | inl e ↦ rw e (Perm.trans (Perm.cons b (insert-perm a xs)) (Perm.swap a b xs))
    | inr e ↦ rw e (Perm.refl _)
  ]

  pub sort-perm : (xs : List A) → Perm (sort xs) xs
  unfolding sort
  sort-perm [] = Perm.refl _
  sort-perm (a ∷ xs) = Perm.trans (insert-perm a (sort xs)) (Perm.cons a (sort-perm xs))

  -- Nothing in the list goes before `a`.
  abbrev pub Leads : A → List A → Type 0
  Leads a = All (λ b. before b a ≡ false)

  abbrev pub IsSorted : List A → Type 0
  IsSorted [] = Unit
  IsSorted (a ∷ xs) = Leads a xs × IsSorted xs

  -- What `std::sort` asks of its comparison: a strict order whose ties are transitive.
  pub record IsStrictOrder : Type 0 where
    pub asym : (a b : A) → before a b ≡ true → before b a ≡ false
    pub trans : (a b c : A) → before b a ≡ false → before c b ≡ false → before c a ≡ false

  module _ (o : IsStrictOrder) where
    Leads-insert : (a b : A) (xs : List A) → before a b ≡ false → Leads b xs → Leads b (insert a xs)
    unfolding insert
    Leads-insert a b [] h k = (h, tt)
    Leads-insert a b (c ∷ xs) h k = elim (Bool-cases (before c a)) [
      | inl e ↦ rw e (k.0, Leads-insert a b xs h k.1)
      | inr e ↦ rw e (h, k)
    ]

    Leads-weaken : (a b : A) (xs : List A) → before b a ≡ false → Leads b xs → Leads a xs
    Leads-weaken a b [] h k = tt
    Leads-weaken a b (c ∷ xs) h k = (o.trans a b c h k.0, Leads-weaken a b xs h k.1)

    insert-IsSorted : (a : A) (xs : List A) → IsSorted xs → IsSorted (insert a xs)
    unfolding insert
    insert-IsSorted a [] h = (tt, tt)
    insert-IsSorted a (b ∷ xs) h = elim (Bool-cases (before b a)) [
      | inl e ↦ rw e (Leads-insert a b xs (o.asym b a e) h.0, insert-IsSorted a xs h.1)
      | inr e ↦ rw e ((e, Leads-weaken a b xs e h.0), h)
    ]

    pub sort-IsSorted : (xs : List A) → IsSorted (sort xs)
    unfolding sort
    sort-IsSorted [] = tt
    sort-IsSorted (a ∷ xs) = insert-IsSorted a (sort xs) (sort-IsSorted xs)
