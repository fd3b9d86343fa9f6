-- ===== src/Base/Members.antt =====
-- Membership and distinctness by recursion, and the pigeonhole principle that loops over visited
-- keys rest on.
use Prim.Native.Nat.{◌≤◌}
use mathlib.Core.Path.{◌≡◌, refl, sym, ap, subst, ◌∙◌}
use mathlib.Core.Logic.{◌⊎◌, inl, inr}
use mathlib.Core.List.{List, [], ◌∷◌, ◌++◌, map}
use native.Mathlib.Omega.{arith}
use tictick_hi.Base.Lists.{length, length-append, All}

abbrev pub In : {A : Type 0} → A → List A → Type 0
In a [] = ⊥
In a (x ∷ xs) = (a ≡ x) ⊎ In a xs

abbrev pub Distinct : {A : Type 0} → List A → Type 0
Distinct [] = Unit
Distinct (x ∷ xs) = (¬ In x xs) × Distinct xs

abbrev pub Subset : {A : Type 0} → List A → List A → Type 0
Subset {A} xs ys = (a : A) → In a xs → In a ys

module _ {A : Type 0} where
  pub In-append_left : (a : A) (xs ys : List A) → In a xs → In a (xs ++ ys)
  In-append_left a [] ys h = absurd h
  In-append_left a (x ∷ xs) ys (inl e) = inl e
  In-append_left a (x ∷ xs) ys (inr h) = inr (In-append_left a xs ys h)

  pub In-append_right : (a : A) (xs ys : List A) → In a ys → In a (xs ++ ys)
  In-append_right a [] ys h = h
  In-append_right a (x ∷ xs) ys h = inr (In-append_right a xs ys h)

  pub In-append : (a : A) (xs ys : List A) → In a (xs ++ ys) → In a xs ⊎ In a ys
  In-append a [] ys h = inr h
  In-append a (x ∷ xs) ys (inl e) = inl (inl e)
  In-append a (x ∷ xs) ys (inr h) = elim (In-append a xs ys h) [
    | inl l ↦ inl (inr l)
    | inr r ↦ inr r
  ]

  -- A member, with what stands before and after it.
  split_at_member :
      (a : A) (ys : List A)
      → In a ys
      → (before : List A) × (after : List A) × (ys ≡ before ++ a ∷ after)
  split_at_member a [] h = absurd h
  split_at_member a (y ∷ ys) (inl e) = ([], ys, ap (λ b. b ∷ ys) (sym e))
  split_at_member a (y ∷ ys) (inr h) =
      let (before, after, e) = split_at_member a ys h in (y ∷ before, after, ap (λ l. y ∷ l) e)

  In-other :
      (b a : A) (before after : List A)
      → In b (before ++ a ∷ after)
      → ¬ (b ≡ a)
      → In b (before ++ after)
  In-other b a before after h other = elim (In-append b before (a ∷ after) h) [
    | inl l ↦ In-append_left b before after l
    | inr (inl e) ↦ absurd (other e)
    | inr (inr r) ↦ In-append_right b before after r
  ]

  -- Distinct members of a list are no more than its length.
  pub length-le_of_Distinct : (xs ys : List A) → Distinct xs → Subset xs ys → length xs ≤ length ys
  length-le_of_Distinct [] ys d s = omega arith
  length-le_of_Distinct (x ∷ xs) ys d s =
      let (before, after, e) = split_at_member x ys (s x (inl refl)) in
      let shorter : Subset xs (before ++ after) = λ b h.
        In-other b x before after (subst (λ l. In b l) e (s b (inr h)))
          (λ same. d.0 (subst (λ c. In c xs) same h)) in
      omega (
        arith,
        length-le_of_Distinct xs (before ++ after) d.1 shorter,
        ap length e,
        length-append before (x ∷ after),
        length-append before after,
      )

  -- As many distinct members as the list is long are all its members.
  pub In_of_full :
      (dec : Discrete A) (xs ys : List A)
      → Distinct xs
      → Subset xs ys
      → length ys ≤ length xs
      → Subset ys xs
  In_of_full dec xs ys d s full a h = elim (dec_in a xs) [
    | inl found ↦ found
    | inr missing ↦
        let more : length (a ∷ xs) ≤ length ys =
          length-le_of_Distinct (a ∷ xs) ys (missing, d) (with_member a h) in
        absurd (omega arith)
  ]
    where
      dec_in : (b : A) (zs : List A) → In b zs ⊎ (¬ In b zs)
      dec_in b [] = inr (λ k. k)
      dec_in b (z ∷ zs) = elim (dec b z) [
        | yes e ↦ inl (inl e)
        | no n ↦ elim (dec_in b zs) [
          | inl k ↦ inl (inr k)
          | inr m ↦ inr (λ k. elim k [ inl e ↦ n e | inr r ↦ m r ])
        ]
      ]

      with_member : (b : A) → In b ys → Subset (b ∷ xs) ys
      with_member b k c (inl e) = subst (λ v. In v ys) (sym e) k
      with_member b k c (inr r) = s c r

  pub Distinct-append :
      (xs ys : List A)
      → Distinct xs
      → Distinct ys
      → ((a : A) → In a xs → ¬ In a ys)
      → Distinct (xs ++ ys)
  Distinct-append [] ys d k apart = k
  Distinct-append (x ∷ xs) ys d k apart = (
    λ h. elim (In-append x xs ys h) [ inl l ↦ d.0 l | inr r ↦ apart x (inl refl) r ],
    Distinct-append xs ys d.1 k (λ a h. apart a (inr h)),
  )

module _ {A B : Type 0} where
  pub In-map : (f : A → B) (a : A) (xs : List A) → In a xs → In (f a) (map f xs)
  In-map f a [] h = absurd h
  In-map f a (x ∷ xs) (inl e) = inl (ap f e)
  In-map f a (x ∷ xs) (inr h) = inr (In-map f a xs h)

  pub In-map_inverse :
      (f : A → B) (b : B) (xs : List A) → In b (map f xs) → (a : A) × In a xs × (b ≡ f a)
  In-map_inverse f b [] h = absurd h
  In-map_inverse f b (x ∷ xs) (inl e) = (x, inl refl, e)
  In-map_inverse f b (x ∷ xs) (inr h) = let (a, k, e) = In-map_inverse f b xs h in (a, inr k, e)

  -- Where the keys are distinct, a member is known by its key.
  pub eq_of_key :
      (f : A → B) (a b : A) (xs : List A)
      → Distinct (map f xs)
      → In a xs
      → In b xs
      → f a ≡ f b
      → a ≡ b
  eq_of_key f a b [] d h k e = absurd h
  eq_of_key f a b (x ∷ xs) d (inl p) (inl q) e = p ∙ sym q
  eq_of_key f a b (x ∷ xs) d (inl p) (inr k) e =
      absurd (d.0 (subst (λ v. In v (map f xs)) (sym e ∙ ap f p) (In-map f b xs k)))
  eq_of_key f a b (x ∷ xs) d (inr h) (inl q) e =
      absurd (d.0 (subst (λ v. In v (map f xs)) (e ∙ ap f q) (In-map f a xs h)))
  eq_of_key f a b (x ∷ xs) d (inr h) (inr k) e = eq_of_key f a b xs d.1 h k e

module _ {κ} {A : Type 0} (P : A → Type κ) where
  pub All_of_In : (xs : List A) → ((a : A) → In a xs → P a) → All P xs
  All_of_In [] h = tt
  All_of_In (x ∷ xs) h = (h x (inl refl), All_of_In xs (λ a i. h a (inr i)))

  pub In_of_All : (xs : List A) (a : A) → All P xs → In a xs → P a
  In_of_All [] a h i = absurd i
  In_of_All (x ∷ xs) a h (inl e) = subst P (sym e) h.0
  In_of_All (x ∷ xs) a h (inr i) = In_of_All xs a h.1 i

pub Distinct-map : {A B : Type 0} (f : A → B) (xs : List A) → Distinct (map f xs) → Distinct xs
Distinct-map f [] d = tt
Distinct-map f (x ∷ xs) d = (λ i. d.0 (In-map f x xs i), Distinct-map f xs d.1)
