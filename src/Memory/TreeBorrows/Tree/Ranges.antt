-- ===== src/Memory/TreeBorrows/Tree/Ranges.antt =====
-- tree.md: the loop of `Node::transition`, and one pass over the states.
use minirust.Prelude.{
  leb, ltb, ◌&&◌, some, some_inj, get_elem?, ℕ, zero, suc, ◌+◌, ◌≤◌, ◌≡◌, refl, sym, ◌∙◌, ap, subst,
  List, [], ◌∷◌, length, arith, Bool, true, false,
}
use minirust.Memory.Outcome.{
  Outcome, ok, panics, ◌>>=◌, >>=-eq-ok, >>=_congr, >>=_assoc, NoPanic-bind, ok_inj, NoPanic,
}
use minirust.Memory.TreeBorrows.Tree.{mutate_at, mutate_range}

abbrev pub All : {A : Type 0} → (A → Type 0) → List A → Type 0
All Good [] = Unit
All Good (x ∷ xs) = Good x × All Good xs

-- Whether an update starts at the first state, and what it is on the others.
abbrev starts : ℕ → ℕ → Bool
starts zero (suc size) = true
starts _ _ = false

abbrev next_offset : ℕ → ℕ
next_offset zero = zero
next_offset (suc offset) = offset

abbrev next_size : ℕ → ℕ → ℕ
next_size zero (suc size) = size
next_size _ size = size

-- Whether an update reaches a state
abbrev pub touches : ℕ → ℕ → ℕ → Bool
touches offset size l = leb offset l && ltb l (offset + size)

touches-zero : (o n : ℕ) → touches o n 0 ≡ starts o n
touches-zero zero zero = refl
touches-zero zero (suc n) = ground arith
touches-zero (suc o) n = ground arith

touches-suc : (o n l : ℕ) → touches o n (suc l) ≡ touches (next_offset o) (next_size o n) l
touches-suc zero zero l = ground arith
touches-suc zero (suc n) l = ground arith
touches-suc (suc o) n l = ground arith

module _ {A : Type 0} where
  -- The states from `offset` on, `size` many of them
  unfoldable pub update : ℕ → ℕ → (A → Outcome A) → List A → Outcome (List A)
  update zero zero f xs = ok xs
  update zero (suc size) f [] = panics
  update zero (suc size) f (x ∷ xs) = do y ← f x; ys ← update zero size f xs; ok (y ∷ ys)
  update (suc offset) zero f xs = ok xs
  update (suc offset) (suc size) f [] = panics
  update (suc offset) (suc size) f (x ∷ xs) = do ys ← update offset (suc size) f xs; ok (x ∷ ys)

  -- The loop passes over the first state.
  mutate_range-suc :
      (size offset : ℕ) (f : A → Outcome A) (x : A) (xs : List A)
      → mutate_range size (suc offset) f (x ∷ xs)
        ≡ (mutate_range size offset f xs >>= λ ys. ok (x ∷ ys))
  unfolding mutate_range mutate_at
  mutate_range-suc zero offset f x xs = refl
  mutate_range-suc (suc size) offset f x xs =
      let at = mutate_at xs offset f in
      >>=_assoc at (λ ys. ok (x ∷ ys)) (mutate_range size (suc (suc offset)) f)
      ∙ >>=_congr at (λ ys. mutate_range size (suc (suc offset)) f (x ∷ ys))
          (λ ys. mutate_range size (suc offset) f ys >>= λ zs. ok (x ∷ zs))
          (λ ys. mutate_range-suc size (suc offset) f x ys)
      ∙ sym (>>=_assoc at (mutate_range size (suc offset) f) (λ zs. ok (x ∷ zs)))

  pub mutate_range_eq :
      (size offset : ℕ) (f : A → Outcome A) (xs : List A)
      → mutate_range size offset f xs ≡ update offset size f xs
  unfolding mutate_range mutate_at update
  mutate_range_eq zero zero f xs = refl
  mutate_range_eq zero (suc offset) f xs = refl
  mutate_range_eq (suc size) zero f [] = refl
  mutate_range_eq (suc size) (suc offset) f [] = refl
  mutate_range_eq (suc size) zero f (x ∷ xs) =
      >>=_assoc (f x) (λ y. ok (y ∷ xs)) (mutate_range size 1 f)
      ∙ >>=_congr (f x) (λ y. mutate_range size 1 f (y ∷ xs))
          (λ y. update 0 size f xs >>= λ ys. ok (y ∷ ys))
          (λ y.
            mutate_range-suc size 0 f y xs
            ∙ ap (λ o. o >>= λ ys. ok (y ∷ ys)) (mutate_range_eq size 0 f xs))
  mutate_range_eq (suc size) (suc offset) f (x ∷ xs) =
      mutate_range-suc (suc size) offset f x xs
      ∙ ap (λ o. o >>= λ ys. ok (x ∷ ys)) (mutate_range_eq (suc size) offset f xs)

  -- Running it again changes nothing, if that is so of each state.
  pub update-again :
      (offset size : ℕ) (f : A → Outcome A) (xs ys : List A)
      → ((x y : A) → f x ≡ ok y → f y ≡ ok y)
      → update offset size f xs ≡ ok ys
      → update offset size f ys ≡ ok ys
  unfolding update
  update-again zero zero f xs ys again h = refl
  update-again (suc offset) zero f xs ys again h = refl
  update-again zero (suc size) f [] ys again h = cc
  update-again (suc offset) (suc size) f [] ys again h = cc
  update-again zero (suc size) f (x ∷ xs) ys again h =
      let (y, e, h₁) = >>=-eq-ok (f x) _ h in
      let (zs, e₁, h₂) = >>=-eq-ok (update zero size f xs) _ h₁ in
      let rest = update-again zero size f xs zs again e₁ in
      subst (λ l. update zero (suc size) f l ≡ ok l) (ok_inj h₂) (rw (again x y e, rest) refl)
  update-again (suc offset) (suc size) f (x ∷ xs) ys again h =
      let (zs, e₁, h₂) = >>=-eq-ok (update offset (suc size) f xs) _ h in
      let rest = update-again offset (suc size) f xs zs again e₁ in
      subst (λ l. update (suc offset) (suc size) f l ≡ ok l) (ok_inj h₂) (rw rest refl)

  -- The states stay as many, all with a property that the function keeps, and nothing panics.
  pub update-All :
      (Good : A → Type 0) (offset size : ℕ) (f : A → Outcome A) (xs : List A)
      → ((x : A) → Good x → NoPanic Good (f x))
      → All Good xs
      → offset + size ≤ length xs
      → NoPanic (λ ys. All Good ys × (length ys ≡ length xs)) (update offset size f xs)
  unfolding update
  update-All Good zero zero f xs keep all fits = (all, refl)
  update-All Good (suc offset) zero f xs keep all fits = (all, refl)
  update-All Good zero (suc size) f [] keep all fits = absurd (omega arith)
  update-All Good (suc offset) (suc size) f [] keep all fits = absurd (omega arith)
  update-All Good zero (suc size) f (x ∷ xs) keep (good, all) fits =
      NoPanic-bind _ _ (f x) _ (keep x good) (λ y good'.
        NoPanic-bind _ _ (update zero size f xs) _
          (update-All Good zero size f xs keep all (omega arith))
          (λ ys (all', e). ((good', all'), ap suc e)))
  update-All Good (suc offset) (suc size) f (x ∷ xs) keep (good, all) fits =
      NoPanic-bind _ _ (update offset (suc size) f xs) _
        (update-All Good offset (suc size) f xs keep all (omega arith))
        (λ ys (all', e). ((good, all'), ap suc e))

  -- What an update does to the first state, and to the others
  abbrev pub act : Bool → (A → Outcome A) → A → Outcome A
  act true f x = f x
  act false f x = ok x

  update_zero : (offset : ℕ) (f : A → Outcome A) (xs : List A) → update offset 0 f xs ≡ ok xs
  unfolding update
  update_zero zero f xs = refl
  update_zero (suc offset) f xs = refl

  update_nil :
      (offset size : ℕ) (f : A → Outcome A) (ys : List A)
      → update offset size f [] ≡ ok ys
      → [] ≡ ys
  unfolding update
  update_nil zero zero f ys h = ok_inj h
  update_nil (suc offset) zero f ys h = ok_inj h
  update_nil zero (suc size) f ys h = cc
  update_nil (suc offset) (suc size) f ys h = cc

  update_cons :
      (offset size : ℕ) (f : A → Outcome A) (x : A) (xs : List A)
      → update offset size f (x ∷ xs) ≡ (
          act (starts offset size) f x >>= λ y.
          update (next_offset offset) (next_size offset size) f xs >>= λ ys. ok (y ∷ ys))
  unfolding update
  update_cons zero zero f x xs = refl
  update_cons zero (suc size) f x xs = refl
  update_cons (suc offset) zero f x xs = rw (update_zero offset f xs) refl
  update_cons (suc offset) (suc size) f x xs = refl

  act-commute :
      (b c : Bool) (f g : A → Outcome A) (x y z : A)
      → ((x y : A) → (f x >>= g) ≡ ok y → (g x >>= f) ≡ ok y)
      → act b f x ≡ ok y
      → act c g y ≡ ok z
      → (w : A) × (act c g x ≡ ok w) × (act b f w ≡ ok z)
  act-commute true true f g x y z swap h k = >>=-eq-ok (g x) f (swap x z (ap (λ o. o >>= g) h ∙ k))
  act-commute false true f g x y z swap h k = (z, ap g (ok_inj h) ∙ k, refl)
  act-commute true false f g x y z swap h k = (x, refl, h ∙ k)
  act-commute false false f g x y z swap h k = (x, refl, h ∙ k)

  -- Two updates that commute at each state commute.
  pub update-commute :
      (o n o' n' : ℕ) (f g : A → Outcome A) (xs ys zs : List A)
      → ((x y : A) → (f x >>= g) ≡ ok y → (g x >>= f) ≡ ok y)
      → update o n f xs ≡ ok ys
      → update o' n' g ys ≡ ok zs
      → (ws : List A) × (update o' n' g xs ≡ ok ws) × (update o n f ws ≡ ok zs)
  update-commute o n o' n' f g [] ys zs swap h k =
      let e = update_nil o n f ys h in
      let k' = subst (λ l. update o' n' g l ≡ ok zs) (sym e) k in
      let e' = update_nil o' n' g zs k' in
      (
        [],
        subst (λ l. update o' n' g [] ≡ ok l) (sym e') k',
        subst (λ l. update o n f [] ≡ ok l) (sym e ∙ e') h,
      )
  update-commute o n o' n' f g (x ∷ xs) ys zs swap h k =
      let (y, e₁, h₁) = >>=-eq-ok (act (starts o n) f x) _ (sym (update_cons o n f x xs) ∙ h) in
      let (ys', e₂, h₂) = >>=-eq-ok (update (next_offset o) (next_size o n) f xs) _ h₁ in
      let k₀ = ap (update o' n' g) (ok_inj h₂) ∙ k in
      let (z, e₃, k₁) =
        >>=-eq-ok (act (starts o' n') g y) _ (sym (update_cons o' n' g y ys') ∙ k₀) in
      let (zs', e₄, k₂) = >>=-eq-ok (update (next_offset o') (next_size o' n') g ys') _ k₁ in
      let (w, a₁, a₂) = act-commute (starts o n) (starts o' n') f g x y z swap e₁ e₃ in
      let (ws, r₁, r₂) =
        update-commute (next_offset o) (next_size o n) (next_offset o') (next_size o' n') f g xs ys'
          zs' swap e₂ e₄ in
      (w ∷ ws, update_cons o' n' g x xs ∙ rw (a₁, r₁) refl, update_cons o n f w ws ∙ rw (a₂, r₂) k₂)

  -- What an update does to one state
  pub get_elem?-update :
      (o n : ℕ) (f : A → Outcome A) (xs ys : List A) (l : ℕ) (x : A)
      → update o n f xs ≡ ok ys
      → get_elem? xs l ≡ some x
      → (y : A) × (act (touches o n l) f x ≡ ok y) × (get_elem? ys l ≡ some y)
  get_elem?-update o n f [] ys l x h e = cc
  get_elem?-update o n f (z ∷ xs) ys zero x h e =
      let (y, e₁, h₁) = >>=-eq-ok (act (starts o n) f z) _ (sym (update_cons o n f z xs) ∙ h) in
      let (zs, _, h₂) = >>=-eq-ok (update (next_offset o) (next_size o n) f xs) _ h₁ in
      (
        y,
        rw (touches-zero o n, ← some_inj e) e₁,
        subst (λ l. get_elem? l zero ≡ some y) (ok_inj h₂) refl,
      )
  get_elem?-update o n f (z ∷ xs) ys (suc l) x h e =
      let (y, e₁, h₁) = >>=-eq-ok (act (starts o n) f z) _ (sym (update_cons o n f z xs) ∙ h) in
      let (zs, e₂, h₂) = >>=-eq-ok (update (next_offset o) (next_size o n) f xs) _ h₁ in
      let (w, a, b) = get_elem?-update (next_offset o) (next_size o n) f xs zs l x e₂ e in
      (w, rw (touches-suc o n l) a, subst (λ l'. get_elem? l' (suc l) ≡ some w) (ok_inj h₂) b)
