-- ===== src/Prelude/Dict.antt =====
-- JavaScript's `Map` with numbers as keys: its entries in the order of their first insertion.
use Prim.Native.Nat.{ℕ}
use mathlib.Core.Path.{◌≡◌, refl, sym, ap, ◌∙◌}
use mathlib.Core.Logic.{◌≢◌, ◌⊎◌, inl, inr}
use mathlib.Core.Bool.{false, true≢false}
use mathlib.Core.Option.{Option, none, some}
use mathlib.Core.List.{List, [], ◌∷◌, Memᴰ, map}
use native.Mathlib.Omega.{arith}
use neo_lloyds.Prelude.Tests.{◌==◌, if◌then◌else◌, ==_iff, Bool-cases}

abbrev pub Dict {ℓ} : Type ℓ → Type ℓ
Dict A = List (ℕ × A)

pub differ : (k i : ℕ) → k ≢ i → (k == i) ≡ false
differ k i h = elim (Bool-cases (k == i)) [ inl e ↦ absurd (h ((==_iff k i).0 e)) | inr e ↦ e ]

pub some_injective {ℓ} : {A : Type ℓ} {a b : A} → some a ≡ some b → a ≡ b
some_injective h = cc h

module _ {ℓ} {A : Type ℓ} where
  unfoldable pub get : ℕ → Dict A → Option A
  get k [] = none
  get k ((j, a) ∷ rest) = if j == k then some a else get k rest

  unfoldable pub set : ℕ → A → Dict A → Dict A
  set k a [] = (k, a) ∷ []
  set k a ((j, b) ∷ rest) = if j == k then (k, a) ∷ rest else (j, b) ∷ set k a rest

  abbrev pub values : Dict A → List A
  values d = map (λ (e : ℕ × A). e.1) d

  pub get-set-same : (k : ℕ) (a : A) (d : Dict A) → get k (set k a d) ≡ some a
  unfolding get set
  get-set-same k a [] = rw ((==_iff k k).1 refl) refl
  get-set-same k a ((j, b) ∷ rest) = elim (Bool-cases (j == k)) [
    | inl hit ↦ rw (hit, (==_iff k k).1 refl) refl
    | inr miss ↦ rw (miss, miss) (get-set-same k a rest)
  ]

  pub get-set-other : (k i : ℕ) (a : A) (d : Dict A) → k ≢ i → get i (set k a d) ≡ get i d
  unfolding get set
  get-set-other k i a [] h = rw (differ k i h) refl
  get-set-other k i a ((j, b) ∷ rest) h = elim (Bool-cases (j == k)) [
    | inl hit ↦ rw (hit, differ k i h, differ j i (λ e. h (sym ((==_iff j k).0 hit) ∙ e))) refl
    | inr miss ↦ rw (miss, get-set-other k i a rest h) refl
  ]

  pub get-values : (k : ℕ) (a : A) (d : Dict A) → get k d ≡ some a → Memᴰ a (values d)
  unfolding get
  get-values k a [] h = cc
  get-values k a ((j, b) ∷ rest) h = elim (Bool-cases (j == k)) [
    | inl hit ↦ let same : b ≡ a = ground (arith, hit) in Memᴰ.head (sym same)
    | inr miss ↦ Memᴰ.tail (get-values k a rest (ground (arith, miss)))
  ]

  -- What a lookup finds after a key was set.
  pub get-set_cases :
      (k i : ℕ) (a : A) (d : Dict A) {b : A}
      → get i (set k a d) ≡ some b
      → ((k ≡ i) × (a ≡ b)) ⊎ ((k ≢ i) × (get i d ≡ some b))
  get-set_cases k i a d {b} h = elim (Bool-cases (k == i)) [
    | inl hit ↦
        let is = (==_iff k i).0 hit in
        let found = sym (get-set-same k a d) ∙ ap (λ (j : ℕ). get j (set k a d)) is ∙ h in
        inl (is, some_injective found)
    | inr miss ↦
        let other : k ≢ i = λ e. absurd (true≢false (sym ((==_iff k i).1 e) ∙ miss)) in
        inr (other, sym (get-set-other k i a d other) ∙ h)
  ]

  -- The two together, in a form without a side condition.
  pub get-set :
      (k i : ℕ) (a : A) (d : Dict A) → get i (set k a d) ≡ (if k == i then some a else get i d)
  get-set k i a d = elim (Bool-cases (k == i)) [
    | inl hit ↦ rw (hit, sym ((==_iff k i).0 hit)) (get-set-same k a d)
    | inr miss ↦
        rw miss (get-set-other k i a d (λ e. absurd (true≢false (sym ((==_iff k i).1 e) ∙ miss))))
  ]
