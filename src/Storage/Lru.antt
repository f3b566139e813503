-- ===== src/Storage/Lru.antt =====
-- github.com/hashicorp/golang-lru, which the caches of internal/storage call: its operations with
-- their documented behaviour, over the list of entries from the oldest to the newest.
use lyrics_plus.Common.{
  ap, if◌then◌else◌, ℕ, ◌+◌, ◌≤◌, ◌<◌, ◌≡◌, refl, subst, ◌∙◌, false, length-append, Option-cases,
  Option, none, some, List, [], ◌∷◌, ◌++◌, map, length, Bool-cases, inl, inr, arith,
}
use lyrics_plus.Common.Text.{Text, text_eq, text_eq_iff}
use lyrics_plus.Common.TextMaps.{Dict, lookup, delete, lookup-delete}

module _ {ℓ} {V : Type ℓ} where
  -- `Get` makes the entry the newest.
  unfoldable pub touch : Text → Dict V → Dict V
  touch k m = elim (lookup k m) [ none ↦ m | some v ↦ delete k m ++ ((k, v) ∷ []) ]

  unfoldable pub without_oldest : Dict V → Dict V
  without_oldest [] = []
  without_oldest (e ∷ m) = m

  unfoldable pub oldest : Dict V → Option V
  oldest [] = none
  oldest ((k, v) ∷ m) = some v

  -- No key stands twice.
  abbrev pub Unique : Dict V → Type ℓ
  Unique [] = Unit
  Unique ((k, v) ∷ m) = (lookup k m ≡ none) × Unique m

pub record Lru (V : Type 0) : Type 1 where
  pub Cache : Type 0
  pub new : ℕ → Cache
  pub get : Cache → Text → Cache × Option V
  pub peek : Cache → Text → Option V
  pub remove : Cache → Text → Cache
  pub remove_oldest : Cache → Cache × Option V
  pub add : Cache → Text → V → Cache
  pub len : Cache → ℕ
  pub keys : Cache → List Text
  pub items : Cache → Dict V
  pub size : Cache → ℕ
  pub items-new : (n : ℕ) → items (new n) ≡ []
  pub size-new : (n : ℕ) → size (new n) ≡ n
  pub get-value : (c : Cache) (k : Text) → (get c k).1 ≡ lookup k (items c)
  pub get-items : (c : Cache) (k : Text) → items (get c k).0 ≡ touch k (items c)
  pub get-size : (c : Cache) (k : Text) → size (get c k).0 ≡ size c
  pub peek-value : (c : Cache) (k : Text) → peek c k ≡ lookup k (items c)
  pub remove-items : (c : Cache) (k : Text) → items (remove c k) ≡ delete k (items c)
  pub remove-size : (c : Cache) (k : Text) → size (remove c k) ≡ size c
  pub remove_oldest-items : (c : Cache) → items (remove_oldest c).0 ≡ without_oldest (items c)
  pub remove_oldest-value : (c : Cache) → (remove_oldest c).1 ≡ oldest (items c)
  pub remove_oldest-size : (c : Cache) → size (remove_oldest c).0 ≡ size c
  -- `Add` of a new key below the capacity. (It evicts the oldest entry at the capacity.)
  pub add-items :
      (c : Cache) (k : Text) (v : V)
      → lookup k (items c) ≡ none
      → length (items c) < size c
      → items (add c k v) ≡ items c ++ ((k, v) ∷ [])
  pub add-size : (c : Cache) (k : Text) (v : V) → size (add c k v) ≡ size c
  pub len-items : (c : Cache) → len c ≡ length (items c)
  pub keys-items : (c : Cache) → keys c ≡ map (λ e. e.0) (items c)

module _ {ℓ} {V : Type ℓ} where
  -- The sum of a weight over the entries.
  unfoldable pub total : (V → ℕ) → Dict V → ℕ
  total f [] = 0
  total f ((k, v) ∷ m) = f v + total f m

  pub total-append : (f : V → ℕ) (m n : Dict V) → total f (m ++ n) ≡ total f m + total f n
  unfolding total
  total-append f [] n = omega arith
  total-append f ((k, v) ∷ m) n = omega (arith, total-append f m n)

  pub delete_absent : (k : Text) (m : Dict V) → lookup k m ≡ none → delete k m ≡ m
  unfolding lookup delete
  delete_absent k [] h = refl
  delete_absent k ((j, v) ∷ m) h = elim (Bool-cases (text_eq j k)) [
    | inl e ↦ absurd (ground arith)
    | inr e ↦ rw (e, delete_absent k m (ground arith))
  ]

  pub total-delete :
      (f : V → ℕ) (k : Text) (v : V) (m : Dict V)
      → Unique m
      → lookup k m ≡ some v
      → total f (delete k m) + f v ≡ total f m
  unfolding lookup delete total
  total-delete f k v [] u h = absurd (ground arith)
  total-delete f k v ((j, w) ∷ m) u h = elim (Bool-cases (text_eq j k)) [
    | inl e ↦
        let same : w ≡ v = ground arith in
        let gone : lookup k m ≡ none =
          subst (λ (x : Text). lookup x m ≡ none) ((text_eq_iff j k).0 e) u.0 in
        rw (e, delete_absent k m gone, same) (omega arith)
    | inr e ↦ rw e (omega (arith, total-delete f k v m u.1 (ground arith)))
  ]

  pub Unique-delete : (k : Text) (m : Dict V) → Unique m → Unique (delete k m)
  unfolding delete
  Unique-delete k [] u = tt
  Unique-delete k ((j, w) ∷ m) u = elim (Bool-cases (text_eq j k)) [
    | inl e ↦ rw e (Unique-delete k m u.1)
    | inr e ↦ rw e (rw (lookup-delete k j m) (ground (arith, u.0)), Unique-delete k m u.1)
  ]

  lookup-append_none :
      (j k : Text) (v : V) (m : Dict V)
      → lookup j m ≡ none
      → text_eq k j ≡ false
      → lookup j (m ++ ((k, v) ∷ [])) ≡ none
  unfolding lookup
  lookup-append_none j k v [] h e = rw e
  lookup-append_none j k v ((i, w) ∷ m) h e = elim (Bool-cases (text_eq i j)) [
    | inl f ↦ absurd (ground arith)
    | inr f ↦ rw f (lookup-append_none j k v m (ground arith) e)
  ]

  pub lookup-append_new :
      (k : Text) (v : V) (m : Dict V) → lookup k m ≡ none → lookup k (m ++ ((k, v) ∷ [])) ≡ some v
  unfolding lookup
  lookup-append_new k v [] h = rw ((text_eq_iff k k).1 refl)
  lookup-append_new k v ((i, w) ∷ m) h = elim (Bool-cases (text_eq i k)) [
    | inl f ↦ absurd (ground arith)
    | inr f ↦ rw f (lookup-append_new k v m (ground arith))
  ]

  pub Unique-append :
      (k : Text) (v : V) (m : Dict V) → Unique m → lookup k m ≡ none → Unique (m ++ ((k, v) ∷ []))
  unfolding lookup
  Unique-append k v [] u h = (refl, tt)
  Unique-append k v ((j, w) ∷ m) u h = elim (Bool-cases (text_eq j k)) [
    | inl e ↦ absurd (ground arith)
    | inr e ↦ (
      lookup-append_none j k v m u.0 (ground (arith, text_eq_iff j k, text_eq_iff k j)),
      Unique-append k v m u.1 (ground arith),
    )
  ]

  pub lookup-delete_self : (k : Text) (m : Dict V) → lookup k (delete k m) ≡ none
  lookup-delete_self k m = rw (lookup-delete k k m, (text_eq_iff k k).1 refl)

  pub length-delete : (k : Text) (m : Dict V) → length (delete k m) ≤ length m
  unfolding delete
  length-delete k [] = omega arith
  length-delete k ((j, w) ∷ m) = ground (arith, length-delete k m)

  pub length-delete_found :
      (k : Text) (v : V) (m : Dict V) → lookup k m ≡ some v → length (delete k m) < length m
  unfolding lookup delete
  length-delete_found k v [] h = absurd (ground arith)
  length-delete_found k v ((j, w) ∷ m) h =
      ground (arith, length-delete k m, length-delete_found k v m)

  pub length-append_one : (m : Dict V) (e : Text × V) → length (m ++ (e ∷ [])) ≡ length m + 1
  length-append_one m e = length-append m (e ∷ []) ∙ omega arith

  pub touch-total : (f : V → ℕ) (k : Text) (m : Dict V) → Unique m → total f (touch k m) ≡ total f m
  unfolding touch
  touch-total f k m u = elim (Option-cases (lookup k m)) [
    | inl e ↦ rw (e, touch)
    | inr (v, e) ↦
        rw (e, touch)
          (total-append f (delete k m) ((k, v) ∷ [])
            ∙ (unfold total in omega (arith, total-delete f k v m u e)))
  ]

  pub touch-Unique : (k : Text) (m : Dict V) → Unique m → Unique (touch k m)
  unfolding touch
  touch-Unique k m u = elim (Option-cases (lookup k m)) [
    | inl e ↦ rw (e, touch) u
    | inr (v, e) ↦
        rw (e, touch)
          (Unique-append k v (delete k m) (Unique-delete k m u) (lookup-delete_self k m))
  ]

  pub length-touch : (k : Text) (m : Dict V) → length (touch k m) ≤ length m
  unfolding touch
  length-touch k m = elim (Option-cases (lookup k m)) [
    | inl e ↦ rw (e, touch) (omega arith)
    | inr (v, e) ↦
        rw (e, touch)
          (omega (arith, length-append_one (delete k m) (k, v), length-delete_found k v m e))
  ]

  pub without_oldest-Unique : (m : Dict V) → Unique m → Unique (without_oldest m)
  unfolding without_oldest
  without_oldest-Unique [] u = u
  without_oldest-Unique ((k, v) ∷ m) u = u.1

  pub lookup-touch : (k : Text) (m : Dict V) → lookup k (touch k m) ≡ lookup k m
  unfolding touch
  lookup-touch k m = elim (Option-cases (lookup k m)) [
    | inl e ↦ rw (e, touch) e
    | inr (v, e) ↦ rw (e, touch) (lookup-append_new k v (delete k m) (lookup-delete_self k m))
  ]

  pub without_oldest_absent :
      (k : Text) (m : Dict V) → lookup k m ≡ none → lookup k (without_oldest m) ≡ none
  unfolding without_oldest lookup
  without_oldest_absent k [] h = refl
  without_oldest_absent k ((j, w) ∷ m) h = elim (Bool-cases (text_eq j k)) [
    | inl e ↦ absurd (ground arith)
    | inr e ↦ ground arith
  ]

  lookup-append_other :
      (j k : Text) (v : V) (m : Dict V)
      → text_eq j k ≡ false
      → lookup k (m ++ ((j, v) ∷ [])) ≡ lookup k m
  unfolding lookup
  lookup-append_other j k v [] e = rw e
  lookup-append_other j k v ((i, w) ∷ m) e =
      ap (λ x. if text_eq i k then some w else x) (lookup-append_other j k v m e)

  pub lookup-touch_other :
      (j k : Text) (m : Dict V) → text_eq j k ≡ false → lookup k (touch j m) ≡ lookup k m
  unfolding touch
  lookup-touch_other j k m e = elim (Option-cases (lookup j m)) [
    | inl f ↦ rw (f, touch)
    | inr (v, f) ↦
        rw (f, touch) (lookup-append_other j k v (delete j m) e ∙ rw (lookup-delete j k m, e) refl)
  ]
