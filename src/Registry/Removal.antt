-- ===== src/Registry/Removal.antt =====
-- RRegistry/include/RRegistry/Registry.hpp: `removeAdapter` and `removeReceiver`. Both call the
-- algorithm of the C++ library that moves the elements to keep to the front, and neither erases what
-- stands behind them.
use mathlib.Core.List.{append-nil}
use rbase.Base.{
  ℕ, ◌≡◌, refl, ap, ◌∙◌, Bool, true, false, Option, none, some, List, [], ◌∷◌, ◌++◌, map, drop,
  length, ◌==◌, if◌then◌else◌, arith, Option-cases, ==_iff, ==_refl, leb, inl, inr, Bool-cases,
}
use rbase.Base.Assoc.{find}
use rbase.Adapter.{Adapter}
use rbase.Registry.{World}

module _ {A : Type 0} (hit : A → Bool) where
  -- The elements that are kept.
  pub kept : List A → List A
  kept [] = []
  kept (x ∷ xs) = if hit x then kept xs else x ∷ kept xs

  -- What the algorithm leaves in the vector: `left` gives what is left in a place whose element has
  -- been moved.
  pub remove_if : (A → A) → List A → List A
  unfolding kept
  remove_if left xs = kept xs ++ drop (length (kept xs)) (map (λ x. if hit x then x else left x) xs)

-- `lock.get() == adapter`, for the adapter number `r`.
unfoldable pub points_to : {B : Type 0} → ℕ → List (ℕ × Adapter B) → Option ℕ → Bool
points_to r live none = false
points_to r live (some q) = elim (find q live) [ none ↦ false | some a ↦ q == r ]

module _ {B S : Type 0} where
  -- `removeAdapter`; a weak pointer that has moved is empty.
  pub remove_adapter : ℕ → World B S → World B S
  unfolding remove_if points_to
  remove_adapter r w = record w {
    adapter_refs = remove_if (points_to r w.adapters) (λ q. none) w.adapter_refs;
  }

  -- `removeReceiver`; a raw pointer is copied.
  pub remove_receiver : ℕ → World B S → World B S
  unfolding remove_if
  remove_receiver r w = record w { receivers = remove_if (λ q. q == r) (λ q. q) w.receivers }

module _ {A : Type 0} where
  -- The last element, or `a` if there is none.
  abbrev pub last_or : A → List A → A
  last_or a [] = a
  last_or a (x ∷ xs) = last_or x xs

  -- No element is hit.
  abbrev pub NoneHit : (A → Bool) → List A → Type 0
  NoneHit hit [] = Unit {0}
  NoneHit hit (x ∷ xs) = (hit x ≡ false) × NoneHit hit xs

  drop-last_or :
      (f : A → A) (ys zs : List A) (a : A)
      → drop (length (ys ++ zs)) (map f ys ++ a ∷ map f zs) ≡ last_or a (map f zs) ∷ []
  drop-last_or f [] [] a = refl
  drop-last_or f [] (z ∷ zs) a = drop-last_or f [] zs (f z)
  drop-last_or f (y ∷ ys) zs a = drop-last_or f ys zs a

  drop-length : (f : A → A) (xs : List A) → drop (length xs) (map f xs) ≡ []
  drop-length f [] = refl
  drop-length f (x ∷ xs) = drop-length f xs

module _ {A : Type 0} (hit : A → Bool) (left : A → A) where
  abbrev leaves : A → A
  leaves x = if hit x then x else left x

  kept-NoneHit : (xs : List A) → NoneHit hit xs → kept hit xs ≡ xs
  unfolding kept
  kept-NoneHit [] h = refl
  kept-NoneHit (x ∷ xs) h = rw h.0 (ap (◌∷◌ x) (kept-NoneHit xs h.1))

  kept-once :
      (ys zs : List A) (a : A)
      → NoneHit hit ys
      → hit a ≡ true
      → NoneHit hit zs
      → kept hit (ys ++ a ∷ zs) ≡ ys ++ zs
  unfolding kept
  kept-once [] zs a h e k = rw e (kept-NoneHit zs k)
  kept-once (y ∷ ys) zs a h e k = rw h.0 (ap (◌∷◌ y) (kept-once ys zs a h.1 e k))

  map-NoneHit : (xs : List A) → NoneHit hit xs → map leaves xs ≡ map left xs
  map-NoneHit [] h = refl
  map-NoneHit (x ∷ xs) h = rw h.0 (ap (◌∷◌ (left x)) (map-NoneHit xs h.1))

  map-once :
      (ys zs : List A) (a : A)
      → NoneHit hit ys
      → hit a ≡ true
      → NoneHit hit zs
      → map leaves (ys ++ a ∷ zs) ≡ map left ys ++ a ∷ map left zs
  map-once [] zs a h e k = rw e (ap (◌∷◌ a) (map-NoneHit zs k))
  map-once (y ∷ ys) zs a h e k = rw h.0 (ap (◌∷◌ (left y)) (map-once ys zs a h.1 e k))

  remove_if-NoneHit : (xs : List A) → NoneHit hit xs → remove_if hit left xs ≡ xs
  unfolding remove_if
  remove_if-NoneHit xs h =
      rw (kept-NoneHit xs h) (ap (◌++◌ xs) (drop-length leaves xs) ∙ append-nil xs)

  remove_if-once :
      (ys zs : List A) (a : A)
      → NoneHit hit ys
      → hit a ≡ true
      → NoneHit hit zs
      → remove_if hit left (ys ++ a ∷ zs) ≡ (ys ++ zs) ++ last_or a (map left zs) ∷ []
  unfolding remove_if
  remove_if-once ys zs a h e k =
      rw (kept-once ys zs a h e k, map-once ys zs a h e k)
        (ap (◌++◌ (ys ++ zs)) (drop-last_or left ys zs a))

map_id : (xs : List ℕ) → map (λ q. q) xs ≡ xs
map_id [] = refl
map_id (x ∷ xs) = ap (◌∷◌ x) (map_id xs)

last_empty :
    (zs : List (Option ℕ)) (q : Option ℕ)
    → last_or q (map (λ _. none) zs) ≡ (if leb 1 (length zs) then none else q)
last_empty [] q = refl
last_empty (z ∷ []) q = refl
last_empty (z ∷ y ∷ zs) q = last_empty (y ∷ zs) none ∙ ground arith

-- No receiver of the list is `r`.
abbrev pub Others : ℕ → List ℕ → Type 0
Others r = NoneHit (λ q. q == r)

module _ {B : Type 0} where
  dead_other :
      (r q : ℕ) (live : List (ℕ × Adapter B))
      → find r live ≡ none
      → points_to r live (some q) ≡ false
  unfolding points_to
  dead_other r q live dead = elim (Option-cases (find q live)) [
    | inl e ↦ rw (e, points_to) refl
    | inr (a, e) ↦
        rw (e, points_to)
          (elim (Bool-cases (q == r)) [
            | inl f ↦ cc (ap (λ k. find k live) ((==_iff q r).0 f), e, dead)
            | inr f ↦ f
          ])
  ]

  points_to_dead :
      (r : ℕ) (live : List (ℕ × Adapter B)) (refs : List (Option ℕ))
      → find r live ≡ none
      → NoneHit (points_to r live) refs
  unfolding points_to
  points_to_dead r live [] dead = tt
  points_to_dead r live (none ∷ refs) dead = (refl, points_to_dead r live refs dead)
  points_to_dead r live (some q ∷ refs) dead =
      (dead_other r q live dead, points_to_dead r live refs dead)

  points_to_self :
      (r : ℕ) (live : List (ℕ × Adapter B)) {a : Adapter B}
      → find r live ≡ some a
      → points_to r live (some r) ≡ true
  unfolding points_to
  points_to_self r live e = rw (e, points_to) (==_refl r)

module _ {B S : Type 0} where
  -- A receiver that is registered once, with the receivers `ys` before it and `zs` behind it: after
  -- `removeReceiver` the registry has as many receivers as before. It is gone if another stands
  -- behind it, and the last of them is then there twice; if it is the last, it is still there.
  pub remove_receiver-once :
      (w : World B S) (r : ℕ) (ys zs : List ℕ)
      → w.receivers ≡ ys ++ r ∷ zs
      → Others r ys
      → Others r zs
      → (remove_receiver r w).receivers ≡ (ys ++ zs) ++ last_or r zs ∷ []
  unfolding remove_receiver
  remove_receiver-once w r ys zs e h k = rw e (
      remove_if-once (λ q. q == r) (λ q. q) ys zs r h (==_refl r) k
      ∙ ap (λ l. (ys ++ zs) ++ last_or r l ∷ []) (map_id zs))

  -- `removeAdapter` of an adapter whose weak pointers have expired, as the destructor of
  -- `LiteCommAdapter` calls it, leaves the pointers as they were.
  pub remove_adapter_expired :
      (w : World B S) (r : ℕ) → find r w.adapters ≡ none → remove_adapter r w ≡ w
  unfolding remove_adapter
  remove_adapter_expired w r dead =
      ap (λ refs. record w { adapter_refs = refs })
        (remove_if-NoneHit (points_to r w.adapters) (λ q. none) w.adapter_refs
          (points_to_dead r w.adapters w.adapter_refs dead))

  -- An adapter that exists and is registered once: `removeAdapter` moves the pointers behind its own
  -- one place to the front and leaves an empty pointer at the end; but if its pointer is the last,
  -- it stays registered.
  pub remove_adapter-once :
      (w : World B S) (r : ℕ) (a : Adapter B) (ys zs : List (Option ℕ))
      → find r w.adapters ≡ some a
      → w.adapter_refs ≡ ys ++ some r ∷ zs
      → NoneHit (points_to r w.adapters) ys
      → NoneHit (points_to r w.adapters) zs
      → (remove_adapter r w).adapter_refs
        ≡ (ys ++ zs) ++ (if leb 1 (length zs) then none else some r) ∷ []
  unfolding remove_adapter
  remove_adapter-once w r a ys zs live e h k = rw e (
      remove_if-once (points_to r w.adapters) (λ q. none) ys zs (some r) h
        (points_to_self r w.adapters live) k
      ∙ ap (λ q. (ys ++ zs) ++ q ∷ []) (last_empty zs (some r)))
