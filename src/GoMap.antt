-- ===== src/GoMap.antt =====
-- Go's built-in map, as an association list without repeated keys: the job table
-- `globalJobsResults` (worker.go) and the set of ids in `removeDuplicateJobIds` (helpers.go).
use web_based_jobs_worker_se.Base.{
  ◌≡◌, refl, ap, ◌↔◌, true, inl, inr, Bool, false, ◌||◌, List, [], ◌∷◌, Option, none, some, arith,
  Eq, ◌==◌, if◌then◌else◌, Bool-cases,
}

module _ {ℓ κ} {K : Type ℓ} {V : Type κ} ⦃e : Eq K⦄ where
  -- `v, exist := m[k]`.
  unfoldable pub lookup : K → List (K × V) → Option V
  lookup key [] = none
  lookup key ((stored, value) ∷ rest) = if stored == key then some value else lookup key rest

  -- `m[k] = v`.
  unfoldable pub insert : K → V → List (K × V) → List (K × V)
  insert key value [] = (key, value) ∷ []
  insert key value ((stored, old) ∷ rest) =
      if stored == key then (stored, value) ∷ rest else (stored, old) ∷ insert key value rest

  -- `delete(m, k)`.
  unfoldable pub erase : K → List (K × V) → List (K × V)
  erase key [] = []
  erase key ((stored, old) ∷ rest) =
      if stored == key then erase key rest else (stored, old) ∷ erase key rest

  pub lookup-insert :
      (key sought : K) (value : V) (entries : List (K × V))
      → lookup sought (insert key value entries)
        ≡ (if key == sought then some value else lookup sought entries)
  unfolding lookup insert
  lookup-insert key sought value [] = refl
  lookup-insert key sought value ((stored, old) ∷ rest) = ground (
    arith,
    e.same_iff key sought,
    e.same_iff stored key,
    e.same_iff stored sought,
    lookup-insert key sought value rest,
  )

  pub lookup-erase :
      (k j : K) (m : List (K × V)) → lookup j (erase k m) ≡ (if k == j then none else lookup j m)
  unfolding lookup erase
  lookup-erase k j [] = elim (Bool-cases (k == j)) [ inl h ↦ rw h | inr h ↦ rw h ]
  lookup-erase k j ((i, w) ∷ m) =
      ground (arith, e.same_iff k j, e.same_iff i k, e.same_iff i j, lookup-erase k j m)

abbrev pub keys {ℓ κ} : {K : Type ℓ} {V : Type κ} → List (K × V) → List K
keys [] = []
keys ((k, v) ∷ m) = k ∷ keys m

module _ {ℓ} {K : Type ℓ} ⦃e : Eq K⦄ where
  unfoldable pub contains : K → List K → Bool
  contains k [] = false
  contains k (j ∷ l) = j == k || contains k l

  -- No key stands twice.
  abbrev pub IsNodup : List K → Type 0
  IsNodup [] = Unit
  IsNodup (k ∷ l) = (contains k l ≡ false) × IsNodup l

  -- The order in which `range` visits the keys of a map: each of them, once.
  pub record IsRangeOrder (order : List K → List K) : Type ℓ where
    pub same : (k : K) (l : List K) → contains k (order l) ≡ contains k l
    pub once : (l : List K) → IsNodup l → IsNodup (order l)

  pub contains-nil : (k : K) → contains k [] ≡ false
  unfolding contains
  contains-nil k = refl

  pub contains-cons_self : (k : K) (l : List K) → contains k (k ∷ l) ≡ true
  unfolding contains
  contains-cons_self k l = ground (arith, e.same_iff k k)

  -- Only the empty list has no member.
  pub eq-nil_of_contains : (l : List K) → ((k : K) → contains k l ≡ false) → l ≡ []
  eq-nil_of_contains [] h = refl
  eq-nil_of_contains (k ∷ l) h = absurd (cc (h k, contains-cons_self k l))

  -- A list with one member, without repetition.
  pub eq-singleton :
      (k : K) (l : List K) → ((j : K) → contains j l ≡ contains j (k ∷ [])) → IsNodup l → l ≡ k ∷ []
  unfolding contains
  eq-singleton k [] same once = absurd (ground (arith, same k, e.same_iff k k))
  eq-singleton k (x ∷ []) same once = ground (arith, same x, e.same_iff x x, e.same_iff k x)
  eq-singleton k (x ∷ y ∷ l) same once = absurd (
      ground (
        arith,
        same x,
        same y,
        e.same_iff x x,
        e.same_iff y y,
        e.same_iff k x,
        e.same_iff k y,
        e.same_iff y x,
      ))

  pub contains-subst : (j k : K) (l : List K) → (j == k) ≡ true → contains j l ≡ contains k l
  contains-subst j k l h = ap (λ x. contains x l) ((e.same_iff j k).0 h)

module _ {ℓ κ} {K : Type ℓ} {V : Type κ} ⦃e : Eq K⦄ where
  pub contains-keys-insert :
      (j k : K) (v : V) (m : List (K × V))
      → contains j (keys (insert k v m)) ≡ (k == j || contains j (keys m))
  unfolding insert contains
  contains-keys-insert j k v [] = refl
  contains-keys-insert j k v ((i, w) ∷ m) =
      ground (arith, e.same_iff k j, e.same_iff i k, e.same_iff i j, contains-keys-insert j k v m)

  pub keys-insert-IsNodup :
      (k : K) (v : V) (m : List (K × V)) → IsNodup (keys m) → IsNodup (keys (insert k v m))
  unfolding insert contains
  keys-insert-IsNodup k v [] h = (refl, tt)
  keys-insert-IsNodup k v ((i, w) ∷ m) h = ground (
    arith,
    e.same_iff k i,
    e.same_iff i k,
    contains-keys-insert i k v m,
    keys-insert-IsNodup k v m,
  )

  pub contains-keys-lookup :
      (k : K) (m : List (K × V)) → (contains k (keys m) ≡ false) ↔ (lookup k m ≡ none)
  unfolding lookup contains
  contains-keys-lookup k [] = (λ _. refl, λ _. refl)
  contains-keys-lookup k ((i, w) ∷ m) =
      let ih = contains-keys-lookup k m in
      elim (Bool-cases (i == k)) [
        | inl h ↦ rw h (λ x. absurd (cc), λ x. absurd (cc))
        | inr h ↦ rw h ih
      ]

  -- A key that leads to a value is one of the keys.
  pub contains-keys :
      (k : K) (m : List (K × V)) {v : V} → lookup k m ≡ some v → contains k (keys m) ≡ true
  contains-keys k m found = ground (arith, contains-keys-lookup k m)
