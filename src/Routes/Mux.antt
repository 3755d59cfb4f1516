-- ===== src/Routes/Mux.antt =====
-- Which handler the multiplexer finds.
use web_based_jobs_worker_se.Base.{
  ◌≡◌, ◌≢◌, refl, inl, inr, Bool, true, false, not, ◌&&◌, List, [], ◌∷◌, none, some, arith, Text,
  text_key, ◌==◌, text_eq_iff, text_eq_refl, All, Bool-cases, Option,
}
use web_based_jobs_worker_se.GoMap.{lookup, contains, keys, IsNodup, contains-keys}
use web_based_jobs_worker_se.Http.{text}
use web_based_jobs_worker_se.Routes.{
  Handler, Mux, route, handled, not_found, longest_subtree, longer, ends_in_slash, has_prefix,
}

-- A test for `IsNodup`.
unfoldable pub is_nodup : List Text → Bool
is_nodup [] = true
is_nodup (k ∷ l) = not (contains k l) && is_nodup l

pub is_nodup_sound : (l : List Text) → is_nodup l ≡ true → IsNodup l
unfolding is_nodup
is_nodup_sound [] h = tt
is_nodup_sound (k ∷ l) h = (ground arith, is_nodup_sound l (ground arith))

All-weaken :
    (P Q : Text × Handler → Type 0) (mux : Mux)
    → ((r : Text × Handler) → P r → Q r)
    → All P mux
    → All Q mux
All-weaken P Q [] f h = tt
All-weaken P Q (r ∷ mux) f h = (f r h.0, All-weaken P Q mux f h.1)

lookup-later :
    (k : Text) (v : Handler) (mux : Mux) (r : Text × Handler)
    → contains k (keys mux) ≡ false
    → lookup r.0 mux ≡ some r.1
    → lookup r.0 ((k, v) ∷ mux) ≡ some r.1
unfolding lookup
lookup-later k v mux r new h = ground (arith, text_eq_iff k r.0, contains-keys r.0 mux h)

All-lookup : (mux : Mux) → IsNodup (keys mux) → All (λ r. lookup r.0 mux ≡ some r.1) mux
unfolding lookup
All-lookup [] h = tt
All-lookup ((k, v) ∷ mux) h = (
  rw (text_eq_refl k) refl,
  All-weaken _ _ mux (λ r found. lookup-later k v mux r h.0 found) (All-lookup mux h.1),
)

route_registered :
    (mux : Mux) (path : Text) {h : Handler} → lookup path mux ≡ some h → route mux path ≡ handled h
unfolding route
route_registered mux path found = rw (found, route) refl

-- Without a repeated pattern every pattern leads to its own handler, whatever subtrees there are.
pub All-route : (mux : Mux) → IsNodup (keys mux) → All (λ r. route mux r.0 ≡ handled r.1) mux
All-route mux h = All-weaken _ _ mux (λ r found. route_registered mux r.0 found) (All-lookup mux h)

longer-ne-none : (o : Option (Text × Handler)) (p : Text) (h : Handler) → longer o p h ≢ none
unfolding longer
longer-ne-none none p h = λ e. cc
longer-ne-none (some (q, g)) p h = ground arith

under_root :
    (s : Text) (mux : Mux) {h : Handler}
    → lookup (text "/") mux ≡ some h
    → longest_subtree (b'/' ∷ s) mux ≢ none
unfolding longest_subtree lookup text ends_in_slash has_prefix
under_root s [] found = absurd cc
under_root s ((p, g) ∷ mux) found = elim (Bool-cases (p == (b'/' ∷ []))) [
  | inl root ↦
      rw ((text_eq_iff p (b'/' ∷ [])).0 root)
        (longer-ne-none (longest_subtree (b'/' ∷ s) mux) (b'/' ∷ []) g)
  | inr other ↦ ground (
    arith,
    longer-ne-none (longest_subtree (b'/' ∷ s) mux) p g,
    under_root s mux (rw other at found),
  )
]

-- Where the root is registered, every path is answered.
pub route_under_root :
    (s : Text) (mux : Mux) {h : Handler}
    → lookup (text "/") mux ≡ some h
    → route mux (b'/' ∷ s) ≢ not_found
unfolding route
route_under_root s mux found = ground (arith, under_root s mux found)
