-- ===== src/Paths.antt =====
-- `filepath.Join` of the standard library, on Unix, as helpers.go, controllers.go, logging.go and
-- security.go use it: two parts are joined and the result is cleaned.
use web_based_jobs_worker_se.Base.{
  ℕ, ◌≡◌, refl, ap, Bool, true, false, not, ◌&&◌, ◌||◌, List, [], ◌∷◌, ◌++◌, arith, Text, text_eq,
  codes, nat_beq, if◌then◌else◌,
}

abbrev dot : Text
dot = b'.' ∷ []

abbrev dots : Text
dots = b'.' ∷ b'.' ∷ []

abbrev slash : Text
slash = b'/' ∷ []

prepend : ℕ → List Text → List Text
prepend c [] = (c ∷ []) ∷ []
prepend c (e ∷ es) = (c ∷ e) ∷ es

-- What stands between the slashes.
elements : Text → List Text
unfolding prepend
elements [] = [] ∷ []
elements (c ∷ s) = let rest = elements s in if nat_beq c b'/' then [] ∷ rest else prepend c rest

-- An element `..` takes the element before it away.
up : Bool → List Text → List Text
up rooted [] = if rooted then [] else dots ∷ []
up rooted (e ∷ kept) = if text_eq e dots then dots ∷ e ∷ kept else kept

-- An element, behind those that are kept, the last one first.
push : Bool → List Text → Text → List Text
unfolding up
push rooted kept e =
    if text_eq e [] || text_eq e dot
    then kept
    else if text_eq e dots
    then up rooted kept
    else e ∷ kept

collapse : Bool → List Text → List Text → List Text
unfolding push
collapse rooted kept [] = kept
collapse rooted kept (e ∷ es) = collapse rooted (push rooted kept e) es

-- The path ahead of a further element.
before : Bool → List Text → Text
before rooted [] = if rooted then slash else []
before rooted (e ∷ kept) = before rooted kept ++ (e ++ slash)

render : Bool → List Text → Text
unfolding before
render rooted [] = if rooted then slash else dot
render rooted (e ∷ kept) = before rooted kept ++ e

is_rooted : Text → Bool
is_rooted [] = false
is_rooted (c ∷ s) = nat_beq c b'/'

-- `filepath.Clean`.
unfoldable pub clean : Text → Text
unfolding elements collapse render is_rooted
clean s = render (is_rooted s) (collapse (is_rooted s) [] (elements s))

-- `filepath.Join` of two parts, of which empty ones are left out at the front.
unfoldable pub join_path : Text → Text → Text
unfolding clean
join_path [] [] = []
join_path [] (c ∷ name) = clean (c ∷ name)
join_path (c ∷ parent) name = clean ((c ∷ parent) ++ (slash ++ name))

has_slash : Text → Bool
has_slash [] = false
has_slash (c ∷ s) = nat_beq c b'/' || has_slash s

-- A name that cleaning leaves as it is.
unfoldable pub is_name : Text → Bool
unfolding has_slash
is_name s = not (has_slash s) && not (text_eq s [] || (text_eq s dot || text_eq s dots))

elements-plain : (s : Text) → has_slash s ≡ false → elements s ≡ s ∷ []
unfolding elements has_slash
elements-plain [] h = refl
elements-plain (c ∷ s) h = ground (arith, elements-plain s)

elements_cons : (s : Text) → (e : Text) × (es : List Text) × (elements s ≡ e ∷ es)
unfolding elements
elements_cons [] = ([], [], refl)
elements_cons (c ∷ s) =
    let (e, es, h) = elements_cons s in
    (
      if nat_beq c b'/' then [] else c ∷ e,
      if nat_beq c b'/' then elements s else es,
      ground (arith, h),
    )

prepend-append :
    (c : ℕ) (l : List Text) (e : Text) (es more : List Text)
    → l ≡ e ∷ es
    → prepend c (l ++ more) ≡ prepend c l ++ more
unfolding prepend
prepend-append c l e es more h = rw h refl

elements-join :
    (p name : Text)
    → has_slash name ≡ false
    → elements (p ++ (slash ++ name)) ≡ elements p ++ name ∷ []
unfolding elements
elements-join [] name h = ap (λ l. [] ∷ l) (elements-plain name h)
elements-join (c ∷ p) name h =
    let (e, es, k) = elements_cons p in
    rw (elements-join p name h) (ground (arith, prepend-append c (elements p) e es (name ∷ []) k))

collapse-append :
    (r : Bool) (kept es : List Text) (name : Text)
    → collapse r kept (es ++ name ∷ []) ≡ push r (collapse r kept es) name
unfolding collapse
collapse-append r kept [] name = refl
collapse-append r kept (e ∷ es) name = collapse-append r (push r kept e) es name

push-name :
    (r : Bool) (kept : List Text) (name : Text)
    → is_name name ≡ true
    → push r kept name ≡ name ∷ kept
unfolding push is_name
push-name r kept name h = ground arith

no_slash : (name : Text) → is_name name ≡ true → has_slash name ≡ false
unfolding is_name
no_slash name h = ground arith

-- What stands ahead of a name in a folder.
pub lead : Text → Text
lead [] = []
lead (c ∷ p) = before (is_rooted (c ∷ p)) (collapse (is_rooted (c ∷ p)) [] (elements (c ∷ p)))

rooted_not : (c : ℕ) (name : Text) → is_name (c ∷ name) ≡ true → nat_beq c b'/' ≡ false
unfolding is_name has_slash
rooted_not c name h = ground arith

clean-name : (name : Text) → is_name name ≡ true → clean name ≡ name
unfolding clean render before collapse is_rooted is_name has_slash text_eq
clean-name [] h = ground arith
clean-name (c ∷ name) h =
    rw (elements-plain (c ∷ name) (no_slash (c ∷ name) h))
      (rw (rooted_not c name h) (rw (push-name false [] (c ∷ name) h) refl))

pub join_path-name :
    (parent name : Text) → is_name name ≡ true → join_path parent name ≡ lead parent ++ name
unfolding join_path clean lead render is_rooted
join_path-name [] [] h = refl
join_path-name [] (c ∷ name) h = clean-name (c ∷ name) h
join_path-name (c ∷ p) name h =
    let r = is_rooted (c ∷ p) in
    rw (elements-join (c ∷ p) name (no_slash name h)) (
      rw (collapse-append r [] (elements (c ∷ p)) name)
        (rw (push-name r (collapse r [] (elements (c ∷ p))) name h) refl))

-- Cleaning at work.
joined_relative : join_path (codes "./outputs") (codes "a.txt") ≡ codes "outputs/a.txt"
unfolding join_path text_eq
joined_relative = refl

joined_up : join_path (codes "/var//log/../tmp/") (codes "x") ≡ codes "/var/tmp/x"
unfolding join_path text_eq
joined_up = refl
