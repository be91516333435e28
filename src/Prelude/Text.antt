-- ===== src/Prelude/Text.antt =====
-- A Python `str` as the list of its code points, with the `str` methods that the program calls.
use Prim.Native.Nat.{ℕ, ◌+◌}
use Prim.Native.Char.{code}
use Prim.Native.String.{String}
use mathlib.Core.Path.{◌≡◌, refl, ap, ◌∙◌}
use mathlib.Core.Logic.{◌≢◌, inl, inr}
use mathlib.Core.Bool.{Bool, true, false, ◌&&◌, ◌||◌}
use mathlib.Core.List.{List, [], ◌∷◌, ◌++◌}
use mathlib.Core.Option.{Option, none, some}
use native.Mathlib.Decide.{ℕ_discrete}
use native.Mathlib.Omega.{arith}
use svc_lb_mux.Prelude.Tests.{ltb, leb, ◌==◌, if◌then◌else◌, Bool-cases}
use svc_lb_mux.Prelude.Lists.{All, All-append, is_empty}

abbrev pub Str : Type 0
Str = List ℕ

abbrev pub codes : String → Str
codes String.[] = []
codes (String.◌∷◌ c s) = code c ∷ codes s

unfoldable pub Str-discrete : Discrete Str
unfolding ℕ_discrete
Str-discrete = hlevel ℕ_discrete

abbrev pub Lacks : ℕ → Str → Type 0
Lacks b = All (λ c. c ≢ b)

-- `str.isspace` of one character: every white space of Unicode.
abbrev pub is_space : ℕ → Bool
is_space c =
    (leb 9 c && leb c 13)
    || (leb 28 c && leb c 32)
    || c == 0x85
    || c == 0xa0
    || c == 0x1680
    || (leb 0x2000 c && leb c 0x200a)
    || c == 0x2028
    || c == 0x2029
    || c == 0x202f
    || c == 0x205f
    || c == 0x3000

abbrev pub NoSpace : Str → Type 0
NoSpace = All (λ c. is_space c ≡ false)

lstrip : Str → Str
lstrip [] = []
lstrip (c ∷ s) = let rest = lstrip s in if is_space c then rest else c ∷ s

rstrip : Str → Str
rstrip [] = []
rstrip (c ∷ s) = let rest = rstrip s in if is_empty rest && is_space c then [] else c ∷ rest

unfoldable pub strip : Str → Str
unfolding lstrip rstrip
strip s = rstrip (lstrip s)

-- `str.lower` on the letters of ASCII.
unfoldable pub lower : Str → Str
lower [] = []
lower (c ∷ s) = (if leb b'A' c && leb c b'Z' then c + 32 else c) ∷ lower s

-- `s.startswith(prefix)` together with what follows the prefix.
unfoldable pub after_prefix : Str → Str → Option Str
after_prefix [] s = some s
after_prefix (p ∷ ps) [] = none
after_prefix (p ∷ ps) (c ∷ s) = let rest = after_prefix ps s in if c == p then rest else none

-- `s.split(sep)` for a separator of one character.
unfoldable pub cons_head : ℕ → List Str → List Str
cons_head c [] = []
cons_head c (p ∷ ps) = (c ∷ p) ∷ ps

unfoldable pub split : ℕ → Str → List Str
unfolding cons_head
split sep [] = [] ∷ []
split sep (c ∷ s) = let parts = split sep s in if c == sep then [] ∷ parts else cons_head c parts

-- `sep in s` and `s.split(sep, 1)` together: what stands before and after the first `sep`.
abbrev keep : ℕ → Option (Str × Str) → Option (Str × Str)
keep c none = none
keep c (some (a, b)) = some (c ∷ a, b)

abbrev or_else : Option (Str × Str) → Option Str → Option (Str × Str)
or_else later none = later
or_else later (some rest) = some ([], rest)

unfoldable pub partition : Str → Str → Option (Str × Str)
unfolding after_prefix
partition sep [] = none
partition sep (c ∷ s) = or_else (keep c (partition sep s)) (after_prefix sep (c ∷ s))

-- `sep.join(parts)`
unfoldable pub join : Str → List Str → Str
join sep [] = []
join sep (p ∷ []) = p
join sep (p ∷ q ∷ ps) = p ++ (sep ++ join sep (q ∷ ps))

-- The order of Python strings: by code points.
unfoldable pub str_leb : Str → Str → Bool
str_leb [] t = true
str_leb (c ∷ s) [] = false
str_leb (c ∷ s) (d ∷ t) = let rest = str_leb s t in if c == d then rest else ltb c d

-- Laws.

lstrip-NoSpace : (s : Str) → NoSpace s → lstrip s ≡ s
unfolding lstrip
lstrip-NoSpace [] _ = refl
lstrip-NoSpace (c ∷ s) (h, _) = rw h

rstrip-NoSpace : (s : Str) → NoSpace s → rstrip s ≡ s
unfolding rstrip
rstrip-NoSpace [] _ = refl
rstrip-NoSpace (c ∷ s) (h, hs) = rw (rstrip-NoSpace s hs, h) (ground arith)

pub strip-NoSpace : (s : Str) → NoSpace s → strip s ≡ s
unfolding strip
strip-NoSpace s h = rw (lstrip-NoSpace s h) (rstrip-NoSpace s h)

pub strip_space : (s : Str) → strip (32 ∷ s) ≡ strip s
unfolding strip lstrip
strip_space s = refl

pub after_prefix-append : (p s : Str) → after_prefix p (p ++ s) ≡ some s
unfolding after_prefix
after_prefix-append [] s = refl
after_prefix-append (c ∷ p) s = ground (arith, after_prefix-append p s)

-- Text before the first character of the separator is found as the part before it.
pub partition-append :
    (c : ℕ) (sep p rest : Str)
    → Lacks c p
    → partition (c ∷ sep) (p ++ c ∷ (sep ++ rest)) ≡ some (p, rest)
unfolding partition
partition-append c sep [] rest _ = rw (after_prefix-append (c ∷ sep) rest)
partition-append c sep (d ∷ p) rest (h, hp) =
    rw (partition-append c sep p rest hp) (unfold after_prefix in ground arith)

pub split-Lacks : (sep : ℕ) (s : Str) → Lacks sep s → split sep s ≡ s ∷ []
unfolding split
split-Lacks sep [] _ = refl
split-Lacks sep (c ∷ s) (h, hs) = rw (split-Lacks sep s hs) (ground arith)

pub split-append :
    (sep : ℕ) (p rest : Str) → Lacks sep p → split sep (p ++ sep ∷ rest) ≡ p ∷ split sep rest
unfolding split
split-append sep [] rest _ = ground arith
split-append sep (c ∷ p) rest (h, hp) = rw (split-append sep p rest hp) (ground arith)

-- Without the first character of the separator there is no separator.
pub partition-Lacks : (c : ℕ) (sep s : Str) → Lacks c s → partition (c ∷ sep) s ≡ none
unfolding partition
partition-Lacks c sep [] _ = refl
partition-Lacks c sep (d ∷ s) (h, hs) =
    rw (partition-Lacks c sep s hs) (unfold after_prefix in ground arith)

-- Splitting a join gives the parts back, if there is a part and none holds the separator.
pub split-join :
    (sep : ℕ) (p : Str) (ps : List Str)
    → All (Lacks sep) (p ∷ ps)
    → split sep (join (sep ∷ []) (p ∷ ps)) ≡ p ∷ ps
unfolding join
split-join sep p [] (h, _) = split-Lacks sep p h
split-join sep p (q ∷ ps) (h, hs) =
    split-append sep p _ h ∙ ap (λ rest. p ∷ rest) (split-join sep q ps hs)

pub NoSpace-append : (s t : Str) → NoSpace s → NoSpace t → NoSpace (s ++ t)
NoSpace-append s t = All-append (λ c. is_space c ≡ false) s t

pub Lacks-append : (b : ℕ) (s t : Str) → Lacks b s → Lacks b t → Lacks b (s ++ t)
Lacks-append b s t = All-append (λ c. c ≢ b) s t

pub is_empty-append : (s t : Str) → is_empty s ≡ false → is_empty (s ++ t) ≡ false
is_empty-append [] t h = cc
is_empty-append (c ∷ s) t h = refl

-- Text that holds the separator somewhere is split at some place.
pub partition_found :
    (c : ℕ) (sep p rest : Str)
    → (r : Str × Str) × (partition (c ∷ sep) (p ++ c ∷ (sep ++ rest)) ≡ some r)
unfolding partition
partition_found c sep [] rest = (([], rest), rw (after_prefix-append (c ∷ sep) rest))
partition_found c sep (d ∷ p) rest =
    let (r, found) = partition_found c sep p rest in
    by_prefix (after_prefix (c ∷ sep) (d ∷ (p ++ c ∷ (sep ++ rest)))) r found
  where
    by_prefix :
        (o : Option Str) (r : Str × Str)
        → partition (c ∷ sep) (p ++ c ∷ (sep ++ rest)) ≡ some r
        → (r' : Str × Str) × (or_else (keep d (partition (c ∷ sep) (p ++ c ∷ (sep ++ rest)))) o
            ≡ some r')
    by_prefix none (a, b) found = ((d ∷ a, b), rw found)
    by_prefix (some s) r found = (([], s), refl)

some-injective : {A : Type 0} {x y : A} → some x ≡ some y → x ≡ y
some-injective h = cc

-- What follows a prefix stands behind it.
after_prefix-some : (p s rest : Str) → after_prefix p s ≡ some rest → s ≡ p ++ rest
unfolding after_prefix
after_prefix-some [] s rest h = some-injective h
after_prefix-some (p ∷ ps) [] rest h = cc
after_prefix-some (p ∷ ps) (c ∷ s) rest h = elim (Bool-cases (c == p)) [
  | inl same ↦
      let at : c ≡ p = ground arith in
      rw at (ap (λ t. p ∷ t) (after_prefix-some ps s rest (rw same at h)))
  | inr other ↦ absurd (none_some (rw other at h))
]
  where
    none_some : {r : Str} → none ≢ some r
    none_some h = cc

-- The halves of a text stand around the separator.
pub partition-some :
    (sep s before after : Str)
    → partition sep s ≡ some (before, after)
    → s ≡ before ++ (sep ++ after)
unfolding partition
partition-some sep [] before after h = cc
partition-some sep (c ∷ s) before after h =
    by_prefix (after_prefix sep (c ∷ s)) (partition sep s) refl (partition-some sep s) h
  where
    by_prefix :
        (o : Option Str) (later : Option (Str × Str))
        → after_prefix sep (c ∷ s) ≡ o
        → ((a b : Str) → later ≡ some (a, b) → s ≡ a ++ (sep ++ b))
        → or_else (keep c later) o ≡ some (before, after)
        → c ∷ s ≡ before ++ (sep ++ after)
    by_prefix (some rest) later at split_at h =
        let first : [] ≡ before = ap (λ r. r.0) (some-injective h) in
        let second : rest ≡ after = ap (λ r. r.1) (some-injective h) in
        rw (← first, ← second) (after_prefix-some sep (c ∷ s) rest at)
    by_prefix none none at split_at h = cc
    by_prefix none (some (a, b)) at split_at h =
        let first : c ∷ a ≡ before = ap (λ r. r.0) (some-injective h) in
        let second : b ≡ after = ap (λ r. r.1) (some-injective h) in
        rw (← first, ← second) (ap (λ t. c ∷ t) (split_at a b refl))
