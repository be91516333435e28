-- ===== src/Muxdebug/CommandLaws.antt =====
-- What `diagnose_route_failure` of `tools/muxdebug/debugger.py` reads from the output of a command.
use svc_lb_mux.Prelude.{
  ◌≡◌, ◌≢◌, refl, sym, ap, subst, ◌∙◌, Bool, true, false, ◌&&◌, ◌||◌, not, Option, none, some, [],
  ◌∷◌, ◌++◌, inl, inr, ◌⊎◌, ◌↔◌, Str, codes, strip, lower, is_empty, partition, partition_found,
  partition-some,
}
use svc_lb_mux.Muxdebug.Client.{Completed}
use svc_lb_mux.Muxdebug.Diagnose.{is_part, is_denied, is_listening}

-- The part stands somewhere in the text.
abbrev pub Contains : Str → Str → Type 0
Contains part s = (before : Str) × (after : Str) × (s ≡ before ++ (part ++ after))

is_part-Contains : (c : _) (part s : Str) → (is_part (c ∷ part) s ≡ true) ↔ Contains (c ∷ part) s
is_part-Contains c part s = (
  (λ h. found (partition (c ∷ part) s) refl h),
  (λ (before, after, at).
      let (r, there) = partition_found c part before after in
      subst (λ t. is_part (c ∷ part) t ≡ true) (sym at)
        (ap (λ (o : Option (Str × Str)). elim o [ none ↦ false | some halves ↦ true ]) there)),
)
  where
    found :
        (o : Option (Str × Str))
        → partition (c ∷ part) s ≡ o
        → elim o [ none ↦ false | some halves ↦ true ] ≡ true
        → Contains (c ∷ part) s
    found none at h = cc
    found (some (before, after)) at h = (before, after, partition-some (c ∷ part) s before after at)

-- The command's error output says that it was not allowed.
abbrev pub Denied : Completed → Type 0
Denied r =
    Contains (codes "permission denied") (lower r.stderr)
    ⊎ Contains (codes "not permitted") (lower r.stderr)

-- The command ended with code zero and printed a line.
abbrev pub Listens : Completed → Type 0
Listens r = (r.succeeded ≡ true) × (strip r.stdout ≢ [])

pub is_denied-Denied : (r : Completed) → (is_denied r ≡ true) ↔ Denied r
is_denied-Denied r = (
  (λ h. by_first (is_part (codes "permission denied") (lower r.stderr)) refl h),
  (λ h. elim h [
    | inl first ↦ rw ((is_part-Contains _ _ (lower r.stderr)).1 first) refl
    | inr second ↦
        either (is_part (codes "permission denied") (lower r.stderr))
          ((is_part-Contains _ _ (lower r.stderr)).1 second)
  ]),
)
  where
    by_first :
        (b : Bool)
        → is_part (codes "permission denied") (lower r.stderr) ≡ b
        → (b || is_part (codes "not permitted") (lower r.stderr)) ≡ true
        → Denied r
    by_first true at h = inl ((is_part-Contains _ _ (lower r.stderr)).0 at)
    by_first false at h = inr ((is_part-Contains _ _ (lower r.stderr)).0 h)

    either : (b : Bool) {c : Bool} → c ≡ true → (b || c) ≡ true
    either true h = refl
    either false h = h

pub is_listening-Listens : (r : Completed) → (is_listening r ≡ true) ↔ Listens r
is_listening-Listens r = (
  (λ h. by_code r.succeeded (strip r.stdout) refl refl h),
  (λ (ended, printed). rw ended (solid (strip r.stdout) printed)),
)
  where
    by_code :
        (b : Bool) (out : Str)
        → r.succeeded ≡ b
        → strip r.stdout ≡ out
        → (b && not (is_empty out)) ≡ true
        → Listens r
    by_code true [] at out h = cc
    by_code true (c ∷ s) at out h = (at, λ nothing. absurd (cons_nil (sym out ∙ nothing)))
      where
        cons_nil : c ∷ s ≢ []
        cons_nil e = cc
    by_code false out at printed h = cc

    solid : (out : Str) → out ≢ [] → not (is_empty out) ≡ true
    solid [] h = absurd (h refl)
    solid (c ∷ s) h = refl
