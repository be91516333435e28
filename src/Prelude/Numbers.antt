-- ===== src/Prelude/Numbers.antt =====
-- Python's `int`: the integers, `int(text)` and the decimal text of an integer.
use Prim.Native.Nat.{ℕ, zero, suc, ◌+◌, ◌-◌, ◌*◌, ◌/◌, ◌%◌, ◌^◌, ◌≤◌, ◌<◌}
use mathlib.Core.Logic.{◌⊎◌, inl, inr}
use mathlib.Core.Path.{◌≡◌, refl, sym, ap, ap₂, ◌∙◌}
use mathlib.Core.Bool.{Bool, true, false, ◌&&◌}
use mathlib.Core.List.{[], ◌∷◌, ◌++◌, append_assoc, append-nil}
use mathlib.Core.Option.{Option, none, some}
use native.Mathlib.Decide.{ℕ_discrete}
use native.Mathlib.Nat.{pow-suc}
use native.Mathlib.Omega.{arith}
use svc_lb_mux.Prelude.Tests.{ltb, leb, ◌==◌, if◌then◌else◌, Bool-cases}
use svc_lb_mux.Prelude.Lists.{length, length-append, All, All-append, is_empty}
use svc_lb_mux.Prelude.Text.{Str, strip, strip-NoSpace, NoSpace, Lacks, is_empty-append}

-- `negsuc n` is -(n + 1).
pub data ℤ : Type 0 where
  pos : ℕ → ℤ
  negsuc : ℕ → ℤ

unfoldable pub ℤ-discrete : Discrete ℤ
unfolding ℕ_discrete
ℤ-discrete = hlevel ℕ_discrete

-- -n
abbrev neg : ℕ → ℤ
neg zero = pos 0
neg (suc n) = negsuc n

-- Python refuses to read more digits than this.
abbrev pub max_digits : ℕ
max_digits = 4300

-- The digits of a number, single underscores between them; the first argument says whether a digit
-- was just read, the last but one counts the digits.
unfoldable pub scan : Bool → ℕ → ℕ → Str → Option ℕ
scan was_digit acc count [] = if was_digit && leb count max_digits then some acc else none
scan was_digit acc count (c ∷ s) =
    let digit = scan true (acc * 10 + (c - b'0')) (count + 1) s in
    let underscore = scan false acc count s in
    if leb b'0' c && leb c b'9' then digit else if was_digit && c == b'_' then underscore else none

unfoldable pub signed : Str → Option ℤ
unfolding scan
signed [] = none
signed (c ∷ s) =
    let positive : Option ℤ = elim (scan false 0 0 s) [ none ↦ none | some n ↦ some (pos n) ] in
    let negative : Option ℤ = elim (scan false 0 0 s) [ none ↦ none | some n ↦ some (neg n) ] in
    let plain : Option ℤ = elim (scan false 0 0 (c ∷ s)) [ none ↦ none | some n ↦ some (pos n) ] in
    if c == b'+' then positive else if c == b'-' then negative else plain

-- `int(text)`, on text whose digits are those of ASCII.
unfoldable pub int_of_text : Str → Option ℤ
unfolding signed
int_of_text s = signed (strip s)

-- The decimal digits; a number has at most as many as itself says, so `n` rounds are enough.
show_fuel : ℕ → ℕ → Str
show_fuel zero n = (b'0' + n) ∷ []
show_fuel (suc f) n =
    let rest = show_fuel f (n / 10) in
    if ltb n 10 then (b'0' + n) ∷ [] else rest ++ (b'0' + n % 10) ∷ []

unfoldable pub show_nat : ℕ → Str
unfolding show_fuel
show_nat n = show_fuel n n

-- `str(z)`
unfoldable pub show_int : ℤ → Str
unfolding show_nat
show_int (pos n) = show_nat n
show_int (negsuc n) = b'-' ∷ show_nat (suc n)

abbrev pub IsDigit : ℕ → Type 0
IsDigit c = (b'0' ≤ c) × (c ≤ b'9')

show_fuel-digits : (f n : ℕ) → n ≤ f → All IsDigit (show_fuel f n)
unfolding show_fuel
show_fuel-digits zero n h = omega arith
show_fuel-digits (suc f) n h = elim (Bool-cases (ltb n 10)) [
  | inl small ↦ rw small (ground arith)
  | inr large ↦
      rw large (All-append _ _ _ (show_fuel-digits f (n / 10) (ground arith)) (omega arith))
]

scan_digit :
    (p : Bool) (acc k d : ℕ) (s : Str)
    → d < 10
    → scan p acc k ((b'0' + d) ∷ s) ≡ scan true (acc * 10 + d) (k + 1) s
unfolding scan
scan_digit p acc k d s h = ground arith

scan-show_fuel :
    (f n : ℕ) (p : Bool) (k : ℕ) (s : Str)
    → n ≤ f
    → scan p 0 k (show_fuel f n ++ s) ≡ scan true n (k + length (show_fuel f n)) s
unfolding show_fuel
scan-show_fuel zero n p k s h =
    scan_digit p 0 k n s (omega arith) ∙ ap (λ m. scan true m (k + 1) s) (omega arith)
scan-show_fuel (suc f) n p k s h = elim (Bool-cases (ltb n 10)) [
  | inl small ↦
      rw small (scan_digit p 0 k n s (ground arith) ∙ ap (λ m. scan true m (k + 1) s) (omega arith))
  | inr large ↦
      rw (large, append_assoc, scan-show_fuel f (n / 10) p k _ (ground arith), length-append)
        (scan_digit true (n / 10) _ (n % 10) s (omega arith)
          ∙ ap₂ (λ m l. scan true m l s) (omega arith) (omega arith))
]

tenth_lt : (n p : ℕ) → n < p * 10 → n / 10 < p
tenth_lt n p h = omega arith

-- A number below a power of ten has as few digits as the exponent.
length-show_fuel : (f n k : ℕ) → n ≤ f → n < 10 ^ suc k → length (show_fuel f n) ≤ suc k
unfolding show_fuel
length-show_fuel zero n k h b = omega arith
length-show_fuel (suc f) n zero h b = ground arith
length-show_fuel (suc f) n (suc k) h b = elim (Bool-cases (ltb n 10)) [
  | inl small ↦ rw small (omega arith)
  | inr large ↦
      rw (large, length-append)
        (omega
          (arith, length-show_fuel f (n / 10) k (ground arith) (tenth_lt n _ (rw pow-suc at b))))
]

pub show_nat-digits : (n : ℕ) → All IsDigit (show_nat n)
unfolding show_nat
show_nat-digits n = show_fuel-digits n n (omega arith)

scan-show_nat : (n : ℕ) → n < 100000 → scan false 0 0 (show_nat n) ≡ some n
unfolding show_nat
scan-show_nat n h =
    ap (scan false 0 0) (sym (append-nil (show_fuel n n)))
    ∙ scan-show_fuel n n false 0 [] (omega arith)
    ∙ unfold scan in ground (arith, length-show_fuel n n 4 (omega arith) h)

signed_digits :
    (s : Str) (n : ℕ) → All IsDigit s → scan false 0 0 s ≡ some n → signed s ≡ some (pos n)
unfolding signed
signed_digits [] n d h = unfold scan in cc
signed_digits (c ∷ s) n (hc, _) h = rw h (ground arith)

digits-NoSpace : (s : Str) → All IsDigit s → NoSpace s
digits-NoSpace [] _ = tt
digits-NoSpace (c ∷ s) (h, hs) = (ground arith, digits-NoSpace s hs)

digits-Lacks : (b : ℕ) (s : Str) → ¬ IsDigit b → All IsDigit s → Lacks b s
digits-Lacks b [] _ _ = tt
digits-Lacks b (c ∷ s) h (hc, hs) = (λ e. h (rw e at hc), digits-Lacks b s h hs)

pub show_nat-NoSpace : (n : ℕ) → NoSpace (show_nat n)
show_nat-NoSpace n = digits-NoSpace (show_nat n) (show_nat-digits n)

pub show_nat-Lacks : (b n : ℕ) → (b < b'0') ⊎ (b'9' < b) → Lacks b (show_nat n)
show_nat-Lacks b n h = digits-Lacks b (show_nat n) (λ d. omega arith) (show_nat-digits n)

-- Every number of at most five digits is read back from its decimal text.
pub int_of_text-show_nat : (n : ℕ) → n < 100000 → int_of_text (show_nat n) ≡ some (pos n)
unfolding int_of_text
int_of_text-show_nat n h =
    rw (strip-NoSpace (show_nat n) (show_nat-NoSpace n))
      (signed_digits (show_nat n) n (show_nat-digits n) (scan-show_nat n h))

show_fuel-ne-nil : (f n : ℕ) → is_empty (show_fuel f n) ≡ false
unfolding show_fuel
show_fuel-ne-nil zero n = refl
show_fuel-ne-nil (suc f) n = elim (Bool-cases (ltb n 10)) [
  | inl small ↦ rw small
  | inr large ↦ rw large (is_empty-append (show_fuel f (n / 10)) _ (show_fuel-ne-nil f (n / 10)))
]

pub show_nat-ne-nil : (n : ℕ) → is_empty (show_nat n) ≡ false
unfolding show_nat
show_nat-ne-nil n = show_fuel-ne-nil n n
