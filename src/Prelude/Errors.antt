-- ===== src/Prelude/Errors.antt =====
-- `ValueError` as a value, and methods that change an object and may raise.
use mathlib.Core.Path.{◌≡◌, refl}
use mathlib.Core.Logic.{◌≢◌}

-- One constructor for each reason for which the program raises `ValueError`.
pub data Error : Type 0 where
  not_integer port_out_of_range : Error
  missing_separator missing_port_name unnamed_port unknown_port_name : Error
  no_allocator no_range no_free_port inverted_range : Error
  bad_lb_class bad_label : Error
  bad_max_ports : Error
  foreign_configmap foreign_state bad_json bad_mapping missing_key already_exists not_found
        no_length :
      Error
  no_service : Error

-- What a function of the program gives: an exception, or the value that it returns.
pub data Result {ℓ} (Returned : Type ℓ) : Type ℓ where
  err : Error → Result Returned
  ok : Returned → Result Returned

-- Running on behind a call, unless it raises.
infixl 5 ◌>>=◌
abbrev pub ◌>>=◌ {ℓ κ} : {X : Type ℓ} {Y : Type κ} → Result X → (X → Result Y) → Result Y
err raised >>= rest = err raised
ok value >>= rest = rest value

-- What a method has written before it raises stays written.
abbrev pub Exec {ℓ} : Type ℓ → Type ℓ → Type ℓ
Exec S A = S → Result A × S

-- The rest of a method after a call, which a raise skips.
abbrev pub continue {ℓ} : {S A B : Type ℓ} → Result A × S → (A → S → Result B × S) → Result B × S
continue (ok a, s) f = f a s
continue (err e, s) f = (err e, s)

-- If the whole returns, the first call returned, and so did the rest.
pub >>=-eq-ok {ℓ κ} :
    {X : Type ℓ} {Y : Type κ} (call : Result X) (rest : X → Result Y) {y : Y}
    → (call >>= rest) ≡ ok y
    → (x : X) × (call ≡ ok x) × (rest x ≡ ok y)
>>=-eq-ok (err raised) rest returned = cc
>>=-eq-ok (ok value) rest returned = (value, refl, returned)

pub ok-injective {ℓ} : {A : Type ℓ} {a b : A} → ok a ≡ ok b → a ≡ b
ok-injective h = cc

pub err-ne-ok {ℓ} : {A : Type ℓ} {e : Error} {a : A} → err e ≢ ok a
err-ne-ok h = cc

-- Inversion of a call that did not raise.
pub continue_ok {ℓ} :
    {S A B : Type ℓ} (r : Result A × S) (f : A → S → Result B × S) (b : B) (s' : S)
    → continue r f ≡ (ok b, s')
    → (a : A) × (s : S) × (r ≡ (ok a, s)) × (f a s ≡ (ok b, s'))
continue_ok (ok a, s) f b s' h = (a, s, refl, h)
continue_ok (err e, s) f b s' h = absurd (err-ne-ok (λ i. (h i).0))
