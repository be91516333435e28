-- ===== src/Events/CacheLaws.antt =====
-- What `CacheDict` of `src/events.py` keeps: its length, and the entries that were written last.
use svc_lb_mux.Prelude.{
  length-append, ℕ, zero, suc, ◌-◌, ◌≤◌, ◌<◌, ◌≡◌, ◌≢◌, refl, sym, subst, ap, ◌∙◌, true, false,
  none, some, List, [], ◌∷◌, ◌++◌, ltb, if_pos, if_neg, length, arith, Bool-cases, inl, inr,
  All-append,
}
use svc_lb_mux.Prelude.Dict.{Dict, get, put, remove}
use svc_lb_mux.Prelude.Dict.Laws.{get-put_self}
use svc_lb_mux.Prelude.Dict.Unique.{LacksKey, UniqueKeys}
use svc_lb_mux.Prelude.Dict.Entries.{remove-UniqueKeys}
use svc_lb_mux.Events.CacheDict.{moved, move_to_end, eject, eject_loop, set_item}

module _ {A : Type 0} where
  abbrev pub drop : ℕ → List A → List A
  drop zero xs = xs
  drop (suc n) [] = []
  drop (suc n) (x ∷ xs) = drop n xs

  -- The last `n` elements.
  abbrev pub newest : ℕ → List A → List A
  newest n xs = drop (length xs - n) xs

long_drop : (n m : ℕ) → ltb n (suc m) ≡ true → suc m - n ≡ suc (m - n)
long_drop n m long = ground arith

short_drop : (n m : ℕ) → ltb n (suc m) ≡ false → suc m - n ≡ 0
short_drop n m short = ground arith

empty_fits : (n : ℕ) → ltb n 0 ≡ false
empty_fits n = ground arith

fits : (n : ℕ) → 0 < n → ltb n 1 ≡ false
fits n room = ground arith

module _ {K V : Type 0} where
  pub length-eject-le : (n : ℕ) (d : Dict K V) → length (eject n d) ≤ n
  unfolding eject
  length-eject-le n [] = omega arith
  length-eject-le n (e ∷ d) = ground (arith, length-eject-le n d)

  eject-newest : (n : ℕ) (d : Dict K V) → eject n d ≡ newest n d
  unfolding eject
  eject-newest n [] = sym (drop_nil (0 - n))
    where
      drop_nil : (m : ℕ) → ◌≡◌ {A = Dict K V} (drop m []) []
      drop_nil zero = refl
      drop_nil (suc m) = refl
  eject-newest n (e ∷ d) = elim (Bool-cases (ltb n (suc (length d)))) [
    | inl long ↦
        rw long (eject-newest n d ∙ sym (ap (λ m. drop m (e ∷ d)) (long_drop n (length d) long)))
    | inr short ↦ rw short (sym (ap (λ m. drop m (e ∷ d)) (short_drop n (length d) short)))
  ]

  eject-UniqueKeys : (n : ℕ) (d : Dict K V) → UniqueKeys d → UniqueKeys (eject n d)
  unfolding eject
  eject-UniqueKeys n [] h = tt
  eject-UniqueKeys n (e ∷ d) (lacks, h) = elim (Bool-cases (ltb n (suc (length d)))) [
    | inl long ↦ rw long (eject-UniqueKeys n d h)
    | inr short ↦ rw short (lacks, h)
  ]

  append-UniqueKeys :
      (d : Dict K V) (k : K) (v : V) → LacksKey k d → UniqueKeys d → UniqueKeys (d ++ (k, v) ∷ [])
  append-UniqueKeys [] k v lacks h = (tt, tt)
  append-UniqueKeys ((j, w) ∷ d) k v (ne, lacks) (here, h) = (
    All-append (λ e. e.0 ≢ j) d ((k, v) ∷ []) here ((λ same. ne (sym same)), tt),
    append-UniqueKeys d k v lacks h,
  )

  -- More rounds than entries are enough.
  eject_loop-eject :
      (rounds n : ℕ) (d : Dict K V) → length d < rounds → eject_loop rounds n d ≡ some (eject n d)
  unfolding eject_loop eject
  eject_loop-eject zero n d h = absurd (omega (arith, h))
  eject_loop-eject (suc rounds) n [] h = rw (empty_fits n) refl
  eject_loop-eject (suc rounds) n (e ∷ d) h = elim (Bool-cases (ltb n (suc (length d)))) [
    | inl long ↦ rw long (eject_loop-eject rounds n d (omega (arith, h)))
    | inr short ↦ rw short refl
  ]

module _ {K V : Type 0} (dec : Discrete K) where
  get-eject_last :
      (n : ℕ) (d : Dict K V) (k : K) (v : V)
      → 0 < n
      → LacksKey k d
      → get dec (eject n (d ++ (k, v) ∷ [])) k ≡ some v
  unfolding get eject
  get-eject_last n [] k v room lacks = rw (fits n room) (if_pos (dec k k) refl (some v) none)
  get-eject_last n ((j, w) ∷ d) k v room (ne, lacks) =
      let there = get-eject_last n d k v room lacks in
      elim (Bool-cases (ltb n (suc (length (d ++ (k, v) ∷ []))))) [
        | inl long ↦ rw long there
        | inr short ↦ rw short (if_neg (dec j k) ne (some w) _ ∙ get_last d lacks)
      ]
    where
      get_last : (d : Dict K V) → LacksKey k d → get dec (d ++ (k, v) ∷ []) k ≡ some v
      get_last [] lacks = if_pos (dec k k) refl (some v) none
      get_last ((i, u) ∷ d) (ne, lacks) = if_neg (dec i k) ne (some u) _ ∙ get_last d lacks

  remove-LacksKey : (d : Dict K V) (k : K) → LacksKey k (remove dec d k)
  unfolding remove
  remove-LacksKey [] k = tt
  remove-LacksKey ((j, w) ∷ d) k = elim (dec j k) [
    | yes e ↦
        rw (if_pos (dec j k) e (remove dec d k) ((j, w) ∷ remove dec d k)) (remove-LacksKey d k)
    | no ne ↦
        rw (if_neg (dec j k) ne (remove dec d k) ((j, w) ∷ remove dec d k))
          (ne, remove-LacksKey d k)
  ]

  remove-put : (d : Dict K V) (k : K) (v : V) → remove dec (put dec d k v) k ≡ remove dec d k
  unfolding remove put
  remove-put [] k v = if_pos (dec k k) refl [] ((k, v) ∷ [])
  remove-put ((j, w) ∷ d) k v = elim (dec j k) [
    | yes e ↦ rw (
      if_pos (dec j k) e ((j, v) ∷ d) ((j, w) ∷ put dec d k v),
      if_pos (dec j k) e (remove dec d k) ((j, v) ∷ remove dec d k),
      if_pos (dec j k) e (remove dec d k) ((j, w) ∷ remove dec d k),
    )
    | no ne ↦ rw (
      if_neg (dec j k) ne ((j, v) ∷ d) ((j, w) ∷ put dec d k v),
      if_neg (dec j k) ne (remove dec (put dec d k v) k) ((j, w) ∷ remove dec (put dec d k v) k),
      if_neg (dec j k) ne (remove dec d k) ((j, w) ∷ remove dec d k),
      remove-put d k v,
    )
  ]

  length-remove-le : (d : Dict K V) (k : K) → length (remove dec d k) ≤ length d
  unfolding remove
  length-remove-le [] k = omega arith
  length-remove-le ((j, w) ∷ d) k = ground (arith, length-remove-le d k)

  -- The entry that is written comes last, as the only one with its key.
  move-put :
      (d : Dict K V) (k : K) (v : V)
      → move_to_end dec (put dec d k v) k ≡ remove dec d k ++ (k, v) ∷ []
  unfolding move_to_end
  move-put d k v =
      ap (λ o. moved dec k o (put dec d k v)) (get-put_self dec d k v)
      ∙ ap (λ e. e ++ (k, v) ∷ []) (remove-put d k v)

  move-length :
      (d : Dict K V) (k : K) (v : V) → length (move_to_end dec (put dec d k v) k) ≤ suc (length d)
  move-length d k v =
      rw (move-put d k v, length-append (remove dec d k) ((k, v) ∷ []))
        (omega (arith, length-remove-le d k))

  -- Writing an entry leaves the last `cache_len` entries of the list of the other entries, in their
  -- order of writing, with the new one behind them. The loop that ejects ends: two rounds more than there were entries are
  -- enough for it to leave this.
  pub set_item-newest :
      (n : ℕ) (d : Dict K V) (k : K) (v : V)
      → (set_item dec n d k v ≡ newest n (remove dec d k ++ (k, v) ∷ []))
        × ((rounds : ℕ)
            → suc (length d) < rounds
            → eject_loop rounds n (move_to_end dec (put dec d k v) k) ≡ some (set_item dec n d k v))
  unfolding set_item
  set_item-newest n d k v = (
    ap (eject n) (move-put d k v) ∙ eject-newest n _,
    λ rounds enough.
        eject_loop-eject rounds n (move_to_end dec (put dec d k v) k)
          (omega (arith, move-length d k v, enough)),
  )

  -- The entry that was written is there.
  pub get-set_item :
      (n : ℕ) (d : Dict K V) (k : K) (v : V) → 0 < n → get dec (set_item dec n d k v) k ≡ some v
  unfolding set_item
  get-set_item n d k v room =
      ap (λ e. get dec (eject n e) k) (move-put d k v)
      ∙ get-eject_last n (remove dec d k) k v room (remove-LacksKey d k)

  -- The bound on the length, and the unique keys.
  abbrev pub IsCache : ℕ → Dict K V → Type 0
  IsCache n d = (length d ≤ n) × UniqueKeys d

  pub set_item-IsCache :
      (n : ℕ) (d : Dict K V) (k : K) (v : V) → UniqueKeys d → IsCache n (set_item dec n d k v)
  unfolding set_item
  set_item-IsCache n d k v h = (
    length-eject-le n _,
    eject-UniqueKeys n _ (
        subst UniqueKeys (sym (move-put d k v)) (
          append-UniqueKeys (remove dec d k) k v (remove-LacksKey d k)
            (remove-UniqueKeys dec d k h))),
  )
