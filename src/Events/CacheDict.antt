-- ===== src/Events/CacheDict.antt =====
-- `CacheDict` of `src/events.py`: an ordered dict of bounded length. The oldest entry comes first.
use svc_lb_mux.Prelude.{zero, suc, ℕ, Option, none, some, [], ◌∷◌, ◌++◌, ltb, if◌then◌else◌, length}
use svc_lb_mux.Prelude.Dict.{Dict, get, put, remove}

module _ {K V : Type 0} where
  -- The loop that ejects the first entry while there are too many.
  unfoldable pub eject : ℕ → Dict K V → Dict K V
  eject cache_len [] = []
  eject cache_len (oldest ∷ d) =
      let rest = eject cache_len d in
      if ltb cache_len (length (oldest ∷ d)) then rest else oldest ∷ d

  abbrev pub without_first : Dict K V → Dict K V
  without_first [] = []
  without_first (oldest ∷ d) = d

  -- The same loop round by round, with a bound on the rounds; `none` where the bound is too low.
  unfoldable pub eject_loop : ℕ → ℕ → Dict K V → Option (Dict K V)
  eject_loop zero cache_len d = none
  eject_loop (suc rounds) cache_len d =
      let later = eject_loop rounds cache_len (without_first d) in
      if ltb cache_len (length d) then later else some d

module _ {K V : Type 0} (dec : Discrete K) where
  abbrev pub moved : K → Option V → Dict K V → Dict K V
  moved key none d = d
  moved key (some value) d = remove dec d key ++ (key, value) ∷ []

  -- `move_to_end`
  unfoldable pub move_to_end : Dict K V → K → Dict K V
  move_to_end d key = moved key (get dec d key) d

  -- `__setitem__`
  unfoldable pub set_item : ℕ → Dict K V → K → V → Dict K V
  unfolding move_to_end eject
  set_item cache_len d key value = eject cache_len (move_to_end (put dec d key value) key)

  -- `__getitem__`, which `get` does not call
  unfoldable pub get_item : Dict K V → K → Option (V × Dict K V)
  unfolding move_to_end
  get_item d key = elim (get dec d key) [
    | none ↦ none
    | some value ↦ some (value, move_to_end d key)
  ]
