-- ===== src/MuxState/Reload.antt =====
-- What `MuxState` reads back from the document that `to_state` of `src/mux_state.py` writes.
use svc_lb_mux.Prelude.{
  ◌≡◌, refl, sym, subst, ap, ◌∙◌, Bool, true, false, Option, none, some, List, [], ◌∷◌,
  if◌then◌else◌, ite, if_pos, if_neg, Option-cases, inl, inr, ◌⊎◌, Str, Str-discrete, All, str_leb,
}
use svc_lb_mux.Prelude.Dict.{Dict, get, put, keys, member}
use svc_lb_mux.Prelude.Dict.Laws.{get-put, member-keys, some_inj}
use svc_lb_mux.Prelude.Sort.{insert, sort}
use svc_lb_mux.Model.{Channel, PortKey, key}
use svc_lb_mux.PortAllocations.Ranges.{Range}
use svc_lb_mux.MuxState.Defs.{Claim, MuxState, claim_ref}
use svc_lb_mux.MuxState.Lifecycle.{
  normalize, index_claims, claims_by_key, and_claim, claims_at, to_state, active_claim_keys, init,
}
use svc_lb_mux.MuxState.Restart.{init-claims}
use svc_lb_mux.MuxState.Stored.{IsStored, AreStored, Reached, Reached-AreStored}

module _ {K : Type 0} (dec : Discrete K) (le : K → K → Bool) where
  member-insert :
      (k x : K) (xs : List K) → member dec k (insert le x xs) ≡ ite (dec x k) true (member dec k xs)
  unfolding insert member
  member-insert k x [] = refl
  member-insert k x (y ∷ ys) = by_order (le x y) (member-insert k x ys)
    where
      swap :
          (p : Dec (x ≡ k)) (q : Dec (y ≡ k)) (b : Bool)
          → ite q true (ite p true b) ≡ ite p true (ite q true b)
      swap (yes _) (yes _) b = refl
      swap (yes _) (no _) b = refl
      swap (no _) (yes _) b = refl
      swap (no _) (no _) b = refl

      by_order :
          (b : Bool)
          → member dec k (insert le x ys) ≡ ite (dec x k) true (member dec k ys)
          → member dec k (if b then x ∷ y ∷ ys else y ∷ insert le x ys)
            ≡ ite (dec x k) true (ite (dec y k) true (member dec k ys))
      by_order true later = refl
      by_order false later =
          ap (λ m. ite (dec y k) true m) later ∙ swap (dec x k) (dec y k) (member dec k ys)

  -- Sorting keeps the members.
  member-sort : (k : K) (xs : List K) → member dec k (sort le xs) ≡ member dec k xs
  unfolding sort member
  member-sort k [] = refl
  member-sort k (x ∷ xs) =
      member-insert k x (sort le xs) ∙ ap (λ m. ite (dec x k) true m) (member-sort k xs)

All-get :
    {K V : Type 0} (dec : Discrete K) (P : K × V → Type 0) (d : Dict K V) (k : K) (v : V)
    → All P d
    → get dec d k ≡ some v
    → P (k, v)
unfolding get
All-get dec P [] k v h found = cc
All-get dec P ((j, w) ∷ d) k v (p, h) found = elim (dec j k) [
  | yes e ↦
      subst (λ j'. P (j', v)) e
        (subst (λ w'. P (j, w'))
          (some_inj (sym (if_pos (dec j k) e (some w) (get dec d k)) ∙ found)) p)
  | no ne ↦ All-get dec P d k v h (sym (if_neg (dec j k) ne (some w) (get dec d k)) ∙ found)
]

-- The first of two values.
abbrev or_other : Option Claim → Option Claim → Option Claim
or_other none other = other
or_other (some c) other = some c

module _ (claims : Dict Str Claim) (stored : AreStored claims) where
  abbrev read_or : Bool → Str → Option Claim → Option Claim
  read_or b k other = if b then or_other (get Str-discrete claims k) other else other

  same_claim :
      (b : Bool) (k : Str) (c : Claim)
      → get Str-discrete claims k ≡ some c
      → read_or b k (some c) ≡ some c
  same_claim true k c found = ap (λ o. or_other o (some c)) found
  same_claim false k c found = refl

  no_claim :
      (b : Bool) (k : Str) (other : Option Claim)
      → get Str-discrete claims k ≡ none
      → read_or b k other ≡ other
  no_claim true k other missing = ap (λ o. or_other o other) missing
  no_claim false k other missing = refl

  stored_at :
      (j : Str) (c : Claim)
      → get Str-discrete claims j ≡ some c
      → (key (claim_ref c) ≡ j) × (normalize c ≡ c)
  stored_at j c found = All-get Str-discrete IsStored claims j c stored found

  put_stored :
      (d : Dict Str Claim) (j k : Str) (c : Claim) (q : Dec (j ≡ k))
      → get Str-discrete claims j ≡ some c
      → get Str-discrete (put Str-discrete d (key (claim_ref c)) (normalize c)) k
        ≡ ite q (some c) (get Str-discrete d k)
  put_stored d j k c q found =
      let (keyed, normal) = stored_at j c found in
      get-put Str-discrete d (key (claim_ref c)) (normalize c) k ∙ by_key q keyed normal
    where
      by_key :
          (q : Dec (j ≡ k))
          → key (claim_ref c) ≡ j
          → normalize c ≡ c
          → ite (Str-discrete (key (claim_ref c)) k) (some (normalize c)) (get Str-discrete d k)
            ≡ ite q (some c) (get Str-discrete d k)
      by_key (yes e) keyed normal =
          if_pos (Str-discrete (key (claim_ref c)) k) (keyed ∙ e) (some (normalize c))
            (get Str-discrete d k)
          ∙ ap some normal
      by_key (no ne) keyed normal =
          if_neg (Str-discrete (key (claim_ref c)) k) (λ e. ne (sym keyed ∙ e)) (some (normalize c))
            (get Str-discrete d k)

  -- One more key of the list.
  read_step :
      (j k : Str) (ks : List Str) (d : Dict Str Claim) (o : Option Claim) (q : Dec (j ≡ k))
      (rest : Bool)
      → get Str-discrete claims j ≡ o
      → ((e : Dict Str Claim)
          → get Str-discrete (index_claims e (claims_at claims ks)) k
            ≡ read_or rest k (get Str-discrete e k))
      → get Str-discrete (index_claims d (and_claim o (claims_at claims ks))) k
        ≡ read_or (ite q true rest) k (get Str-discrete d k)
  unfolding index_claims
  read_step j k ks d none (yes e) rest found later =
      let missing = subst (λ i. get Str-discrete claims i ≡ none) e found in
      later d
      ∙ no_claim rest k (get Str-discrete d k) missing
      ∙ sym (no_claim true k (get Str-discrete d k) missing)
  read_step j k ks d none (no ne) rest found later = later d
  read_step j k ks d (some c) (yes e) rest found later =
      let here = subst (λ i. get Str-discrete claims i ≡ some c) e found in
      later (put Str-discrete d (key (claim_ref c)) (normalize c))
      ∙ ap (read_or rest k) (put_stored d j k c (yes e) found)
      ∙ same_claim rest k c here
      ∙ sym (ap (λ o. or_other o (get Str-discrete d k)) here)
  read_step j k ks d (some c) (no ne) rest found later =
      later (put Str-discrete d (key (claim_ref c)) (normalize c))
      ∙ ap (read_or rest k) (put_stored d j k c (no ne) found)

  get-index_claims :
      (ks : List Str) (d : Dict Str Claim) (k : Str)
      → get Str-discrete (index_claims d (claims_at claims ks)) k
        ≡ read_or (member Str-discrete k ks) k (get Str-discrete d k)
  unfolding index_claims claims_at member
  get-index_claims [] d k = refl
  get-index_claims (j ∷ ks) d k =
      read_step j k ks d (get Str-discrete claims j) (Str-discrete j k) (member Str-discrete k ks)
        refl (λ e. get-index_claims ks e k)

  -- The claims that are read back from those at all keys.
  get-all_claims :
      (k : Str)
      → get Str-discrete (index_claims [] (claims_at claims (sort str_leb (keys claims)))) k
        ≡ get Str-discrete claims k
  unfolding get
  get-all_claims k =
      get-index_claims (sort str_leb (keys claims)) [] k
      ∙ ap (λ b. read_or b k none) (member-sort Str-discrete str_leb k (keys claims))
      ∙ by_claim (Option-cases (get Str-discrete claims k))
    where
      by_claim :
          (get Str-discrete claims k ≡ none) ⊎ ((c : Claim) × (get Str-discrete claims k ≡ some c))
          → read_or (member Str-discrete k (keys claims)) k none ≡ get Str-discrete claims k
      by_claim (inl missing) =
          no_claim (member Str-discrete k (keys claims)) k none missing ∙ sym missing
      by_claim (inr (c, found)) =
          ap (λ b. read_or b k none) (member-keys Str-discrete claims k c found)
          ∙ ap (λ o. or_other o none) found
          ∙ sym found

-- A restart keeps the claims: in each state that the constructor and the methods of `MuxState` lead
-- to, the document of `to_state` is read back as the claims of the state; so the constructor
-- gives the claim of each port that the channels still declare, as it was, and no other claim.
pub to_state-claims :
    (hex : Str → Str) (s : MuxState)
    → Reached hex s
    → ((k : Str) → get Str-discrete (claims_by_key (to_state s)) k ≡ get Str-discrete s.claims k)
      × ((mux_key : Str × Str) (ranges : List Range) (channels : List Channel)
            (reserved : List PortKey) (owners : Dict PortKey Str) (k : Str)
          → get Str-discrete (init mux_key ranges (to_state s) channels reserved owners).claims k
            ≡ (if member Str-discrete k (active_claim_keys channels [])
                then get Str-discrete s.claims k
                else none))
unfolding claims_by_key to_state
to_state-claims hex s reached =
    let same = get-all_claims s.claims (Reached-AreStored hex s reached) in
    (
      same,
      λ mux_key ranges channels reserved owners k.
          init-claims mux_key ranges (to_state s) channels reserved owners k
          ∙ ap (λ o. if member Str-discrete k (active_claim_keys channels []) then o else none)
              (same k),
    )
