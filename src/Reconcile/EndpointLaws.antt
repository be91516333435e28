-- ===== src/Reconcile/EndpointLaws.antt =====
-- The two ways in which `src/reconcile.py` collects the addresses of Endpoints agree.
use svc_lb_mux.Prelude.{
  ◌≡◌, refl, sym, ◌∙◌, Bool, true, false, ◌||◌, List, [], ◌∷◌, if◌then◌else◌, ite, Str, any,
}
use svc_lb_mux.Prelude.Dict.{member, add}
use svc_lb_mux.Prelude.Dict.Laws.{member-add}
use svc_lb_mux.Reconcile.Endpoints.{
  EndpointPort, Subset, MuxEp, MuxEp-discrete, endpoint_at, add_ips, add_by_port, old_endpoints,
  ready, not_ready, get_old_endpoints_set, add_ports, add_by_ip, current_endpoints,
  get_current_endpoints_set,
}

any-false : {A : Type 0} (xs : List A) → any (λ x. false) xs ≡ false
any-false [] = refl
any-false (x ∷ xs) = any-false xs

-- a disjunction as `any` has it
abbrev either : Bool → Bool → Bool
either a b = if a then true else b

either_swap : (a b c d : Bool) → either (either a b) (either c d) ≡ either (either a c) (either b d)
either_swap true b c d = refl
either_swap false true true d = refl
either_swap false true false d = refl
either_swap false false c d = refl

or_false : (a : Bool) → a || false ≡ a
or_false true = refl
or_false false = refl

or_assoc : (a b c : Bool) → (a || b) || c ≡ a || either b c
or_assoc true b c = refl
or_assoc false true c = refl
or_assoc false false c = refl

any-either :
    {A : Type 0} (f g : A → Bool) (xs : List A)
    → any (λ x. either (f x) (g x)) xs ≡ either (any f xs) (any g xs)
any-either f g [] = refl
any-either f g (x ∷ xs) = rw (any-either f g xs) (either_swap (f x) (g x) (any f xs) (any g xs))

any-swap :
    {A B : Type 0} (f : A → B → Bool) (xs : List A) (ys : List B)
    → any (λ x. any (f x) ys) xs ≡ any (λ y. any (λ x. f x y) xs) ys
any-swap f [] ys = sym (any-false ys)
any-swap f (x ∷ xs) ys =
    rw (any-swap f xs ys) (sym (any-either (f x) (λ y. any (λ z. f z y) xs) ys))

module _ (e : MuxEp) where
  abbrev is_found : EndpointPort → Str → Bool
  is_found p ip = ite (MuxEp-discrete (endpoint_at p ip) e) true false

  member-add_or :
      (x : MuxEp) (found : List MuxEp)
      → member MuxEp-discrete e (add MuxEp-discrete x found)
        ≡ member MuxEp-discrete e found || ite (MuxEp-discrete x e) true false
  member-add_or x found =
      member-add MuxEp-discrete e x found
      ∙ by_cases (MuxEp-discrete x e) (member MuxEp-discrete e found)
    where
      by_cases : (o : Dec (x ≡ e)) (b : Bool) → ite o true b ≡ b || ite o true false
      by_cases (yes p) true = refl
      by_cases (yes p) false = refl
      by_cases (no n) true = refl
      by_cases (no n) false = refl

  member-add_ips :
      (p : EndpointPort) (ips : List Str) (found : List MuxEp)
      → member MuxEp-discrete e (add_ips p ips found)
        ≡ member MuxEp-discrete e found || any (is_found p) ips
  unfolding add_ips
  member-add_ips p [] found = sym (or_false (member MuxEp-discrete e found))
  member-add_ips p (ip ∷ ips) found =
      member-add_ips p ips (add MuxEp-discrete (endpoint_at p ip) found)
      ∙ rw (member-add_or (endpoint_at p ip) found)
          (or_assoc (member MuxEp-discrete e found) (is_found p ip) (any (is_found p) ips))

  member-add_by_port :
      (ips : List Str) (ps : List EndpointPort) (found : List MuxEp)
      → member MuxEp-discrete e (add_by_port ips ps found)
        ≡ member MuxEp-discrete e found || any (λ p. any (is_found p) ips) ps
  unfolding add_by_port
  member-add_by_port ips [] found = sym (or_false (member MuxEp-discrete e found))
  member-add_by_port ips (p ∷ ps) found =
      member-add_by_port ips ps (add_ips p ips found)
      ∙ rw (member-add_ips p ips found) (
          or_assoc (member MuxEp-discrete e found) (any (is_found p) ips)
            (any (λ q. any (is_found q) ips) ps))

  member-add_ports :
      (ip : Str) (ps : List EndpointPort) (found : List MuxEp)
      → member MuxEp-discrete e (add_ports ip ps found)
        ≡ member MuxEp-discrete e found || any (λ p. is_found p ip) ps
  unfolding add_ports
  member-add_ports ip [] found = sym (or_false (member MuxEp-discrete e found))
  member-add_ports ip (p ∷ ps) found =
      member-add_ports ip ps (add MuxEp-discrete (endpoint_at p ip) found)
      ∙ rw (member-add_or (endpoint_at p ip) found)
          (or_assoc (member MuxEp-discrete e found) (is_found p ip) (any (λ q. is_found q ip) ps))

  member-add_by_ip :
      (ips : List Str) (ps : List EndpointPort) (found : List MuxEp)
      → member MuxEp-discrete e (add_by_ip ips ps found)
        ≡ member MuxEp-discrete e found || any (λ ip. any (λ p. is_found p ip) ps) ips
  unfolding add_by_ip
  member-add_by_ip [] ps found = sym (or_false (member MuxEp-discrete e found))
  member-add_by_ip (ip ∷ ips) ps found =
      member-add_by_ip ips ps (add_ports ip ps found)
      ∙ rw (member-add_ports ip ps found) (
          or_assoc (member MuxEp-discrete e found) (any (λ p. is_found p ip) ps)
            (any (λ i. any (λ p. is_found p i) ps) ips))

  -- The same members so far are the same members at the end.
  member-endpoints :
      (side : Subset → List Str) (subsets : List Subset) (found found' : List MuxEp)
      → member MuxEp-discrete e found ≡ member MuxEp-discrete e found'
      → member MuxEp-discrete e (old_endpoints side subsets found)
        ≡ member MuxEp-discrete e (current_endpoints side subsets found')
  unfolding old_endpoints current_endpoints
  member-endpoints side [] found found' h = h
  member-endpoints side (s ∷ subsets) found found' h =
      member-endpoints side subsets (add_by_port (side s) s.ports found)
        (add_by_ip (side s) s.ports found')
        (rw
          (
            member-add_by_port (side s) s.ports found,
            member-add_by_ip (side s) s.ports found',
            h,
            any-swap is_found s.ports (side s),
          )
          refl)

-- The addresses that are collected from the old Endpoints and from the new ones by two different
-- loops are the same set for the same subsets, both the ready and the not ready ones.
pub get_endpoints_sets-agree :
    (subsets : List Subset) (e : MuxEp)
    → (member MuxEp-discrete e (get_old_endpoints_set subsets).0
        ≡ member MuxEp-discrete e (get_current_endpoints_set subsets).0)
      × (member MuxEp-discrete e (get_old_endpoints_set subsets).1
          ≡ member MuxEp-discrete e (get_current_endpoints_set subsets).1)
unfolding get_old_endpoints_set get_current_endpoints_set
get_endpoints_sets-agree subsets e =
    (member-endpoints e ready subsets [] [] refl, member-endpoints e not_ready subsets [] [] refl)
