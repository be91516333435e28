-- ===== src/Reconcile/Conflicts.antt =====
-- `find_mux_port_conflicts` of `src/reconcile.py`.
use svc_lb_mux.Prelude.{
  Bool, true, false, ◌&&◌, Option, none, some, List, [], ◌∷◌, ◌++◌, leb, if◌then◌else◌, ite, Str,
  Str-discrete, ℤ, pos, negsuc, str_leb,
}
use svc_lb_mux.Prelude.Dict.{Dict, get, put, update}
use svc_lb_mux.Prelude.Sort.{sort}
use svc_lb_mux.Model.{MuxPort, PortKey, PortKey-discrete}
use svc_lb_mux.Reconcile.Owners.{owner_of}

-- the sort key `(protocol, port, name)`
abbrev pub int_leb : ℤ → ℤ → Bool
int_leb (pos m) (pos n) = leb m n
int_leb (pos m) (negsuc n) = false
int_leb (negsuc m) (pos n) = true
int_leb (negsuc m) (negsuc n) = leb n m

unfoldable pub mux_port_leb : MuxPort → MuxPort → Bool
mux_port_leb a b =
    ite (Str-discrete a.protocol b.protocol)
      (if int_leb a.port b.port && int_leb b.port a.port
        then str_leb a.name b.name
        else int_leb a.port b.port)
      (str_leb a.protocol b.protocol)

-- `a or b` for an owner: an empty text counts as nothing.
abbrev pub owner_or : Option Str → Option Str → Option Str
owner_or none other = other
owner_or (some []) other = other
owner_or (some (c ∷ s)) other = some (c ∷ s)

-- `previous_owner and previous_owner != owner`
abbrev pub is_other : Str → Option Str → Bool
is_other owner none = false
is_other owner (some []) = false
is_other owner (some (c ∷ s)) = ite (Str-discrete (c ∷ s) owner) false true

-- A port, and who has it already.
abbrev pub Conflict : Type 0
Conflict = MuxPort × Option Str

abbrev pub key_of : MuxPort → PortKey
key_of p = (p.port, p.protocol)

module _ (namespace name : Str) where
  abbrev pub owner_of_port : MuxPort → Str
  owner_of_port p = owner_of namespace name p.name

  -- The loop, over the sorted ports: the assignments and the conflicts.
  unfoldable pub assign_ports :
      Dict PortKey Str
      → List MuxPort
      → Dict PortKey Str
      → List Conflict
      → Dict PortKey Str × List Conflict
  assign_ports port_owners [] assignments conflicts = (assignments, conflicts)
  assign_ports port_owners (p ∷ ps) assignments conflicts =
      let owner = owner_of_port p in
      let previous =
        owner_or (get PortKey-discrete port_owners (key_of p))
          (get PortKey-discrete assignments (key_of p)) in
      let refused = assign_ports port_owners ps assignments (conflicts ++ (p, previous) ∷ []) in
      let taken =
        assign_ports port_owners ps (put PortKey-discrete assignments (key_of p) owner) conflicts in
      if is_other owner previous then refused else taken

  abbrev pub commit :
      Dict PortKey Str → Dict PortKey Str × List Conflict → Dict PortKey Str × List Conflict
  commit port_owners (assignments, []) = (update PortKey-discrete port_owners assignments, [])
  commit port_owners (assignments, c ∷ cs) = (port_owners, c ∷ cs)

  -- `find_mux_port_conflicts`: the owners afterwards, and the conflicts
  unfoldable pub find_mux_port_conflicts :
      Dict PortKey Str → List MuxPort → Dict PortKey Str × List Conflict
  unfolding assign_ports mux_port_leb
  find_mux_port_conflicts port_owners mux_ports =
      commit port_owners (assign_ports port_owners (sort mux_port_leb mux_ports) [] [])
