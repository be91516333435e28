-- ===== src/Controller/Exclusive.antt =====
-- No two ports of a mux have the same number and protocol.
use svc_lb_mux.Prelude.{
  ℕ, All-map, length-take, suffix-eq, ◌≤◌, ◌≡◌, sym, ap, ◌∙◌, true, Option, some, List, [], ◌∷◌,
  ◌++◌, append_assoc, All, Str, length, ok,
}
use svc_lb_mux.Prelude.Dict.{Dict, member, get}
use svc_lb_mux.Model.{Channel, MuxPort, MuxPort-discrete, PortKey, PortKey-discrete, or_empty}
use svc_lb_mux.Prelude.Dict.Laws.{All-union, All-member, some_inj}
use svc_lb_mux.MuxState.Defs.{allocate}
use svc_lb_mux.Reconcile.ExternalPorts.{port_hash}
use svc_lb_mux.Reconcile.ResolveLaws.{resolve_channel_ports-All}
use svc_lb_mux.Reconcile.Owners.{owner_of}
use svc_lb_mux.Reconcile.Conflicts.{key_of, find_mux_port_conflicts}
use svc_lb_mux.Reconcile.ConflictLaws.{Granted, find_mux_port_conflicts-Granted}
use svc_lb_mux.Reconcile.Previous.{Owns, owner_of-ne-nil}
use svc_lb_mux.Controller.Pass.{Cluster, Pass, reconcile_channels}
use svc_lb_mux.Controller.Steps.{Step, reconcile_channels_induction}

-- `owner_of` ends with the port's name, so owners of ports whose names have one length tell the
-- names apart.
owner_of-suffix :
    (namespace name mux_name : Str)
    → owner_of namespace name mux_name ≡ (namespace ++ b'/' ∷ (name ++ b':' ∷ [])) ++ mux_name
unfolding owner_of
owner_of-suffix namespace name mux_name = simp append_assoc

owner_of-injective :
    (a b c d x y : Str) → owner_of a b x ≡ owner_of c d y → length x ≡ length y → x ≡ y
owner_of-injective a b c d x y h l =
    suffix-eq (a ++ b'/' ∷ (b ++ b':' ∷ [])) (c ++ b'/' ∷ (d ++ b':' ∷ [])) x y
      (sym (owner_of-suffix a b x) ∙ h ∙ owner_of-suffix c d y) l

-- The port has an owner that names it.
abbrev pub IsOwned : Dict PortKey Str → MuxPort → Type 0
IsOwned owners p =
    (namespace : Str) × (name : Str) × Owns owners (key_of p) (owner_of namespace name p.name)
    × (length p.name ≡ 7)

-- The digest has at least the seven digits that a port's name takes from it.
abbrev pub IsDigest : (Str → Str) → Type 0
IsDigest hex = (s : Str) → 7 ≤ length (hex s)

module _ (hex : Str → Str) (digest : IsDigest hex) (cluster : Cluster) (max_ports : Option ℕ) where
  length-port_hash :
      (namespace name port_name : Str) → length (port_hash hex namespace name port_name) ≡ 7
  unfolding port_hash
  length-port_hash namespace name port_name =
      length-take 7 (hex (namespace ++ b'/' ∷ (name ++ b'/' ∷ port_name))) (digest _)

  new_ports-IsOwned :
      (c : Channel) (owners owners' : Dict PortKey Str) (ports : List MuxPort)
      → Granted c.namespace c.name owners ports owners'
      → All (λ p. length p.name ≡ 7) ports
      → All (IsOwned owners') ports
  new_ports-IsOwned c owners owners' ports g names = both ports g.granted names
    where
      both :
          (ps : List MuxPort)
          → All
              (λ p.
                get PortKey-discrete owners' (key_of p) ≡ some (owner_of c.namespace c.name p.name))
              ps
          → All (λ p. length p.name ≡ 7) ps
          → All (IsOwned owners') ps
      both [] _ _ = tt
      both (p ∷ ps) (g₁, gs) (n₁, ns) = (
        (c.namespace, c.name, (g₁, owner_of-ne-nil c.namespace c.name p.name), n₁),
        both ps gs ns,
      )

  Step-IsOwned :
      (c : Channel) (p p' : Pass)
      → Step hex cluster max_ports c p p'
      → All (IsOwned p.owners) p.ports
      → All (IsOwned p'.owners) p'.ports
  Step-IsOwned c p p' (Step.skipped ports owners) h = rw (ports, owners) h
  Step-IsOwned c p p' (Step.accepted ch_ports annotation s fits resolved free owners ports) h =
      let g = find_mux_port_conflicts-Granted c.namespace c.name p.owners ch_ports free in
      rw (ports, owners)
        (All-union MuxPort-discrete
          (IsOwned (find_mux_port_conflicts c.namespace c.name p.owners ch_ports).0) p.ports
          ch_ports
          (All-map p.ports
            (λ q (a, b, owned, seven). (a, b, g.kept (key_of q) (owner_of a b q.name) owned, seven))
            h)
          (new_ports-IsOwned c p.owners
            (find_mux_port_conflicts c.namespace c.name p.owners ch_ports).0 ch_ports g
            (resolve_channel_ports-All hex (some (allocate hex)) c (λ q. length q.name ≡ 7)
              (λ port z. length-port_hash c.namespace c.name (or_empty port.name)) p.mux_state
              ch_ports annotation s resolved)))

  -- From no ports, whatever the channels ask for and whoever owned what, the loop over the channels
  -- never gives two different ports the same number and protocol, if a digest has at least seven
  -- characters.
  pub reconcile_channels-IsExclusive :
      (channels : List Channel) (p p' : Pass)
      → p.ports ≡ []
      → reconcile_channels hex cluster max_ports channels p ≡ ok p'
      → (x y : MuxPort) → member MuxPort-discrete x p'.ports ≡ true
      → member MuxPort-discrete y p'.ports ≡ true
      → key_of x ≡ key_of y
      → x ≡ y
  reconcile_channels-IsExclusive channels p p' empty run x y at_x at_y same =
      let owned : All (IsOwned p'.owners) p'.ports =
        reconcile_channels_induction hex cluster max_ports (λ q. All (IsOwned q.owners) q.ports)
          Step-IsOwned channels p p' run (rw empty tt) in
      let (a, b, owns_x, seven_x) =
        All-member MuxPort-discrete (IsOwned p'.owners) x p'.ports owned at_x in
      let (c, d, owns_y, seven_y) =
        All-member MuxPort-discrete (IsOwned p'.owners) y p'.ports owned at_y in
      let names : x.name ≡ y.name =
        owner_of-injective a b c d x.name y.name
          (some_inj (sym owns_x.0 ∙ ap (get PortKey-discrete p'.owners) same ∙ owns_y.0))
          (seven_x ∙ sym seven_y) in
      λ i. record { name = names i; port = (same i).0; protocol = (same i).1 }
