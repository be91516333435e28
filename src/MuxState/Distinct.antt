-- ===== src/MuxState/Distinct.antt =====
-- No two claims of a mux hold the same port with the same protocol, and `allocate` keeps it so.
use svc_lb_mux.Prelude.{
  ℕ, ◌≡◌, ◌≢◌, refl, sym, subst, ◌∙◌, some, if_pos, if_neg, Str, Str-discrete, ℤ, pos, Result, ok,
  err,
}
use svc_lb_mux.Prelude.Dict.{get}
use svc_lb_mux.Prelude.Dict.Laws.{some_inj}
use svc_lb_mux.Model.{Value, int, Port, Channel, PortKey, PortAllocationRef, from_channel_port, key}
use svc_lb_mux.MuxState.Defs.{Claim, MuxState, set_claim, new_claim, ref_owner, allocate, auto}
use svc_lb_mux.MuxState.Used.{HasPort}
use svc_lb_mux.MuxState.Free.{IsFree}
use svc_lb_mux.MuxState.Allocate.{allocate-Found, allocate-IsFree, allocate_err}
use svc_lb_mux.MuxState.Found.{Found, get-set_claim}

pub record IsDistinct (s : MuxState) : Type 0 where
  pub at :
      (x : PortKey) (k l : Str) (c d : Claim)
      → get Str-discrete s.claims k ≡ some c
      → get Str-discrete s.claims l ≡ some d
      → HasPort x c
      → HasPort x d
      → k ≡ l

module _ (ref : PortAllocationRef) (channel_port : Value) (n : ℕ) (owner : Str) (s : MuxState) where
  abbrev written : MuxState
  written = set_claim ref channel_port (int (pos n)) auto s

  written_other :
      (k : Str) (c : Claim)
      → get Str-discrete written.claims k ≡ some c
      → key ref ≢ k
      → get Str-discrete s.claims k ≡ some c
  written_other k c there ne =
      sym (
        get-set_claim ref channel_port (int (pos n)) auto s k
        ∙ if_neg (Str-discrete (key ref) k) ne _ _)
      ∙ there

  -- A claim beside the new one does not hold the new port.
  written_apart :
      (x : PortKey) (k l : Str) (c d : Claim)
      → IsFree s ref owner (pos n)
      → get Str-discrete written.claims k ≡ some c
      → get Str-discrete written.claims l ≡ some d
      → HasPort x c
      → HasPort x d
      → key ref ≡ k
      → key ref ≢ l
      → ⊥
  written_apart x k l c d free at_k at_l has_k has_l same other =
      let new = new_claim ref channel_port (int (pos n)) auto in
      let is_new : new ≡ c = some_inj (
        sym (
          get-set_claim ref channel_port (int (pos n)) auto s k
          ∙ if_pos (Str-discrete (key ref) k) same _ _)
        ∙ at_k) in
      let has_new : HasPort x new = subst (HasPort x) (sym is_new) has_k in
      let place : ◌≡◌ {A = PortKey} x (pos n, ref.protocol) =
        λ i. (some_inj (sym has_new.0) i, sym has_new.1 i) in
      free.unclaimed l d (written_other l d at_l other) (λ e. other (sym e))
        (subst (λ (y : PortKey). HasPort y d) place has_l)

  written-IsDistinct : IsFree s ref owner (pos n) → IsDistinct s → IsDistinct written
  written-IsDistinct free distinct = record {
    at = λ x k l c d at_k at_l has_k has_l. elim (Str-discrete (key ref) k) [
      | yes same ↦ elim (Str-discrete (key ref) l) [
        | yes same' ↦ sym same ∙ same'
        | no other ↦ absurd (written_apart x k l c d free at_k at_l has_k has_l same other)
      ]
      | no other ↦ elim (Str-discrete (key ref) l) [
        | yes same ↦ absurd (written_apart x l k d c free at_l at_k has_l has_k same other)
        | no other' ↦
            distinct.at x k l c d (written_other k c at_k other) (written_other l d at_l other')
              has_k has_l
      ]
    ];
  }

module _ (hex : Str → Str) (channel : Channel) (port : Port) (s : MuxState) where
  -- If no two claims hold the same port and protocol, then none do after a call of `allocate`,
  -- whether it returns or raises.
  pub allocate-IsDistinct : IsDistinct s → IsDistinct (allocate hex channel port s).1
  allocate-IsDistinct distinct =
      by_result (allocate hex channel port s).0 (allocate hex channel port s).1 refl
    where
      from_found :
          (z : ℤ) (s' : MuxState)
          → allocate hex channel port s ≡ (ok z, s')
          → Found s
              (from_channel_port channel port)
              port.port
              (ref_owner hex (from_channel_port channel port))
              z
              s'
          → IsDistinct s'
      from_found z s' h (Found.kept c there at inside free same) =
          subst IsDistinct (sym same) distinct
      from_found z s' h (Found.fresh n number found written_there) =
          subst IsDistinct (sym written_there) (
            written-IsDistinct (from_channel_port channel port) port.port n
              (ref_owner hex (from_channel_port channel port)) s
              (subst
                (IsFree s (from_channel_port channel port)
                  (ref_owner hex (from_channel_port channel port)))
                number (allocate-IsFree hex channel port s z s' h))
              distinct)

      by_result :
          (r : Result ℤ) (s' : MuxState) → allocate hex channel port s ≡ (r, s') → IsDistinct s'
      by_result (ok z) s' h = from_found z s' h (allocate-Found hex channel port s z s' h)
      by_result (err e) s' h =
          subst IsDistinct (sym (allocate_err hex channel port s e s' h).0) distinct
