-- ===== src/ConfigEdit/Spec/Sound.antt =====
-- What an accepted specification of src/config_edit.rs has, and the entry it becomes.
use mathlib.Core.Path.{subst}
use rathole_x.Base.{
  ◌≡◌, ◌≢◌, refl, sym, ◌∙◌, Bool, true, false, ◌||◌, Option, none, some, List, [], ◌∷◌,
  if◌then◌else◌, is_none, Text, text_eq, codes, ◌==◌,
}
use rathole_x.Base.Trim.{trim, split, split_once}
use rathole_x.ConfigEdit.{
  Side, client, server, Error, missing_name, missing_local, missing_bind, Outcome, refused, done,
  refuse_if, >>=-eq-done, refuse_if-eq-done,
}
use rathole_x.ConfigEdit.Spec.{
  ServiceSpec, default_spec, is_empty, valid_host_port, take_type, take_address, spec_key, take_key,
  take_entry, take_pair, take_pairs, missing_address, parse_spec,
}

module _ (socket_addr : Text → Bool) where
  abbrev pub address_of : Side → ServiceSpec → Option Text
  address_of client s = s.local_addr
  address_of server s = s.bind_addr

  -- A specification as it stands between two entries: it has only its own side's address, which is valid.
  abbrev pub ValidAddress : Option Text → Type 0
  ValidAddress none = Unit
  ValidAddress (some a) = valid_host_port socket_addr a ≡ true

  abbrev pub other : Side → Side
  other client = server
  other server = client

  record IsPartial (side : Side) (s : ServiceSpec) : Type 0 where
    pub own : ValidAddress (address_of side s)
    pub no_other : address_of (other side) s ≡ none

  done-eq : {a b : ServiceSpec} → done a ≡ done b → a ≡ b
  done-eq h = cc

  by_test :
      {P : Type 0} (b : Bool) {x y z : Outcome ServiceSpec}
      → (b ≡ true → x ≡ z → P)
      → (y ≡ z → P)
      → (if b then x else y) ≡ z
      → P
  by_test true first second h = first refl h
  by_test false first second h = second h

  refused-IsPartial :
      (side : Side) {e : Error} {r : ServiceSpec}
      → ◌≡◌ {A = Outcome ServiceSpec} (refused e) (done r)
      → IsPartial side r
  refused-IsPartial side h = cc

  -- A change that leaves the addresses alone.
  same-IsPartial :
      (side : Side) (out next : ServiceSpec) {r : ServiceSpec}
      → next.local_addr ≡ out.local_addr
      → next.bind_addr ≡ out.bind_addr
      → IsPartial side out
      → done next ≡ done r
      → IsPartial side r
  same-IsPartial client out next p q i h =
      subst (IsPartial client) (done-eq h)
        (record { own = subst ValidAddress (sym p) i.own; no_other = q ∙ i.no_other })
  same-IsPartial server out next p q i h =
      subst (IsPartial server) (done-eq h)
        (record { own = subst ValidAddress (sym q) i.own; no_other = p ∙ i.no_other })

  type-IsPartial :
      (side : Side) (val : Text) (out : ServiceSpec) {r : ServiceSpec}
      → IsPartial side out
      → take_type val out ≡ done r
      → IsPartial side r
  type-IsPartial side val out i h =
      by_test (val == codes "tcp") (λ _. same-IsPartial side out out refl refl i)
        (by_test (val == codes "udp") (λ _. same-IsPartial side out _ refl refl i)
          (refused-IsPartial side))
        h

  address-IsPartial :
      (side : Side) (val : Text) (out : ServiceSpec) {r : ServiceSpec}
      → IsPartial side out
      → take_address socket_addr side val out ≡ done r
      → IsPartial side r
  address-IsPartial client val out i h =
      by_test (valid_host_port socket_addr val)
        (λ v e. subst (IsPartial client) (done-eq e) (record { own = v; no_other = i.no_other }))
        (refused-IsPartial client) h
  address-IsPartial server val out i h =
      by_test (valid_host_port socket_addr val)
        (λ v e. subst (IsPartial server) (done-eq e) (record { own = v; no_other = i.no_other }))
        (refused-IsPartial server) h

  key-IsPartial :
      (side : Side) (k val : Text) (out : ServiceSpec) {r : ServiceSpec}
      → IsPartial side out
      → take_key socket_addr side k val out ≡ done r
      → IsPartial side r
  key-IsPartial side k val out i h =
      by_test (k == codes "name") (λ _. same-IsPartial side out _ refl refl i)
        (by_test (k == codes "token") (λ _. same-IsPartial side out _ refl refl i)
          (by_test (k == codes "type") (λ _. type-IsPartial side val out i)
            (by_test (k == codes "server" || k == codes "remote") (λ _. refused-IsPartial side)
              (by_test (k == spec_key side) (λ _. address-IsPartial side val out i)
                (refused-IsPartial side)))))
        h

  pair-IsPartial :
      (side : Side) (pair : Text) (out : ServiceSpec) {r : ServiceSpec}
      → IsPartial side out
      → take_pair socket_addr side pair out ≡ done r
      → IsPartial side r
  pair-IsPartial side [] out i h = same-IsPartial side out out refl refl i h
  pair-IsPartial side (c ∷ pair) out {r} i h = by_entry (split_once b':' (c ∷ pair)) h
    where
      by_entry :
          (o : Option (Text × Text))
          → take_entry socket_addr side o (c ∷ pair) out ≡ done r
          → IsPartial side r
      by_entry none h = refused-IsPartial side h
      by_entry (some (k, val)) h = key-IsPartial side (trim k) (trim val) out i h

  pairs-IsPartial :
      (side : Side) (pairs : List Text) (out : ServiceSpec) {r : ServiceSpec}
      → IsPartial side out
      → take_pairs socket_addr side pairs out ≡ done r
      → IsPartial side r
  pairs-IsPartial side [] out i h = same-IsPartial side out out refl refl i h
  pairs-IsPartial side (pair ∷ pairs) out i h =
      let (next, first, later) =
        >>=-eq-done (take_pair socket_addr side (trim pair) out) (take_pairs socket_addr side pairs)
          h in
      pairs-IsPartial side pairs next (pair-IsPartial side (trim pair) out i first) later

  -- What `parse_spec` promises of a specification for a side.
  pub record IsSpec (side : Side) (s : ServiceSpec) : Type 0 where
    pub named : s.name ≢ []
    pub address : Text
    pub has_address : address_of side s ≡ some address
    pub address_valid : valid_host_port socket_addr address ≡ true
    pub no_other : address_of (other side) s ≡ none

  with_address :
      (side : Side) (s : ServiceSpec)
      → s.name ≢ []
      → IsPartial side s
      → is_none (address_of side s) ≡ false
      → IsSpec side s
  with_address side s n i = by_address (address_of side s) refl i.own
    where
      by_address :
          (o : Option Text)
          → address_of side s ≡ o
          → ValidAddress o
          → is_none o ≡ false
          → IsSpec side s
      by_address none q v h = cc
      by_address (some a) q v h = record {
        named = n;
        address = a;
        has_address = q;
        address_valid = v;
        no_other = i.no_other;
      }

  nonempty : (t : Text) → is_empty t ≡ false → t ≢ []
  nonempty [] h e = cc
  nonempty (_ ∷ _) h e = cc

  ended-IsSpec :
      (side : Side) (out : ServiceSpec) {r : ServiceSpec}
      → IsPartial side out
      → out.name ≢ []
      → missing_address side out ≡ done r
      → IsSpec side r
  ended-IsSpec client out i n h =
      let (_, tested, e) = >>=-eq-done (refuse_if (is_none out.local_addr) missing_local) _ h in
      subst (IsSpec client) (done-eq e)
        (with_address client out n i (refuse_if-eq-done _ missing_local tested))
  ended-IsSpec server out i n h =
      let (_, tested, e) = >>=-eq-done (refuse_if (is_none out.bind_addr) missing_bind) _ h in
      subst (IsSpec server) (done-eq e)
        (with_address server out n i (refuse_if-eq-done _ missing_bind tested))

  -- A specification that is accepted has a name that is not empty, a valid address of its own side, and
  -- none of the other.
  pub parse_spec-IsSpec :
      (spec : Text) (side : Side) (s : ServiceSpec)
      → parse_spec socket_addr spec side ≡ done s
      → IsSpec side s
  unfolding parse_spec
  parse_spec-IsSpec spec side s h =
      let (out, parsed, h1) =
        >>=-eq-done (take_pairs socket_addr side (split b';' spec) default_spec) _ h in
      let (_, tested, h2) = >>=-eq-done (refuse_if (is_empty out.name) missing_name) _ h1 in
      ended-IsSpec side out
        (pairs-IsPartial side (split b';' spec) default_spec (fresh side) parsed)
        (nonempty out.name (refuse_if-eq-done (is_empty out.name) missing_name tested)) h2
    where
      fresh : (side : Side) → IsPartial side default_spec
      fresh client = record { own = tt; no_other = refl }
      fresh server = record { own = tt; no_other = refl }
