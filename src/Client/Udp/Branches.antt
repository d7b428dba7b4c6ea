-- ===== src/Client/Udp/Branches.antt =====
-- Each branch of the UDP data channel of src/client.rs keeps the visitors apart.
use mathlib.Core.Path.{subst}
use rathole_x.Base.{
  ℕ, ◌≡◌, refl, sym, ap, ◌∙◌, inl, inr, Bool, true, false, Option, none, some, List, [], ◌∷◌, ◌++◌,
  if◌then◌else◌, nat_eq, All, All-append, arith, ◌==◌, Bool-cases, ltb, length, take,
  length-take_le,
}
use rathole_x.Base.Dict.{get, remove, get-insert, get-remove}
use rathole_x.Base.Net.{SocketAddr, socket_addr_eq}
use rathole_x.Base.Search.{change_by, All-change_by}
use rathole_x.MultiMap.Cells.{find_by, drop_by, All-drop_by, All-find_by}
use rathole_x.Protocol.{UdpTraffic}
use rathole_x.Client.Udp.{
  Forwarder, Place, reading, connecting, looking, sending, UdpLoop, spawned, found, push, send_to,
  with_inbound, udp_sendq_size, udp_buffer_size,
}
use rathole_x.Client.Udp.Table.{
  IsMap-drop_by, Below, All-Below-suc, numbers_fresh, IsOf, get-table-IsOf, get-table-drop_by,
}
use rathole_x.Client.Udp.Isolation.{
  OwnInbound, OwnWrite, ShortReply, PlaceOk, IsIsolated, some-eq, moved, changed, All-both,
  All-first,
}

module _ {s : UdpLoop} (i : IsIsolated s) where
  pub spawned-IsIsolated :
      (p : UdpTraffic) → get p.from s.port_map ≡ none → IsIsolated (spawned p s)
  unfolding get
  spawned-IsIsolated p none_yet = record {
    same_table = λ a.
        get-insert p.from a s.next s.port_map
        ∙ ap (λ o. if p.from == a then some s.next else o) (i.same_table a);
    one_each = (sym (i.same_table p.from) ∙ none_yet, i.one_each);
    own_numbers = (numbers_fresh s.next s.forwarders i.below, i.own_numbers);
    below = (omega arith, All-Below-suc s.next s.forwarders i.below);
    own_inbound = (tt, i.own_inbound);
    own_writes = i.own_writes;
    short_replies = i.short_replies;
    place_ok = tt;
  }

  pub found-IsIsolated :
      (p : UdpTraffic) (o : Option ℕ) → get p.from s.port_map ≡ o → IsIsolated (found p o s)
  found-IsIsolated p none q = moved reading i tt
  found-IsIsolated p (some n) q =
      moved (sending p n) i
        (get-table-IsOf n p.from s.forwarders i.own_numbers (sym (i.same_table p.from) ∙ q))

  pub send-IsIsolated :
      (p : UdpTraffic) (n : ℕ) {r : UdpLoop}
      → All (IsOf n p.from) s.forwarders
      → send_to p n s (find_by Forwarder.ident n s.forwarders) ≡ some r
      → IsIsolated r
  send-IsIsolated p n {r} of_visitor h = by_task (find_by Forwarder.ident n s.forwarders) h
    where
      visitor : (f : Forwarder) → f.ident ≡ n → IsOf n p.from f → p.from ≡ f.from
      visitor f q (inl d) = absurd (d q)
      visitor f q (inr e) = sym e

      own_push : (f : Forwarder) → p.from ≡ f.from → OwnInbound f → OwnInbound (push p f)
      own_push f e own = All-append (λ t. t.from ≡ f.from) f.inbound (p ∷ []) own (e, tt)

      pushed : IsIsolated (record s {
        place = reading;
        forwarders = change_by Forwarder.ident n (push p) s.forwarders;
      })
      pushed =
          changed n (push p) (λ f. (refl, refl)) reading s.to_service i
            (All-first OwnInbound (IsOf n p.from) _ (
              All-change_by Forwarder.ident (λ f. OwnInbound f × IsOf n p.from f) n (push p)
                s.forwarders (λ f q both. (own_push f (visitor f q both.1) both.0, both.1))
                (All-both OwnInbound (IsOf n p.from) s.forwarders i.own_inbound of_visitor)))
            i.own_writes tt

      by_task : (o : Option Forwarder) → send_to p n s o ≡ some r → IsIsolated r
      by_task none h = subst IsIsolated (some-eq h) (moved reading i tt)
      by_task (some f) h = elim (Bool-cases f.running) [
        | inr t ↦ subst IsIsolated (some-eq (rw t at h)) (moved reading i tt)
        | inl t ↦ elim (Bool-cases (ltb (length f.inbound) udp_sendq_size)) [
          | inl room ↦ subst IsIsolated (some-eq (rw (t, room) at h)) pushed
          | inr full ↦ let bad : ◌≡◌ {A = Option UdpLoop} none (some r) = rw (t, full) at h in cc
        ]
      ]

  pub forwarded-IsIsolated :
      (n : ℕ) (sent : Bool) (f : Forwarder) {r : UdpLoop}
      → find_by Forwarder.ident n s.forwarders ≡ some f
      → with_inbound n sent s f f.inbound ≡ some r
      → IsIsolated r
  forwarded-IsIsolated n sent f {r} here h = by_inbound f.inbound refl h
    where
      popped :
          (t : UdpTraffic) (rest : List UdpTraffic)
          → f.inbound ≡ t ∷ rest
          → (t.from ≡ f.from) × All (λ u. u.from ≡ f.from) rest
      popped t rest e =
          subst (All (λ u. u.from ≡ f.from)) e
            (All-find_by Forwarder.ident OwnInbound n s.forwarders {c = f} i.own_inbound here)

      writes :
          (t : UdpTraffic)
          → t.from ≡ f.from
          → (b : Bool) → All OwnWrite (if b then (f.from, t) ∷ s.to_service else s.to_service)
      writes t e true = (e, i.own_writes)
      writes t e false = i.own_writes

      same_task :
          (fs : List Forwarder)
          → find_by Forwarder.ident n fs ≡ some f
          → All OwnInbound fs
          → (rest : List UdpTraffic) → All (λ u. u.from ≡ f.from) rest
          → All OwnInbound
              (change_by Forwarder.ident n (λ g. record g { inbound = rest; running = sent }) fs)
      same_task [] q all rest own = tt
      same_task (g ∷ fs) q all rest own = elim (Bool-cases (g.ident == n)) [
        | inl t ↦
            let e : ◌≡◌ {A = Option Forwarder} (some g) (some f) = rw t at q in
            let same : f ≡ g = cc in
            rw t (subst (λ x. All (λ u. u.from ≡ x.from) rest) same own, all.1)
        | inr t ↦ rw t (all.0, same_task fs (rw t at q) all.1 rest own)
      ]

      by_inbound :
          (ts : List UdpTraffic)
          → f.inbound ≡ ts
          → with_inbound n sent s f ts ≡ some r
          → IsIsolated r
      by_inbound [] e h = cc
      by_inbound (t ∷ rest) e h =
          let (first, later) = popped t rest e in
          subst IsIsolated (some-eq h) (
            changed n (λ g. record g { inbound = rest; running = sent }) (λ g. (refl, refl)) s.place
              _ i (same_task s.forwarders here i.own_inbound rest later) (writes t first sent)
              i.place_ok)

  pub replied-IsIsolated :
      (from : SocketAddr) (payload : List ℕ)
      → IsIsolated (record s {
        outbound =
            s.outbound ++ record { from = from; payload = take udp_buffer_size payload } ∷ [];
      })
  replied-IsIsolated from payload = record {
    same_table = i.same_table;
    one_each = i.one_each;
    own_numbers = i.own_numbers;
    below = i.below;
    own_inbound = i.own_inbound;
    own_writes = i.own_writes;
    place_ok = i.place_ok;
    short_replies =
        All-append ShortReply s.outbound _ i.short_replies
          (length-take_le udp_buffer_size payload, tt);
  }

  pub broke-IsIsolated :
      (n : ℕ)
      → IsIsolated (record s {
        forwarders = change_by Forwarder.ident n (λ g. record g { running = false }) s.forwarders;
      })
  broke-IsIsolated n =
      changed n (λ g. record g { running = false }) (λ g. (refl, refl)) s.place s.to_service i
        (All-change_by Forwarder.ident OwnInbound n (λ g. record g { running = false }) s.forwarders
          (λ f _ own. own) i.own_inbound)
        i.own_writes i.place_ok

  pub cleaned-IsIsolated :
      (n : ℕ) (f : Forwarder)
      → find_by Forwarder.ident n s.forwarders ≡ some f
      → IsIsolated (record s {
        port_map = remove f.from s.port_map;
        forwarders = drop_by Forwarder.ident n s.forwarders;
      })
  cleaned-IsIsolated n f here = record {
    same_table = λ a.
        get-remove f.from a s.port_map
        ∙ ap (λ o. if f.from == a then none else o) (i.same_table a)
        ∙ sym (get-table-drop_by n s.forwarders {f = f} i.one_each here a);
    one_each = IsMap-drop_by Forwarder.from Forwarder.ident n s.forwarders i.one_each;
    own_numbers = IsMap-drop_by Forwarder.ident Forwarder.from n s.forwarders i.own_numbers;
    below = All-drop_by Forwarder.ident (Below s.next) n s.forwarders i.below;
    own_inbound = All-drop_by Forwarder.ident OwnInbound n s.forwarders i.own_inbound;
    own_writes = i.own_writes;
    short_replies = i.short_replies;
    place_ok = place s.place i.place_ok;
  }
    where
      place :
          (pl : Place)
          → PlaceOk pl s.port_map s.forwarders
          → PlaceOk pl (remove f.from s.port_map) (drop_by Forwarder.ident n s.forwarders)
      place reading ok = tt
      place (connecting p) ok = get-remove f.from p.from s.port_map ∙ absent (f.from == p.from)
        where
          absent : (b : Bool) → (if b then none else get p.from s.port_map) ≡ none
          absent true = refl
          absent false = ok
      place (looking p) ok = tt
      place (sending p m) ok = All-drop_by Forwarder.ident (IsOf m p.from) n s.forwarders ok
