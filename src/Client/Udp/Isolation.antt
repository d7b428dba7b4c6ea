-- ===== src/Client/Udp/Isolation.antt =====
-- Visitors of a UDP service of src/client.rs do not get each other's datagrams.
use mathlib.Core.Path.{subst}
use rathole_x.Base.{
  ℕ, ◌≡◌, refl, sym, ap, ◌∙◌, ◌≤◌, inl, inr, Option, none, some, List, [], ◌∷◌, nat_eq, All, length,
}
use rathole_x.Base.Dict.{Dict, get, IsMap}
use rathole_x.Base.Net.{SocketAddr, socket_addr_eq}
use rathole_x.Base.Search.{change_by, All-change_by}
use rathole_x.Protocol.{UdpTraffic}
use rathole_x.Client.Udp.{
  Forwarder, Place, reading, connecting, looking, sending, UdpLoop, start, udp_buffer_size,
}
use rathole_x.Client.Udp.Table.{index-change_by, table, numbers, Below, IsOf}

-- The queue of a forwarder holds its visitor's datagrams.
abbrev pub OwnInbound : Forwarder → Type 0
OwnInbound f = All (λ t. t.from ≡ f.from) f.inbound

abbrev pub OwnWrite : SocketAddr × UdpTraffic → Type 0
OwnWrite x = x.1.from ≡ x.0

-- A reply is as long as a buffer at most.
abbrev pub ShortReply : UdpTraffic → Type 0
ShortReply t = length t.payload ≤ udp_buffer_size

-- What the loop knows where it is.
abbrev pub PlaceOk : Place → Dict SocketAddr ℕ → List Forwarder → Type 0
PlaceOk reading m fs = Unit
PlaceOk (connecting p) m fs = get p.from m ≡ none
PlaceOk (looking p) m fs = Unit
PlaceOk (sending p i) m fs = All (IsOf i p.from) fs

pub record IsIsolated (s : UdpLoop) : Type 0 where
  pub same_table : (a : SocketAddr) → get a s.port_map ≡ get a (table s.forwarders)
  pub one_each : IsMap (table s.forwarders)
  pub own_numbers : IsMap (numbers s.forwarders)
  pub below : All (Below s.next) s.forwarders
  pub own_inbound : All OwnInbound s.forwarders
  pub own_writes : All OwnWrite s.to_service
  pub short_replies : All ShortReply s.outbound
  pub place_ok : PlaceOk s.place s.port_map s.forwarders

pub start-IsIsolated : IsIsolated start
unfolding get
start-IsIsolated = record {
  same_table = λ a. refl;
  one_each = tt;
  own_numbers = tt;
  below = tt;
  own_inbound = tt;
  own_writes = tt;
  short_replies = tt;
  place_ok = tt;
}

pub some-eq : {a b : UdpLoop} → ◌≡◌ {A = Option UdpLoop} (some a) (some b) → a ≡ b
some-eq h = cc

-- A step of the loop that only moves on.
pub moved :
    {s : UdpLoop} (place : Place)
    → IsIsolated s
    → PlaceOk place s.port_map s.forwarders
    → IsIsolated (record s { place = place })
moved place i ok = record {
  same_table = i.same_table;
  one_each = i.one_each;
  own_numbers = i.own_numbers;
  below = i.below;
  own_inbound = i.own_inbound;
  own_writes = i.own_writes;
  short_replies = i.short_replies;
  place_ok = ok;
}

-- What holds of all, with what holds of all besides.
pub All-both :
    (P Q : Forwarder → Type 0) (fs : List Forwarder) → All P fs → All Q fs → All (λ f. P f × Q f) fs
All-both P Q [] a b = tt
All-both P Q (f ∷ fs) a b = ((a.0, b.0), All-both P Q fs a.1 b.1)

pub All-first :
    (P Q : Forwarder → Type 0) (fs : List Forwarder) → All (λ f. P f × Q f) fs → All P fs
All-first P Q [] a = tt
All-first P Q (f ∷ fs) a = (a.0.0, All-first P Q fs a.1)

-- The table and the place when a forwarder changes but its number and its visitor do not.
module _ (n : ℕ) (change : Forwarder → Forwarder)
    (keep : (f : Forwarder) → ((change f).ident ≡ f.ident) × ((change f).from ≡ f.from)) where
  keep-IsOf :
      (i : ℕ) (a : SocketAddr) (fs : List Forwarder)
      → All (IsOf i a) fs
      → All (IsOf i a) (change_by Forwarder.ident n change fs)
  keep-IsOf i a fs all =
      All-change_by Forwarder.ident (IsOf i a) n change fs
        (λ c _ o. elim o [
          | inl d ↦ inl (λ q. d (sym (keep c).0 ∙ q))
          | inr q ↦ inr ((keep c).1 ∙ q)
        ])
        all

  keep-PlaceOk :
      (place : Place) (m : Dict SocketAddr ℕ) (fs : List Forwarder)
      → PlaceOk place m fs
      → PlaceOk place m (change_by Forwarder.ident n change fs)
  keep-PlaceOk reading m fs ok = tt
  keep-PlaceOk (connecting p) m fs ok = ok
  keep-PlaceOk (looking p) m fs ok = tt
  keep-PlaceOk (sending p i) m fs ok = keep-IsOf i p.from fs ok

  pub changed :
      {s : UdpLoop} (place : Place) (out : List (SocketAddr × UdpTraffic))
      → IsIsolated s
      → All OwnInbound (change_by Forwarder.ident n change s.forwarders)
      → All OwnWrite out
      → PlaceOk place s.port_map s.forwarders
      → IsIsolated (record s {
        place = place;
        forwarders = change_by Forwarder.ident n change s.forwarders;
        to_service = out;
      })
  changed {s} place out i own writes ok =
      let same : table (change_by Forwarder.ident n change s.forwarders) ≡ table s.forwarders =
        index-change_by Forwarder.from Forwarder.ident n change s.forwarders
          (λ f. ((keep f).1, (keep f).0)) in
      let nums : numbers (change_by Forwarder.ident n change s.forwarders) ≡ numbers s.forwarders =
        index-change_by Forwarder.ident Forwarder.from n change s.forwarders keep in
      record {
        same_table = λ a. i.same_table a ∙ ap (get a) (sym same);
        one_each = subst IsMap (sym same) i.one_each;
        own_numbers = subst IsMap (sym nums) i.own_numbers;
        below =
            All-change_by Forwarder.ident (Below s.next) n change s.forwarders
              (λ c _ b. rw (keep c).0 b) i.below;
        own_inbound = own;
        own_writes = writes;
        short_replies = i.short_replies;
        place_ok = keep-PlaceOk place s.port_map s.forwarders ok;
      }
