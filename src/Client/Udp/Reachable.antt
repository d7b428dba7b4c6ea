-- ===== src/Client/Udp/Reachable.antt =====
-- Every state that the tasks of a UDP data channel of src/client.rs reach keeps the visitors apart.
use mathlib.Core.Path.{subst}
use rathole_x.Base.{
  map, ℕ, ◌≡◌, refl, ◌<◌, inl, inr, true, false, Option, none, some, List, [], ◌∷◌, ◌++◌,
  if◌then◌else◌, nat_eq, All, arith, Bool-cases, length, is_none,
}
use rathole_x.Base.Dict.{get}
use rathole_x.Base.Net.{socket_addr_eq}
use rathole_x.MultiMap.Cells.{find_by}
use rathole_x.Protocol.{Wire, UdpTraffic, done}
use rathole_x.Protocol.Udp.{write_all, read_all, read_all-write_all, delivered}
use rathole_x.Client.Udp.{
  Forwarder, Place, reading, connecting, looking, sending, UdpLoop, Event, packet_read,
  connect_done, sender_found, packet_sent, forwarded, replied, broke, cleaned_up, start, main_step,
  forwarder_step, step, and_then, run,
}
use rathole_x.Client.Udp.Isolation.{
  ShortReply, PlaceOk, IsIsolated, start-IsIsolated, some-eq, moved,
}
use rathole_x.Client.Udp.Branches.{
  spawned-IsIsolated, found-IsIsolated, send-IsIsolated, forwarded-IsIsolated, replied-IsIsolated,
  broke-IsIsolated, cleaned-IsIsolated,
}

-- A step of the forwarder with number `n`.
abbrev OfTask : ℕ → Event → Type 0
OfTask n (forwarded m _) = n ≡ m
OfTask n (replied m _) = n ≡ m
OfTask n (broke m) = n ≡ m
OfTask n (cleaned_up m) = n ≡ m
OfTask n (packet_read _) = ⊥
OfTask n (connect_done _) = ⊥
OfTask n sender_found = ⊥
OfTask n packet_sent = ⊥

module _ {s r : UdpLoop} (i : IsIsolated s) where
  stuck : ◌≡◌ {A = Option UdpLoop} none (some r) → IsIsolated r
  stuck h = cc

  forwarder_step-IsIsolated :
      (e : Event) (n : ℕ) (o : Option Forwarder)
      → find_by Forwarder.ident n s.forwarders ≡ o
      → OfTask n e
      → forwarder_step e s o ≡ some r
      → IsIsolated r
  forwarder_step-IsIsolated (forwarded m sent) n none q t h = stuck h
  forwarder_step-IsIsolated (forwarded m sent) n (some f) q t h = elim (Bool-cases f.running) [
    | inl on ↦ forwarded-IsIsolated i m sent f (rw (← t) q) (rw on at h)
    | inr off ↦ stuck (rw off at h)
  ]
  forwarder_step-IsIsolated (replied m payload) n none q t h = stuck h
  forwarder_step-IsIsolated (replied m payload) n (some f) q t h = elim (Bool-cases f.running) [
    | inl on ↦ subst IsIsolated (some-eq (rw on at h)) (replied-IsIsolated i f.from payload)
    | inr off ↦ stuck (rw off at h)
  ]
  forwarder_step-IsIsolated (broke m) n none q t h = stuck h
  forwarder_step-IsIsolated (broke m) n (some f) q t h = elim (Bool-cases f.running) [
    | inl on ↦ subst IsIsolated (some-eq (rw on at h)) (broke-IsIsolated i m)
    | inr off ↦ stuck (rw off at h)
  ]
  forwarder_step-IsIsolated (cleaned_up m) n none q t h = stuck h
  forwarder_step-IsIsolated (cleaned_up m) n (some f) q t h = elim (Bool-cases f.running) [
    | inl on ↦ stuck (rw on at h)
    | inr off ↦ subst IsIsolated (some-eq (rw off at h)) (cleaned-IsIsolated i m f (rw (← t) q))
  ]
  forwarder_step-IsIsolated (packet_read p) n o q t h = absurd t
  forwarder_step-IsIsolated (connect_done ok) n o q t h = absurd t
  forwarder_step-IsIsolated sender_found n o q t h = absurd t
  forwarder_step-IsIsolated packet_sent n o q t h = absurd t

  main_step-IsIsolated :
      (e : Event) (place : Place) → s.place ≡ place → main_step e place s ≡ some r → IsIsolated r
  main_step-IsIsolated (packet_read p) reading q h = read (get p.from s.port_map) refl h
    where
      read :
          (o : Option ℕ)
          → get p.from s.port_map ≡ o
          → some (record s { place = if is_none o then connecting p else looking p }) ≡ some r
          → IsIsolated r
      read none e h = subst IsIsolated (some-eq h) (moved (connecting p) i e)
      read (some n) e h = subst IsIsolated (some-eq h) (moved (looking p) i tt)
  main_step-IsIsolated (connect_done true) (connecting p) q h =
      subst IsIsolated (some-eq h)
        (spawned-IsIsolated i p (subst (λ pl. PlaceOk pl s.port_map s.forwarders) q i.place_ok))
  main_step-IsIsolated (connect_done false) (connecting p) q h =
      subst IsIsolated (some-eq h) (moved (looking p) i tt)
  main_step-IsIsolated sender_found (looking p) q h =
      subst IsIsolated (some-eq h) (found-IsIsolated i p (get p.from s.port_map) refl)
  main_step-IsIsolated packet_sent (sending p n) q h =
      send-IsIsolated i p n (subst (λ pl. PlaceOk pl s.port_map s.forwarders) q i.place_ok) h
  main_step-IsIsolated (packet_read p) (connecting _) q h = stuck h
  main_step-IsIsolated (packet_read p) (looking _) q h = stuck h
  main_step-IsIsolated (packet_read p) (sending _ _) q h = stuck h
  main_step-IsIsolated (connect_done true) reading q h = stuck h
  main_step-IsIsolated (connect_done true) (looking _) q h = stuck h
  main_step-IsIsolated (connect_done true) (sending _ _) q h = stuck h
  main_step-IsIsolated (connect_done false) reading q h = stuck h
  main_step-IsIsolated (connect_done false) (looking _) q h = stuck h
  main_step-IsIsolated (connect_done false) (sending _ _) q h = stuck h
  main_step-IsIsolated sender_found reading q h = stuck h
  main_step-IsIsolated sender_found (connecting _) q h = stuck h
  main_step-IsIsolated sender_found (sending _ _) q h = stuck h
  main_step-IsIsolated packet_sent reading q h = stuck h
  main_step-IsIsolated packet_sent (connecting _) q h = stuck h
  main_step-IsIsolated packet_sent (looking _) q h = stuck h
  main_step-IsIsolated (forwarded _ _) place q h = stuck h
  main_step-IsIsolated (replied _ _) place q h = stuck h
  main_step-IsIsolated (broke _) place q h = stuck h
  main_step-IsIsolated (cleaned_up _) place q h = stuck h

  step-IsIsolated : (e : Event) → step e s ≡ some r → IsIsolated r
  unfolding step
  step-IsIsolated (forwarded n sent) h =
      forwarder_step-IsIsolated (forwarded n sent) n _ refl refl h
  step-IsIsolated (replied n payload) h =
      forwarder_step-IsIsolated (replied n payload) n _ refl refl h
  step-IsIsolated (broke n) h = forwarder_step-IsIsolated (broke n) n _ refl refl h
  step-IsIsolated (cleaned_up n) h = forwarder_step-IsIsolated (cleaned_up n) n _ refl refl h
  step-IsIsolated (packet_read p) h = main_step-IsIsolated (packet_read p) s.place refl h
  step-IsIsolated (connect_done ok) h = main_step-IsIsolated (connect_done ok) s.place refl h
  step-IsIsolated sender_found h = main_step-IsIsolated sender_found s.place refl h
  step-IsIsolated packet_sent h = main_step-IsIsolated packet_sent s.place refl h

run_from-IsIsolated :
    (es : List Event) {s r : UdpLoop} → IsIsolated s → run es s ≡ some r → IsIsolated r
unfolding run
run_from-IsIsolated [] i h = subst IsIsolated (some-eq h) i
run_from-IsIsolated (e ∷ es) {s} {r} i h =
    by_step (λ x j. run_from-IsIsolated es {s = x} {r = r} j) (step e s) refl h
  where
    by_step :
        ((x : UdpLoop) → IsIsolated x → run es x ≡ some r → IsIsolated r)
        → (o : Option UdpLoop) → step e s ≡ o
        → and_then o (run es) ≡ some r
        → IsIsolated r
    by_step later none q h = cc
    by_step later (some x) q h = later x (step-IsIsolated {s = s} {r = x} i e q) h

-- In whatever order the loop and the forwarders of a data channel take their steps: the port map has
-- exactly the forwarders that are not yet cleaned up, one for each visitor; the queue of a forwarder
-- holds datagrams of its visitor only; a datagram reaches the local service only from the socket of
-- the visitor who sent it; and a reply has at most 2048 bytes.
pub run-IsIsolated : (es : List Event) (s : UdpLoop) → run es start ≡ some s → IsIsolated s
run-IsIsolated es s h = run_from-IsIsolated es start-IsIsolated h

ShortReply-small :
    (ts : List UdpTraffic) → All ShortReply ts → All (λ t. length t.payload < 65536) ts
ShortReply-small [] a = tt
ShortReply-small (t ∷ ts) a = (omega (arith, a.0), ShortReply-small ts a.1)

-- The server reads back every reply that the forwarders of a data channel queued, whole, in order and
-- with the visitor it is for, whose flow label and scope are 0 if it is an IPv6 address, from what
-- the client wrote of them.
pub read_all-run :
    (w : Wire) (es : List Event) (s : UdpLoop) (rest : List ℕ)
    → run es start ≡ some s
    → read_all w (length s.outbound) (write_all w s.outbound ++ rest)
      ≡ done (map delivered s.outbound, rest)
read_all-run w es s rest h =
    read_all-write_all w s.outbound rest
      (ShortReply-small s.outbound (run-IsIsolated es s h).short_replies)
