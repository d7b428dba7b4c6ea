-- ===== src/ConfigEdit/Add/Checks.antt =====
-- The checks of a batch in src/config_edit.rs, and the section that it may create.
use rathole_x.Base.{
  ◌≡◌, inl, inr, refl, sym, ap, ◌∙◌, Bool, true, false, not, ◌&&◌, ◌||◌, Option, none, some, List,
  [], ◌∷◌, if◌then◌else◌, is_some, Text, text_eq, codes, ◌==◌, All, Bool-cases, ==-cases,
}
use rathole_x.ConfigEdit.{
  Side, client, server, key, side_beq, duplicate, exists, done, refuse_if, >>=-eq-done,
  refuse_if-eq-done,
}
use rathole_x.ConfigEdit.Toml.{Toml, with_value}
use rathole_x.ConfigEdit.Spec.{PendingService}
use rathole_x.ConfigEdit.Add.{
  service_at, service_exists, is_pending, among, check_batch, any_of, new_server_section,
  with_server_section, check_exists,
}
use rathole_x.ConfigEdit.Add.Replace.{side_beq-eq}
use rathole_x.ConfigEdit.Add.Insert.{Apart}

-- What stood there still does.
abbrev pub Kept {ℓ} : {A : Type ℓ} → Option A → Option A → Type ℓ
Kept none after = Unit
Kept (some x) after = after ≡ some x

module _ (toml : Toml) where
  pub all-kept :
      {A : Type 0} (o after : Option A) → ((x : A) → o ≡ some x → after ≡ some x) → Kept o after
  all-kept none after f = tt
  all-kept (some x) after f = f x refl

  flip_sides : (a b : Side) → side_beq a b ≡ side_beq b a
  flip_sides client client = refl
  flip_sides client server = refl
  flip_sides server client = refl
  flip_sides server server = refl

  flip_texts : (a b : Text) → (a == b) ≡ (b == a)
  flip_texts a b = elim (==-cases a b) [
    | inl (t, e) ↦ rw e refl
    | inr (t, d) ↦ elim (==-cases b a) [
      | inl (_, e) ↦ absurd (d (sym e))
      | inr (u, _) ↦ rw (t, u) refl
    ]
  ]

  flip_pending :
      (p q : PendingService toml)
      → is_pending toml p.side p.name q ≡ is_pending toml q.side q.name p
  flip_pending p q = rw (flip_sides q.side p.side, flip_texts q.name p.name) refl

  or-false : (a b : Bool) → (a || b) ≡ false → (a ≡ false) × (b ≡ false)
  or-false true b h = cc
  or-false false b h = (refl, h)

  -- The batch has each service once.
  pub check_batch-Apart :
      (seen ps : List (PendingService toml)) {u : Unit {0}}
      → check_batch toml seen ps ≡ done u
      → All (λ p. among toml p.side p.name seen ≡ false) ps × Apart toml ps
  check_batch-Apart seen [] h = (tt, tt)
  check_batch-Apart seen (p ∷ ps) h =
      let (_, tested, later) =
        >>=-eq-done (refuse_if (among toml p.side p.name seen) (duplicate p.side p.name)) _ h in
      let (unseen, apart) = check_batch-Apart (p ∷ seen) ps later in
      (
        (refuse_if-eq-done _ (duplicate p.side p.name) tested, older ps unseen),
        (fresh ps unseen, apart),
      )
    where
      older :
          (qs : List (PendingService toml))
          → All (λ q. among toml q.side q.name (p ∷ seen) ≡ false) qs
          → All (λ q. among toml q.side q.name seen ≡ false) qs
      older [] a = tt
      older (q ∷ qs) a = ((or-false (is_pending toml q.side q.name p) _ a.0).1, older qs a.1)

      fresh :
          (qs : List (PendingService toml))
          → All (λ q. among toml q.side q.name (p ∷ seen) ≡ false) qs
          → among toml p.side p.name qs ≡ false
      fresh [] a = refl
      fresh (q ∷ qs) a =
          let differ : is_pending toml p.side p.name q ≡ false =
            flip_pending p q ∙ (or-false (is_pending toml q.side q.name p) _ a.0).0 in
          rw (differ, fresh qs a.1) refl

  -- A service that is there is not among those that are added.
  pub check_exists-among :
      (ps : List (PendingService toml)) (doc : toml.Table) {u : Unit {0}}
      → check_exists toml ps doc ≡ done u
      → (side : Side) (name : Text) (x : toml.Item) → service_at toml side name doc ≡ some x
      → among toml side name ps ≡ false
  check_exists-among [] doc h side name x there = refl
  check_exists-among (p ∷ ps) doc h side name x there =
      let (_, tested, later) =
        >>=-eq-done (refuse_if (service_exists toml doc p.side p.name) (exists p.side p.name)) _
          h in
      rw
        (
          differs (refuse_if-eq-done _ (exists p.side p.name) tested),
          check_exists-among ps doc later side name x there,
        )
        refl
    where
      differs : service_exists toml doc p.side p.name ≡ false → is_pending toml side name p ≡ false
      differs absent = elim (Bool-cases (side_beq p.side side)) [
        | inr s ↦ rw s refl
        | inl s ↦ elim (==-cases p.name name) [
          | inr (n, _) ↦ rw (s, n) refl
          | inl (_, e) ↦
              let here : service_at toml p.side p.name doc ≡ some x =
                rw (side_beq-eq p.side side s, e) there in
              let bad : true ≡ false = rw here at absent in cc
        ]
      ]

  -- The new section of a server takes nothing away.
  pub with_server_section-kept :
      (ps : List (PendingService toml)) (doc : toml.Table) (side : Side) (name : Text)
      (x : toml.Item)
      → service_at toml side name doc ≡ some x
      → service_at toml side name (with_server_section toml ps doc) ≡ some x
  with_server_section-kept ps doc side name x there =
      by_need (any_of toml server ps) (toml.lookup (key server) doc) refl
    where
      within : Side → Option toml.Item → Option toml.Item
      within side o =
          with_value
            (with_value (with_value o toml.as_table)
              (λ section. with_value (toml.lookup (codes "services") section) toml.as_table))
            (toml.lookup name)

      new : toml.Table
      new = toml.put (codes "server") (toml.table (new_server_section toml)) doc

      added_section : toml.lookup (key server) doc ≡ none → service_at toml side name new ≡ some x
      added_section absent = by_side side there
        where
          by_side :
              (side : Side)
              → service_at toml side name doc ≡ some x
              → service_at toml side name new ≡ some x
          by_side client there =
              ap (within client) (toml.lookup-put (codes "server") (codes "client") _ doc) ∙ there
          by_side server there =
              let bad : ◌≡◌ {A = Option toml.Item} none (some x) = rw absent at there in cc

      by_need :
          (b : Bool) (o : Option toml.Item)
          → toml.lookup (key server) doc ≡ o
          → service_at toml side name (if b && not (is_some o) then new else doc) ≡ some x
      by_need true none q = added_section q
      by_need true (some _) q = there
      by_need false o q = there
