-- ===== src/ConfigEdit/Set/Kept.antt =====
-- What setting the fields of a section in src/config_edit.rs leaves alone.
use rathole_x.Base.{
  ℕ, ◌≡◌, refl, sym, ap, ◌∙◌, Bool, true, false, Option, none, some, if◌then◌else◌, leb, Text,
  text_eq, codes, ◌==◌, eq_self,
}
use rathole_x.ConfigEdit.{
  number_too_large, transport_not_a_table, Outcome, refused, done, or_refuse, >>=-eq-done,
  or_refuse-eq-done,
}
use rathole_x.ConfigEdit.Toml.{Toml, with_value, text_in, text_in-put}
use rathole_x.ConfigEdit.Args.{SetArgs, transport_requested}
use rathole_x.ConfigEdit.Set.{
  put_text, put_flag, put_number, ensured, in_table, when, edit_transport, edit_section,
}

-- What was asked for is what there is.
abbrev pub Says : Option Text → Option Text → Type 0
Says none o = Unit
Says (some s) o = o ≡ some s

done-eq {ℓ} : {A : Type ℓ} {a b : A} → done a ≡ done b → a ≡ b
done-eq h = cc

module _ (toml : Toml) (j : Text) where
  put-other :
      (k : Text) (x : toml.Item) (t : toml.Table)
      → (k == j) ≡ false
      → toml.lookup j (toml.put k x t) ≡ toml.lookup j t
  put-other k x t d = toml.lookup-put k j x t ∙ by_test (k == j) d
    where
      by_test :
          (b : Bool)
          → b ≡ false
          → (if b then some (toml.stored t x) else toml.lookup j t) ≡ toml.lookup j t
      by_test true d = cc
      by_test false d = refl

  pub put_text-other :
      (k : Text) (o : Option Text) (t : toml.Table)
      → (k == j) ≡ false
      → toml.lookup j (put_text toml k o t) ≡ toml.lookup j t
  put_text-other k none t d = refl
  put_text-other k (some s) t d = put-other k (toml.text s) t d

  put_flag-other :
      (k : Text) (o : Option Bool) (t : toml.Table)
      → (k == j) ≡ false
      → toml.lookup j (put_flag toml k o t) ≡ toml.lookup j t
  put_flag-other k none t d = refl
  put_flag-other k (some b) t d = put-other k (toml.flag b) t d

  put_number-other :
      (k : Text) (o : Option ℕ) (t u : toml.Table)
      → (k == j) ≡ false
      → put_number toml k o t ≡ done u
      → toml.lookup j u ≡ toml.lookup j t
  put_number-other k none t u d h = ap (toml.lookup j) (sym (done-eq h))
  put_number-other k (some n) t u d h = by_test (leb n 9223372036854775807) h
    where
      by_test :
          (b : Bool)
          → (if b then done (toml.put k (toml.number n) t) else refused number_too_large) ≡ done u
          → toml.lookup j u ≡ toml.lookup j t
      by_test true h = ap (toml.lookup j) (sym (done-eq h)) ∙ put-other k (toml.number n) t d
      by_test false h = cc

  ensured-other :
      (k : Text) (o : Option toml.Item) (t : toml.Table)
      → (k == j) ≡ false
      → toml.lookup j (ensured toml k o t) ≡ toml.lookup j t
  ensured-other k none t d = put-other k (toml.table toml.empty) t d
  ensured-other k (some _) t d = refl

  in_table-other :
      (k : Text) (edit : toml.Table → Outcome toml.Table) (t u : toml.Table)
      → (k == j) ≡ false
      → in_table toml k edit t ≡ done u
      → toml.lookup j u ≡ toml.lookup j t
  in_table-other k edit t u d h =
      let there = ensured toml k (toml.lookup k t) t in
      let (item, a, h1) = >>=-eq-done (or_refuse transport_not_a_table (toml.lookup k there)) _ h in
      let (inner, b, h2) =
        >>=-eq-done (or_refuse transport_not_a_table (toml.as_plain_table item)) _ h1 in
      let (inner', c, h3) = >>=-eq-done (edit inner) _ h2 in
      ap (toml.lookup j) (sym (done-eq h3))
      ∙ toml.lookup-update k j (toml.with_table item inner') item there
          (or_refuse-eq-done transport_not_a_table _ a)
      ∙ by_test (k == j) d (some (toml.with_table item inner')) (toml.lookup j there)
      ∙ ensured-other k (toml.lookup k t) t d
    where
      by_test : (b : Bool) → b ≡ false → (x y : Option toml.Item) → (if b then x else y) ≡ y
      by_test true d x y = cc
      by_test false d x y = refl

  when-other :
      (b : Bool) (edit : toml.Table → Outcome toml.Table) (t u : toml.Table)
      → (edit t ≡ done u → toml.lookup j u ≡ toml.lookup j t)
      → when toml b edit t ≡ done u
      → toml.lookup j u ≡ toml.lookup j t
  when-other true edit t u f h = f h
  when-other false edit t u f h = ap (toml.lookup j) (sym (done-eq h))

  -- The section with its texts set, before the other fields.
  abbrev pub with_texts : SetArgs → toml.Table → toml.Table
  with_texts a t = put_text toml (codes "default_token") a.default_token (
      put_text toml (codes "bind_addr") a.bind_addr
        (put_text toml (codes "remote_addr") a.remote_addr t))

  -- A key that is none of the fields that are not texts.
  pub edit_section-other :
      (private_key : Text) (a : SetArgs) (t u : toml.Table)
      → (codes "prefer_ipv6" == j) ≡ false
      → (codes "heartbeat_timeout" == j) ≡ false
      → (codes "retry_interval" == j) ≡ false
      → (codes "heartbeat_interval" == j) ≡ false
      → (codes "transport" == j) ≡ false
      → edit_section toml private_key a t ≡ done u
      → toml.lookup j u ≡ toml.lookup j (with_texts a t)
  edit_section-other private_key a t u d1 d2 d3 d4 d5 h =
      let flagged = put_flag toml (codes "prefer_ipv6") a.prefer_ipv6 (with_texts a t) in
      let (t1, s1, h1) =
        >>=-eq-done (put_number toml (codes "heartbeat_timeout") a.heartbeat_timeout flagged) _ h in
      let (t2, s2, h2) =
        >>=-eq-done (put_number toml (codes "retry_interval") a.retry_interval t1) _ h1 in
      let (t3, s3, h3) =
        >>=-eq-done (put_number toml (codes "heartbeat_interval") a.heartbeat_interval t2) _ h2 in
      when-other (transport_requested a)
        (in_table toml (codes "transport") (edit_transport toml private_key a)) t3 u
        (in_table-other (codes "transport") (edit_transport toml private_key a) t3 u d5) h3
      ∙ put_number-other (codes "heartbeat_interval") a.heartbeat_interval t2 t3 d4 s3
      ∙ put_number-other (codes "retry_interval") a.retry_interval t1 t2 d3 s2
      ∙ put_number-other (codes "heartbeat_timeout") a.heartbeat_timeout flagged t1 d2 s1
      ∙ put_flag-other (codes "prefer_ipv6") a.prefer_ipv6 (with_texts a t) d1

module _ (toml : Toml) where
  pub put_text-Says :
      (k : Text) (o : Option Text) (t : toml.Table) → Says o (text_in toml k (put_text toml k o t))
  put_text-Says k none t = tt
  put_text-Says k (some s) t = text_in-put toml k k s t ∙ by_test (k == k) (eq_self k)
    where
      by_test : (b : Bool) → b ≡ true → (if b then some s else text_in toml k t) ≡ some s
      by_test true h = refl
      by_test false h = cc

  text_in-same :
      (k : Text) (t u : toml.Table)
      → toml.lookup k u ≡ toml.lookup k t
      → text_in toml k u ≡ text_in toml k t
  text_in-same k t u h = ap (λ o. with_value o toml.as_text) h

  Says-same : (o : Option Text) {p q : Option Text} → q ≡ p → Says o p → Says o q
  Says-same none h s = tt
  Says-same (some _) h s = h ∙ s

  module _ (private_key : Text) (a : SetArgs) (t u : toml.Table)
      (h : edit_section toml private_key a t ≡ done u) where
    pub edit_section-services : toml.lookup (codes "services") u ≡ toml.lookup (codes "services") t
    edit_section-services =
        edit_section-other toml (codes "services") private_key a t u refl refl refl refl refl h
        ∙ put_text-other toml (codes "services") (codes "default_token") a.default_token _ refl
        ∙ put_text-other toml (codes "services") (codes "bind_addr") a.bind_addr _ refl
        ∙ put_text-other toml (codes "services") (codes "remote_addr") a.remote_addr t refl

    pub edit_section-remote_addr : Says a.remote_addr (text_in toml (codes "remote_addr") u)
    edit_section-remote_addr =
        Says-same a.remote_addr
          (text_in-same (codes "remote_addr") (put_text toml (codes "remote_addr") a.remote_addr t)
            u
            (edit_section-other toml (codes "remote_addr") private_key a t u refl refl refl refl
                refl h
              ∙ put_text-other toml (codes "remote_addr") (codes "default_token") a.default_token _
                  refl
              ∙ put_text-other toml (codes "remote_addr") (codes "bind_addr") a.bind_addr _ refl))
          (put_text-Says (codes "remote_addr") a.remote_addr t)

    pub edit_section-bind_addr : Says a.bind_addr (text_in toml (codes "bind_addr") u)
    edit_section-bind_addr =
        let earlier = put_text toml (codes "remote_addr") a.remote_addr t in
        Says-same a.bind_addr
          (text_in-same (codes "bind_addr") (put_text toml (codes "bind_addr") a.bind_addr earlier)
            u
            (edit_section-other toml (codes "bind_addr") private_key a t u refl refl refl refl refl
                h
              ∙ put_text-other toml (codes "bind_addr") (codes "default_token") a.default_token _
                  refl))
          (put_text-Says (codes "bind_addr") a.bind_addr earlier)

    pub edit_section-default_token : Says a.default_token (text_in toml (codes "default_token") u)
    edit_section-default_token =
        Says-same a.default_token
          (text_in-same (codes "default_token") (with_texts toml (codes "default_token") a t) u (
            edit_section-other toml (codes "default_token") private_key a t u refl refl refl refl
              refl h))
          (put_text-Says (codes "default_token") a.default_token (
            put_text toml (codes "bind_addr") a.bind_addr
              (put_text toml (codes "remote_addr") a.remote_addr t)))
