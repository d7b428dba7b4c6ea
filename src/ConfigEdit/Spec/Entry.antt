-- ===== src/ConfigEdit/Spec/Entry.antt =====
-- The entry of the document that a specification of src/config_edit.rs becomes.
use rathole_x.Base.{◌≡◌, ◌≢◌, ◌∙◌, Bool, true, Option, none, some, [], Text, text_eq, codes}
use rathole_x.ConfigEdit.{Side, client, server}
use rathole_x.ConfigEdit.Toml.{Toml, text_in, text_in-put}
use rathole_x.ConfigEdit.Spec.{
  ServiceSpec, valid_host_port, PendingService, put_text, token_or, spec_to_pending,
}
use rathole_x.ConfigEdit.Spec.Sound.{address_of, other, IsSpec}

abbrev pub address_key : Side → Text
address_key client = codes "local_addr"
address_key server = codes "bind_addr"

-- The entry of a service that is ready to be written has a valid address of its side, and a token.
pub record IsReady (toml : Toml) (socket_addr : Text → Bool) (p : PendingService toml)
    : Type 0 where
  pub named : p.name ≢ []
  pub address : Text
  pub has_address : text_in toml (address_key p.side) p.entry ≡ some address
  pub address_valid : valid_host_port socket_addr address ≡ true
  pub token : Text
  pub has_token : text_in toml (codes "token") p.entry ≡ some token

module _ (toml : Toml) (socket_addr : Text → Bool) where
  abbrev before_token : Option Text → Option Text → Option Text → toml.Table
  before_token type local bind =
      put_text toml (codes "bind_addr") bind
        (put_text toml (codes "local_addr") local (put_text toml (codes "type") type toml.empty))

  entry-address :
      (side : Side) (spec : ServiceSpec) (t : Text) (type : Option Text) (address : Text)
      → address_of socket_addr side spec ≡ some address
      → address_of socket_addr (other socket_addr side) spec ≡ none
      → text_in toml (address_key side) (
          toml.put (codes "token") (toml.text t) (before_token type spec.local_addr spec.bind_addr))
        ≡ some address
  entry-address client spec t type address q r =
      text_in-put toml (codes "token") (codes "local_addr") t _
      ∙ rw (q, r) (text_in-put toml (codes "local_addr") (codes "local_addr") address _)
  entry-address server spec t type address q r =
      text_in-put toml (codes "token") (codes "bind_addr") t _
      ∙ rw q (text_in-put toml (codes "bind_addr") (codes "bind_addr") address _)

  pub spec_to_pending-IsReady :
      (spec : ServiceSpec) (side : Side) (fresh : Text)
      → IsSpec socket_addr side spec
      → IsReady toml socket_addr (spec_to_pending toml spec side fresh)
  unfolding spec_to_pending
  spec_to_pending-IsReady spec side fresh i = record {
    named = i.named;
    address = i.address;
    has_address =
        entry-address side spec (token_or toml spec.token fresh) _ i.address i.has_address
          i.no_other;
    address_valid = i.address_valid;
    token = token_or toml spec.token fresh;
    has_token = text_in-put toml (codes "token") (codes "token") (token_or toml spec.token fresh) _;
  }
